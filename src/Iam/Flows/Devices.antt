-- ===== src/Iam/Flows/Devices.antt =====
-- What polling a device code answers over its life.
use picloud.Prelude.{
  ℕ, ◌+◌, ◌≤◌, ◌<◌, ◌≡◌, ap, ◌∙◌, Bool, none, some, leb, if◌then◌else◌, arith, ==_iff, le→leb,
  not-leb,
}
use picloud.Prelude.Equality.{nat_eq, list_eq}
use picloud.Prelude.HashMap
use picloud.Prelude.HashMap.{HashMap, get-insert}
use picloud.Prelude.Texts.{Text, codes}
use picloud.Domain.Error.{ok, device_code_expired}
use picloud.Domain.Iri.{ResourceIri}
use picloud.Iam.Tokens.{Crypto}
use picloud.Iam.Provider.{LocalIdentityProvider, PendingDeviceFlow}
use picloud.Iam.Issuing.{issue_token}
use picloud.Iam.Signature.{failed}
use picloud.Iam.Flows.{
  pending, complete, expired, begin_device_flow, poll_device_flow, complete_device_flow, poll_one,
  finish_flow, finish_with,
}

module _ (c : Crypto) where
  polled :
      (now : ℕ) (code : Text) (p : LocalIdentityProvider) (flow : PendingDeviceFlow)
      → HashMap.get p.pending_device_flows code ≡ some flow
      → poll_device_flow now code p ≡ poll_one now p.token_ttl_secs (some flow)
  unfolding poll_device_flow
  polled now code p flow h = ap (poll_one now p.token_ttl_secs) h

  found :
      (p : LocalIdentityProvider) (code : Text) (flow : PendingDeviceFlow)
      → HashMap.get (HashMap.insert p.pending_device_flows code flow) code ≡ some flow
  found p code flow =
      get-insert p.pending_device_flows code code flow ∙ ground (arith, ==_iff code code)

  completed :
      (at : ℕ) (code token : Text) (iri : ResourceIri) (p : LocalIdentityProvider)
      → (flow : PendingDeviceFlow) → issue_token c at iri none p ≡ ok token
      → HashMap.get p.pending_device_flows code ≡ some flow
      → complete_device_flow c at code iri p ≡ finish_flow c at code iri token (some flow) p
  unfolding complete_device_flow
  completed at code token iri p flow issued h =
      ap (λ r. finish_with c at code iri r p) issued
      ∙ ap (λ o. finish_flow c at code iri token o p) h

  -- A device code that was begun is pending until it is completed, gives the token of the identity that
  -- completed it from then on, and has expired after ten minutes, completed or not; a completion after
  -- that is refused and changes nothing.
  device_flow_lem :
      (now at later : ℕ) (code token : Text) (iri : ResourceIri) (p : LocalIdentityProvider)
      → let begun = (begin_device_flow now code p).1 in
        issue_token c at iri none begun ≡ ok token
        → let (r, done) = complete_device_flow c at code iri begun in
          (poll_device_flow later code begun
            ≡ (if leb (now + 600) later then ok expired else ok pending))
          × (at < now + 600
              → (r ≡ ok tt)
                × (poll_device_flow later code done ≡ (
                    if leb (now + 600) later
                    then ok expired
                    else ok (complete token (codes "Bearer") p.token_ttl_secs))))
          × (now + 600 ≤ at → (r ≡ failed device_code_expired) × (done ≡ begun))
  unfolding begin_device_flow
  device_flow_lem now at later code token iri p issued =
      let flow : PendingDeviceFlow = record {
        expires_at = now + 600;
        completed_token = none;
        identity_iri = none;
      } in
      let full : PendingDeviceFlow = record flow {
        completed_token = some token;
        identity_iri = some iri;
      } in
      let begun = (begin_device_flow now code p).1 in
      let q = record begun {
        pending_device_flows = HashMap.insert begun.pending_device_flows code full;
      } in
      let all = completed at code token iri begun flow issued (found p code flow) in
      (
        polled later code begun flow (found p code flow),
        λ early.
            let made : complete_device_flow c at code iri begun ≡ (ok tt, q) =
              all
              ∙ ap (λ (b : Bool). if b then (failed device_code_expired, begun) else (ok tt, q))
                  (not-leb (now + 600) at early) in
            (
              ap (λ x. x.0) made,
              ap (λ x. poll_device_flow later code x.1) made
                  ∙ polled later code q full (found begun code full),
            ),
        λ late.
            let refused : complete_device_flow c at code iri begun
                ≡ (failed device_code_expired, begun) =
              all
              ∙ ap (λ (b : Bool). if b then (failed device_code_expired, begun) else (ok tt, q))
                  (le→leb (now + 600) at late) in
            (ap (λ x. x.0) refused, ap (λ x. x.1) refused),
      )
