-- ===== src/Iam/Flows.antt =====
-- The authorization code flow and the device flow of `LocalIdentityProvider` in
-- crates/picloud-iam/src/implementation.rs. Fresh codes are arguments; a call reads one time.
pub mod Codes
pub mod Devices
use picloud.Prelude.{
  ℕ, ◌+◌, ◌≡◌, Bool, true, false, not, Option, none, some, List, [], ◌∷◌, ◌++◌, leb, if◌then◌else◌,
  ◌==◌, ◌!=◌,
}
use picloud.Prelude.Equality.{nat_eq, list_eq}
use picloud.Prelude.HashMap
use picloud.Prelude.HashMap.{HashMap}
use picloud.Prelude.Texts.{Text, codes, is_empty}
use picloud.Domain.Error.{
  Result, ok, err, ◌>>=◌, PiCloudError, unauthenticated, unknown_device_code, device_code_expired,
}
use picloud.Domain.Iri.{ResourceIri}
use picloud.Iam.Tokens.{Crypto}
use picloud.Iam.Provider.{
  LocalIdentityProvider, StoredAppRegistration, PendingAuthorizationCode, PendingDeviceFlow,
}
use picloud.Iam.Issuing.{
  TokenResponse, bearer, issue_token, issue_token_with_audience, product_audience, scopes_of,
}
use picloud.Iam.Clients.{join}
use picloud.Iam.Signature.{failed}

abbrev begin_for :
    ℕ
    → Text
    → Text
    → Text
    → Option Text
    → ResourceIri
    → Option StoredAppRegistration
    → LocalIdentityProvider
    → Result Text × LocalIdentityProvider
begin_for now code client_id redirect_uri scope iri none p = (err unauthenticated, p)
begin_for now code client_id redirect_uri scope iri (some app) p =
    let pending : PendingAuthorizationCode = record {
      identity_iri = iri;
      client_id = client_id;
      redirect_uri = redirect_uri;
      scopes = scopes_of scope;
      expires_at = now + 600;
    } in
    (ok code, record p { pending_auth_codes = HashMap.insert p.pending_auth_codes code pending })

unfoldable begin_authorization_code :
    ℕ
    → Text
    → Text
    → Text
    → Option Text
    → ResourceIri
    → LocalIdentityProvider
    → Result Text × LocalIdentityProvider
begin_authorization_code now code client_id redirect_uri scope iri p =
    begin_for now code client_id redirect_uri scope iri (HashMap.get p.app_registrations client_id)
      p

abbrev scope_of : List Text → Option Text
scope_of [] = none
scope_of (s ∷ scopes) = some (join (s ∷ scopes))

module _ (c : Crypto) where
  abbrev pub token_for_code :
      ℕ
      → PendingAuthorizationCode
      → Option StoredAppRegistration
      → LocalIdentityProvider
      → Result TokenResponse
  token_for_code now pending none p = err unauthenticated
  token_for_code now pending (some app) p =
      issue_token_with_audience c now pending.identity_iri
        (product_audience p.cluster_domain app.product_name) pending.scopes p
      >>= λ token. ok (bearer p.token_ttl_secs (scope_of pending.scopes) token)

  abbrev pub redeem :
      ℕ → Text → Option PendingAuthorizationCode → LocalIdentityProvider → Result TokenResponse
  redeem now client_id none p = err unauthenticated
  redeem now client_id (some pending) p =
      if leb pending.expires_at now
      then err unauthenticated
      else if pending.client_id != client_id
      then err unauthenticated
      else token_for_code now pending (HashMap.get p.app_registrations client_id) p

  -- The code is removed first; the redirect URI is not looked at.
  unfoldable pub exchange_authorization_code :
      ℕ → Text → Text → Text → LocalIdentityProvider → Result TokenResponse × LocalIdentityProvider
  unfolding issue_token_with_audience
  exchange_authorization_code now code client_id redirect_uri p =
      let q = record p { pending_auth_codes = HashMap.remove p.pending_auth_codes code } in
      (redeem now client_id (HashMap.get p.pending_auth_codes code) q, q)

pub record DeviceFlowResponse : Type 0 where
  pub device_code : Text
  pub verification_url : Text
  pub interval_secs : ℕ
  pub expires_in_secs : ℕ

pub data DeviceFlowPollResult : Type 0 where
  pending : DeviceFlowPollResult
  -- The token, its type and its time to live.
  complete : Text → Text → ℕ → DeviceFlowPollResult
  expired : DeviceFlowPollResult

unfoldable pub begin_device_flow :
    ℕ → Text → LocalIdentityProvider → Result DeviceFlowResponse × LocalIdentityProvider
begin_device_flow now device_code p =
    let flow : PendingDeviceFlow = record {
      expires_at = now + 600;
      completed_token = none;
      identity_iri = none;
    } in
    (
      ok (record {
        device_code = device_code;
        verification_url =
            codes "https://" ++ (p.cluster_domain ++ (codes "/auth/device?code=" ++ device_code));
        interval_secs = 5;
        expires_in_secs = 600;
      }),
      record p { pending_device_flows = HashMap.insert p.pending_device_flows device_code flow },
    )

abbrev poll_result : ℕ → Option Text → DeviceFlowPollResult
poll_result expires_in none = pending
poll_result expires_in (some token) = complete token (codes "Bearer") expires_in

abbrev pub poll_one : ℕ → ℕ → Option PendingDeviceFlow → Result DeviceFlowPollResult
poll_one now expires_in none = failed unknown_device_code
poll_one now expires_in (some flow) =
    if leb flow.expires_at now then ok expired else ok (poll_result expires_in flow.completed_token)

unfoldable pub poll_device_flow : ℕ → Text → LocalIdentityProvider → Result DeviceFlowPollResult
poll_device_flow now device_code p =
    poll_one now p.token_ttl_secs (HashMap.get p.pending_device_flows device_code)

module _ (c : Crypto) where
  abbrev pub finish_flow :
      ℕ
      → Text
      → ResourceIri
      → Text
      → Option PendingDeviceFlow
      → LocalIdentityProvider
      → Result (Unit {0}) × LocalIdentityProvider
  finish_flow now device_code iri token none p = (failed unknown_device_code, p)
  finish_flow now device_code iri token (some flow) p =
      let done = record flow { completed_token = some token; identity_iri = some iri } in
      if leb flow.expires_at now then (failed device_code_expired, p) else (
        ok tt,
        record p { pending_device_flows = HashMap.insert p.pending_device_flows device_code done },
      )

  abbrev pub finish_with :
      ℕ
      → Text
      → ResourceIri
      → Result Text
      → LocalIdentityProvider
      → Result (Unit {0}) × LocalIdentityProvider
  finish_with now device_code iri (err e) p = (err e, p)
  finish_with now device_code iri (ok token) p =
      finish_flow now device_code iri token (HashMap.get p.pending_device_flows device_code) p

  unfoldable pub complete_device_flow :
      ℕ → Text → ResourceIri → LocalIdentityProvider → Result (Unit {0}) × LocalIdentityProvider
  unfolding issue_token
  complete_device_flow now device_code iri p =
      finish_with now device_code iri (issue_token c now iri none p) p
