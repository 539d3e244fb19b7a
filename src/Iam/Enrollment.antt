-- ===== src/Iam/Enrollment.antt =====
-- Enrollment tokens of `LocalIdentityProvider` in crates/picloud-iam/src/implementation.rs. The text of
-- a new token, the ids and the random bytes are arguments.
use picloud.Prelude.{
  ◌<◌, ap, ◌∙◌, inl, inr, Bool-cases, arith, ==_iff, ℕ, ◌+◌, ◌≡◌, refl, true, false, not, Option,
  none, some, [], ◌∷◌, if◌then◌else◌,
}
use picloud.Prelude.Equality.{nat_eq, list_eq}
use picloud.Prelude.HashMap
use picloud.Prelude.HashMap.{HashMap, get-insert}
use picloud.Prelude.Texts.{Text, codes}
use picloud.Domain.Error.{Result, ok, invalid_enrollment_token, enrollment_token_spent}
use picloud.Domain.Iri.{ResourceIri, resource}
use picloud.Iam.Tokens.{Bytes, Crypto}
use picloud.Iam.Provider.{LocalIdentityProvider, EnrollmentToken, EnrollmentPurpose, is_valid}
use picloud.Iam.Groups.{register_identity}
use picloud.Iam.Signature.{failed}
use picloud.Iam.Ceremonies.{RegistrationChallenge, begin_registration}

unfoldable store_enrollment_token : EnrollmentToken → LocalIdentityProvider → LocalIdentityProvider
store_enrollment_token t p = record p {
  enrollment_tokens = HashMap.insert p.enrollment_tokens t.token t;
}

-- `generate_reset_token` and `generate_bootstrap_token`, which has no target; the text is fresh.
unfoldable generate_token :
    ℕ
    → Text
    → ℕ
    → EnrollmentPurpose
    → Option ResourceIri
    → LocalIdentityProvider
    → EnrollmentToken × LocalIdentityProvider
unfolding store_enrollment_token
generate_token now text ttl_secs purpose target p =
    let t : EnrollmentToken = record {
      token = text;
      purpose = purpose;
      expires_at = now + ttl_secs;
      used = false;
      target_identity = target;
    } in
    (t, store_enrollment_token t p)

abbrev mark_used : Text → EnrollmentToken → LocalIdentityProvider → LocalIdentityProvider
mark_used token t p = record p {
  enrollment_tokens = HashMap.insert p.enrollment_tokens token (record t { used = true });
}

module _ (c : Crypto) where
  abbrev pub started :
      (Text × RegistrationChallenge) × LocalIdentityProvider
      → Result (Text × RegistrationChallenge) × LocalIdentityProvider
  started (r, p) = (ok r, p)

  -- The identity of the token, or a new administrator.
  abbrev enroll_identity :
      ℕ
      → Text
      → Bytes
      → Text
      → Option ResourceIri
      → LocalIdentityProvider
      → Result (Text × RegistrationChallenge) × LocalIdentityProvider
  enroll_identity now challenge_id challenge_bytes admin_id (some iri) p =
      started (begin_registration c now challenge_id challenge_bytes iri p)
  enroll_identity now challenge_id challenge_bytes admin_id none p =
      let iri =
        resource (record { domain = p.cluster_domain }) (codes "platform") (codes "identities")
          admin_id in
      started (
        begin_registration c now challenge_id challenge_bytes iri
          (register_identity iri (codes "admin" ∷ []) p))

  abbrev enroll_by :
      ℕ
      → Text
      → Bytes
      → Text
      → Text
      → Option EnrollmentToken
      → LocalIdentityProvider
      → Result (Text × RegistrationChallenge) × LocalIdentityProvider
  enroll_by now challenge_id challenge_bytes admin_id token none p =
      (failed invalid_enrollment_token, p)
  enroll_by now challenge_id challenge_bytes admin_id token (some t) p =
      if not (is_valid now t)
      then (failed enrollment_token_spent, p)
      else enroll_identity now challenge_id challenge_bytes admin_id t.target_identity
          (mark_used token t p)

  unfoldable enroll_with_token :
      ℕ
      → Text
      → Bytes
      → Text
      → Text
      → LocalIdentityProvider
      → Result (Text × RegistrationChallenge) × LocalIdentityProvider
  unfolding is_valid begin_registration register_identity resource
  enroll_with_token now challenge_id challenge_bytes admin_id token p =
      enroll_by now challenge_id challenge_bytes admin_id token
        (HashMap.get p.enrollment_tokens token) p

  -- The state of the tokens after an enrollment that succeeded.
  enroll_identity-tokens :
      (now : ℕ) (cid : Text) (bytes : Bytes) (admin : Text) (target : Option ResourceIri)
      → (p : LocalIdentityProvider)
      → (enroll_identity now cid bytes admin target p).1.enrollment_tokens ≡ p.enrollment_tokens
  unfolding begin_registration register_identity
  enroll_identity-tokens now cid bytes admin none p = refl
  enroll_identity-tokens now cid bytes admin (some iri) p = refl

  enroll_by_ok :
      (now : ℕ) (cid : Text) (bytes : Bytes) (admin token : Text) (o : Option EnrollmentToken)
      → (p : LocalIdentityProvider) (r : Text × RegistrationChallenge)
      → (enroll_by now cid bytes admin token o p).0 ≡ ok r
      → (t : EnrollmentToken) × (o ≡ some t)
        × (is_valid now t ≡ true)
        × ((enroll_by now cid bytes admin token o p).1.enrollment_tokens
            ≡ HashMap.insert p.enrollment_tokens token (record t { used = true }))
  enroll_by_ok now cid bytes admin token none p r h = absurd (ground arith)
  enroll_by_ok now cid bytes admin token (some t) p r h = elim (Bool-cases (is_valid now t)) [
    | inl e ↦ (
      t,
      refl,
      e,
      ground (
        arith,
        e,
        enroll_identity-tokens now cid bytes admin t.target_identity (mark_used token t p),
      ),
    )
    | inr e ↦ absurd (ground (arith, e))
  ]

  -- An enrollment token serves once: an enrollment that succeeds found the token unused and not yet
  -- expired, and every later one with it, at any time, is refused.
  enroll_with_token_once :
      (now : ℕ) (cid : Text) (bytes : Bytes) (admin token : Text) (p : LocalIdentityProvider)
      → (r : Text × RegistrationChallenge)
      → (enroll_with_token now cid bytes admin token p).0 ≡ ok r
      → ((t : EnrollmentToken) × (HashMap.get p.enrollment_tokens token ≡ some t)
          × (t.used ≡ false)
          × (now < t.expires_at))
        × ((later : ℕ) (cid' : Text) (bytes' : Bytes) (admin' : Text)
            → (enroll_with_token later cid' bytes' admin' token
                (enroll_with_token now cid bytes admin token p).1).0
              ≡ failed enrollment_token_spent)
  unfolding enroll_with_token is_valid
  enroll_with_token_once now cid bytes admin token p r h =
      let o = HashMap.get p.enrollment_tokens token in
      let (t, found, valid, tokens) = enroll_by_ok now cid bytes admin token o p r h in
      let q = (enroll_by now cid bytes admin token o p).1 in
      let spent : EnrollmentToken = record t { used = true } in
      let stored : HashMap.get q.enrollment_tokens token ≡ some spent =
        ap (λ m. HashMap.get m token) tokens
        ∙ get-insert p.enrollment_tokens token token spent
        ∙ ground (arith, ==_iff token token) in
      (
        (t, found, ground (arith, valid), ground (arith, valid)),
        λ later cid' bytes' admin'.
            ap (λ x. (enroll_by later cid' bytes' admin' token x q).0) stored,
      )
