-- ===== src/Iam/Ceremonies/Challenges.antt =====
-- What an answer does to the pending challenges of the ceremonies.
use picloud.Prelude.{
  ℕ, ◌≡◌, ◌≢◌, refl, ap, ◌∙◌, inl, inr, Option, none, some, leb, find, arith, ==_iff, Bool-cases,
}
use picloud.Prelude.Equality.{nat_eq, list_eq}
use picloud.Prelude.HashMap
use picloud.Prelude.HashMap.{HashMap, get-remove}
use picloud.Prelude.Texts.{Text}
use picloud.Domain.Error.{Result, ok, err, unknown_challenge, invalid_public_key}
use picloud.Iam.Tokens.{Bytes, Crypto}
use picloud.Iam.Provider.{LocalIdentityProvider, PendingChallenge}
use picloud.Iam.Groups.{register_identity}
use picloud.Iam.Signature.{AuthenticationResponse, P256, failed, required}
use picloud.Iam.Ceremonies.{
  RegistrationResponse, take_challenge, has_credential, update_last_used, verified, login,
  finish_authentication, complete_authentication, finish_registration, register_passkey,
  complete_registration, is_registration,
}
use picloud.Iam.Passkeys.{get_passkeys, store_passkey}

module _ (c : Crypto) (p256 : P256) where
  -- A step of a ceremony leaves the pending challenges alone.
  login-pending :
      (now : ℕ) (pending : PendingChallenge) (response : AuthenticationResponse)
      → (r : Result (Unit {0})) (p : LocalIdentityProvider)
      → (login c p256 now pending response r p).1.pending_challenges ≡ p.pending_challenges
  login-pending now pending response (err e) p = refl
  login-pending now pending response (ok u) p =
      elim (HashMap.get p.passkeys pending.identity_iri)
        as (λ o.
          (update_last_used c now response.credential_id pending.identity_iri o
            p).pending_challenges
          ≡ p.pending_challenges) [ none ↦ refl | some ks ↦ refl ]

  finish_authentication-pending :
      (now : ℕ) (response : AuthenticationResponse) (o : Option PendingChallenge)
      → (p : LocalIdentityProvider)
      → (finish_authentication c p256 now response o p).1.pending_challenges ≡ p.pending_challenges
  finish_authentication-pending now response none p = refl
  finish_authentication-pending now response (some pending) p =
      elim (Bool-cases (is_registration pending.kind)) [
        | inl e ↦ ground (arith, e)
        | inr e ↦ elim (Bool-cases (leb pending.expires_at now)) [
          | inl f ↦ ground (arith, e, f)
          | inr f ↦ ground (
            arith,
            e,
            f,
            login-pending now pending response
                (verified c p256
                  (find (has_credential c response.credential_id)
                    (get_passkeys pending.identity_iri p))
                  pending response)
                p,
          )
        ]
      ]

  register_passkey-pending :
      (now : ℕ) (pending : PendingChallenge) (response : RegistrationResponse) (r : Result Bytes)
      → (p : LocalIdentityProvider)
      → (register_passkey c now pending response r p).1.pending_challenges ≡ p.pending_challenges
  unfolding store_passkey register_identity
  register_passkey-pending now pending response (err e) p = refl
  register_passkey-pending now pending response (ok b) p = ground arith

  finish_registration-pending :
      (now : ℕ) (response : RegistrationResponse) (o : Option PendingChallenge)
      → (p : LocalIdentityProvider)
      → (finish_registration c now response o p).1.pending_challenges ≡ p.pending_challenges
  finish_registration-pending now response none p = refl
  finish_registration-pending now response (some pending) p = ground (
    arith,
    register_passkey-pending now pending response
        (required (c.decode response.public_key) invalid_public_key) p,
  )

  -- The challenges after either ceremony: those from before, without the one that was answered.
  abbrev Spends : Text → LocalIdentityProvider → LocalIdentityProvider → Type 0
  Spends id p q = q.pending_challenges ≡ HashMap.remove p.pending_challenges id

  complete_authentication-Spends :
      (now : ℕ) (id : Text) (response : AuthenticationResponse) (p : LocalIdentityProvider)
      → Spends id p (complete_authentication c p256 now id response p).1
  unfolding complete_authentication take_challenge
  complete_authentication-Spends now id response p =
      finish_authentication-pending now response (HashMap.get p.pending_challenges id)
        (take_challenge id p)

  complete_registration-Spends :
      (now : ℕ) (id : Text) (response : RegistrationResponse) (p : LocalIdentityProvider)
      → Spends id p (complete_registration c now id response p).1
  unfolding complete_registration take_challenge
  complete_registration-Spends now id response p =
      finish_registration-pending now response (HashMap.get p.pending_challenges id)
        (take_challenge id p)

  -- Answers to a challenge that is not pending are refused.
  abbrev pub Refuses : Text → LocalIdentityProvider → Type 0
  Refuses id q =
      ((later : ℕ) (again : AuthenticationResponse)
        → (complete_authentication c p256 later id again q).0 ≡ failed unknown_challenge)
      × ((later : ℕ) (again : RegistrationResponse)
          → (complete_registration c later id again q).0 ≡ failed unknown_challenge)

  Spends-Refuses : (id : Text) (p q : LocalIdentityProvider) → Spends id p q → Refuses id q
  unfolding complete_authentication complete_registration take_challenge
  Spends-Refuses id p q h =
      let gone : HashMap.get q.pending_challenges id ≡ none =
        ap (λ m. HashMap.get m id) h
        ∙ get-remove p.pending_challenges id id
        ∙ ground (arith, ==_iff id id) in
      (
        λ later again.
            ap (λ o. (finish_authentication c p256 later again o (take_challenge id q)).0) gone,
        λ later again. ap (λ o. (finish_registration c later again o (take_challenge id q)).0) gone,
      )

  -- A challenge serves once: whatever came of an answer to it, every later answer, of either ceremony
  -- and at any time, is refused as to an unknown challenge; and every other challenge is as before.
  pub challenge_once :
      (now : ℕ) (id : Text) (response : AuthenticationResponse) (signup : RegistrationResponse)
      → (p : LocalIdentityProvider)
      → let q = (complete_authentication c p256 now id response p).1 in
        let s = (complete_registration c now id signup p).1 in
        Refuses id q
        × Refuses id s
        × ((j : Text)
            → id ≢ j
            → (HashMap.get q.pending_challenges j ≡ HashMap.get p.pending_challenges j)
              × (HashMap.get s.pending_challenges j ≡ HashMap.get p.pending_challenges j))
  challenge_once now id response signup p =
      let q = (complete_authentication c p256 now id response p).1 in
      let s = (complete_registration c now id signup p).1 in
      let hq = complete_authentication-Spends now id response p in
      let hs = complete_registration-Spends now id signup p in
      (
        Spends-Refuses id p q hq,
        Spends-Refuses id p s hs,
        λ j ne. (
          ap (λ m. HashMap.get m j) hq
              ∙ get-remove p.pending_challenges id j
              ∙ ground (arith, ==_iff id j),
          ap (λ m. HashMap.get m j) hs
              ∙ get-remove p.pending_challenges id j
              ∙ ground (arith, ==_iff id j),
        ),
      )
