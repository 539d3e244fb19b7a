-- ===== src/Iam/Ceremonies/Logins.antt =====
-- What stands behind a token of `complete_authentication`.
use picloud.Prelude.{
  ℕ, ◌<◌, ◌≡◌, refl, inl, inr, false, Option, none, some, leb, find, arith, Bool-cases,
}
use picloud.Prelude.Equality.{nat_eq, list_eq}
use picloud.Prelude.HashMap
use picloud.Prelude.HashMap.{HashMap, get-remove}
use picloud.Prelude.Texts.{Text}
use picloud.Domain.Error.{Result, ok, err}
use picloud.Iam.Tokens.{Crypto}
use picloud.Iam.Provider.{
  LocalIdentityProvider, RegisteredPasskey, ChallengeKind, registration, authentication,
  PendingChallenge,
}
use picloud.Iam.Issuing.{issue_token}
use picloud.Iam.Signature.{AuthenticationResponse, P256, check_signature}
use picloud.Iam.Ceremonies.{
  take_challenge, has_credential, verified, login, finish_authentication, complete_authentication,
  is_registration,
}
use picloud.Iam.Passkeys.{get_passkeys}

kind_lem : (k : ChallengeKind) → is_registration k ≡ false → k ≡ authentication
kind_lem registration h = absurd (ground arith)
kind_lem authentication h = refl

module _ (c : Crypto) (p256 : P256) where
  verified_ok :
      (o : Option RegisteredPasskey) (pending : PendingChallenge)
      (response : AuthenticationResponse)
      → verified c p256 o pending response ≡ ok tt
      → (pk : RegisteredPasskey) × (o ≡ some pk)
        × (check_signature c p256 pk.public_key pending.challenge_bytes response ≡ ok tt)
  verified_ok none pending response h = absurd (ground arith)
  verified_ok (some pk) pending response h = (pk, refl, h)

  login_ok :
      (now : ℕ) (pending : PendingChallenge) (response : AuthenticationResponse)
      → (r : Result (Unit {0})) (p : LocalIdentityProvider) (token : Text)
      → (login c p256 now pending response r p).0 ≡ ok token
      → (r ≡ ok tt)
        × (issue_token c now pending.identity_iri none (login c p256 now pending response r p).1
            ≡ ok token)
  login_ok now pending response (err e) p token h = absurd (ground arith)
  login_ok now pending response (ok tt) p token h = (refl, h)

  finish_authentication_ok :
      (now : ℕ) (response : AuthenticationResponse) (o : Option PendingChallenge)
      → (p : LocalIdentityProvider) (token : Text)
      → (finish_authentication c p256 now response o p).0 ≡ ok token
      → (pending : PendingChallenge) × (o ≡ some pending)
        × (pending.kind ≡ authentication)
        × (now < pending.expires_at)
        × ((pk : RegisteredPasskey) × (find
                (has_credential c response.credential_id)
                (get_passkeys pending.identity_iri p)
              ≡ some pk)
            × (check_signature c p256 pk.public_key pending.challenge_bytes response ≡ ok tt))
        × (issue_token c now pending.identity_iri none
              (finish_authentication c p256 now response o p).1
            ≡ ok token)
  finish_authentication_ok now response none p token h = absurd (ground arith)
  finish_authentication_ok now response (some pending) p token h =
      elim (Bool-cases (is_registration pending.kind)) [
        | inl e ↦ absurd (ground (arith, e))
        | inr e ↦ elim (Bool-cases (leb pending.expires_at now)) [
          | inl f ↦ absurd (ground (arith, e, f))
          | inr f ↦
              let r =
                verified c p256
                  (find (has_credential c response.credential_id)
                    (get_passkeys pending.identity_iri p))
                  pending response in
              let (good, made) = login_ok now pending response r p token (ground (arith, e, f)) in
              (
                pending,
                refl,
                kind_lem pending.kind e,
                ground (arith, f),
                verified_ok _ pending response good,
                ground (arith, e, f, made),
              )
        ]
      ]

  -- An authentication that gives a token answered a pending challenge of that kind before it expired,
  -- with a credential that is registered for the identity of the challenge, and its signature was
  -- accepted for that credential and those challenge bytes; and the token is one for that identity.
  pub complete_authentication_ok :
      (now : ℕ) (id : Text) (response : AuthenticationResponse) (p : LocalIdentityProvider)
      → (token : Text) → (complete_authentication c p256 now id response p).0 ≡ ok token
      → (pending : PendingChallenge) × (HashMap.get p.pending_challenges id ≡ some pending)
        × (pending.kind ≡ authentication)
        × (now < pending.expires_at)
        × ((pk : RegisteredPasskey) × (find
                (has_credential c response.credential_id)
                (get_passkeys pending.identity_iri p)
              ≡ some pk)
            × (check_signature c p256 pk.public_key pending.challenge_bytes response ≡ ok tt))
        × (issue_token c now pending.identity_iri none
              (complete_authentication c p256 now id response p).1
            ≡ ok token)
  unfolding complete_authentication take_challenge get_passkeys
  complete_authentication_ok now id response p token h =
      finish_authentication_ok now response (HashMap.get p.pending_challenges id)
        (take_challenge id p) token h
