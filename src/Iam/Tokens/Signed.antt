-- ===== src/Iam/Tokens/Signed.antt =====
-- Which tokens `verify_token_with_rotation` accepts.
use picloud.Prelude.{
  ℕ, ◌≡◌, ◌<◌, refl, sym, ◌∙◌, ◌⊎◌, inl, inr, Option, none, some, List, [], ◌∷◌, ◌++◌, leb, arith,
  ==_iff, Bool-cases, Option-cases,
}
use picloud.Prelude.Equality.{nat_eq, list_eq}
use picloud.Prelude.Texts.{Text, split_once, append_of_split_once}
use picloud.Domain.Error.{Result, ok, err, unauthenticated}
use picloud.Iam.Tokens.{
  TokenClaims, Key, Crypto, Laws, RetiredKey, claims_of, try_retired, or_retired,
  verify_token_with_rotation,
}
use picloud.Iam.Tokens.Rotation.{
  IsKept, opened_with, opened, checked, verify_token_lem, try_retired-cons,
}

module _ (c : Crypto) where
  checked_ok :
      (now : ℕ) (o : Option TokenClaims) (rest : Result TokenClaims) (a : TokenClaims)
      → checked c now o rest ≡ ok a
      → ((o ≡ some a) × (now < a.expires_at)) ⊎ (rest ≡ ok a)
  checked_ok now none rest a h = inr h
  checked_ok now (some b) rest a h = elim (Bool-cases (leb b.expires_at now)) [
    | inl late ↦ absurd (ground (arith, late))
    | inr fresh ↦ inl (ground (arith, fresh), ground (arith, fresh))
  ]

  -- Some kept key opens the token as `a`.
  abbrev OpenedBy : Text → TokenClaims → ℕ → Key → List RetiredKey → Type 0
  OpenedBy token a now key rks =
      (k : Key) × IsKept k key rks × (opened c k token ≡ some a) × (now < a.expires_at)

  nothing_retired :
      (now : ℕ) (token : Text) (a : TokenClaims) → try_retired c now token [] ≡ ok a → ⊥
  unfolding try_retired
  nothing_retired now token a h = ground arith

  wider :
      (key k : Key) (rk : RetiredKey) (rks : List RetiredKey)
      → IsKept k key rks
      → IsKept k key (rk ∷ rks)
  wider key k rk rks (inl e) = inl e
  wider key k rk rks (inr e) = inr (ground (arith, e))

  try_retired_ok :
      (now : ℕ) (key : Key) (token : Text) (a : TokenClaims) (rks : List RetiredKey)
      → try_retired c now token rks ≡ ok a
      → OpenedBy token a now key rks
  try_retired_ok now key token a [] h = absurd (nothing_retired now token a h)
  try_retired_ok now key token a (rk ∷ rks) h =
      elim (checked_ok now (opened c rk.key token) (try_retired c now token rks) a
        (sym (try_retired-cons c now token rk rks) ∙ h)) [
          | inl (o, fresh) ↦ (rk.key, inr (ground (arith, ==_iff rk.key rk.key)), o, fresh)
          | inr later ↦
              let (k, kept, o, fresh) = try_retired_ok now key token a rks later in
              (k, wider key k rk rks kept, o, fresh)
        ]

  or_retired_ok :
      (now : ℕ) (key : Key) (token : Text) (a : TokenClaims) (rks : List RetiredKey)
      → (r : Result TokenClaims) → or_retired c now token rks r ≡ ok a
      → (r ≡ ok a) ⊎ (try_retired c now token rks ≡ ok a)
  or_retired_ok now key token a rks (ok b) h = inl h
  or_retired_ok now key token a [] (err e) h = absurd (ground arith)
  or_retired_ok now key token a (rk ∷ rks) (err e) h = inr h

  rotation_ok :
      (now : ℕ) (key : Key) (token : Text) (a : TokenClaims) (rks : List RetiredKey)
      → verify_token_with_rotation c now key token rks ≡ ok a
      → OpenedBy token a now key rks
  unfolding verify_token_with_rotation
  rotation_ok now key token a rks h = elim (or_retired_ok now key token a rks _ h) [
    | inl current ↦
        elim (checked_ok now (opened c key token) (err unauthenticated) a
          (sym (verify_token_lem c now key token) ∙ current)) [
            | inl (o, fresh) ↦ (key, inl refl, o, fresh)
            | inr no_more ↦ absurd (ground arith)
          ]
    | inr retired ↦ try_retired_ok now key token a rks retired
  ]

  -- What a token that `k` opens is made of.
  opened_lem :
      Laws c
      → (k : Key) (token : Text) (a : TokenClaims) (cut : Option (Text × Text))
      → opened_with c k cut ≡ some a
      → (payload : Text) × (signature : Text) × (cut ≡ some (payload, signature))
        × (c.decode signature ≡ some (c.hmac_sign k payload))
        × (claims_of c payload ≡ some a)
  opened_lem laws k token a none h = absurd (ground arith)
  opened_lem laws k token a (some (payload, signature)) h =
      elim (Option-cases (c.decode signature)) [
        | inl e ↦ absurd (ground (arith, e))
        | inr (tag, e) ↦ elim (Bool-cases (c.hmac_verify k payload tag)) [
          | inl v ↦ (
            payload,
            signature,
            refl,
            ground (arith, e, laws.tag_of_verify k payload tag v),
            ground (arith, e, v),
          )
          | inr v ↦ absurd (ground (arith, e, v))
        ]
      ]

  -- Only signed tokens are accepted: a token that verifies is a payload, a dot and the encoding of the
  -- tag of that payload under the current key or a retired one; its claims are the payload's, and they
  -- have not expired.
  pub verify_token_with_rotation_signed :
      Laws c
      → (now : ℕ) (key : Key) (token : Text) (a : TokenClaims) (rks : List RetiredKey)
      → verify_token_with_rotation c now key token rks ≡ ok a
      → (k : Key) × IsKept k key rks
        × ((payload : Text) × (signature : Text) × (token ≡ payload ++ b'.' ∷ signature)
            × (c.decode signature ≡ some (c.hmac_sign k payload))
            × (claims_of c payload ≡ some a))
        × (now < a.expires_at)
  unfolding opened
  verify_token_with_rotation_signed laws now key token a rks h =
      let (k, kept, o, fresh) = rotation_ok now key token a rks h in
      let (payload, signature, cut, tag, claims) =
        opened_lem laws k token a (split_once b'.' token) o in
      (
        k,
        kept,
        (payload, signature, append_of_split_once b'.' token payload signature cut, tag, claims),
        fresh,
      )
