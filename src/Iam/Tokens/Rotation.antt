-- ===== src/Iam/Tokens/Rotation.antt =====
-- What the rotation of keys leaves valid: `verify_token_with_rotation` at a token that a kept key
-- signed.
use picloud.Prelude.{
  ℕ, ◌≡◌, refl, sym, ap, ◌∙◌, ◌⊎◌, inl, inr, true, Option, none, some, List, [], ◌∷◌, ◌++◌, any,
  leb, if◌then◌else◌, ◌==◌, arith, ==_iff, Bool-cases, Option-cases,
}
use picloud.Prelude.Equality.{nat_eq, list_eq}
use picloud.Prelude.Texts.{Text, split_once, split_once-append}
use picloud.Domain.Error.{Result, ok, err, unauthenticated}
use picloud.Iam.Tokens.{
  TokenClaims, Key, Crypto, Laws, RetiredKey, sign_token, check_expiry, claims_of, verify_token,
  try_retired, or_retired, verify_token_with_rotation,
}

-- A key is the current one or one of the retired.
abbrev pub IsKept : Key → Key → List RetiredKey → Type 0
IsKept k key rks = (k ≡ key) ⊎ (any (λ (rk : RetiredKey). rk.key == k) rks ≡ true)

module _ (c : Crypto) where
  abbrev pub opened_with : Key → Option (Text × Text) → Option TokenClaims
  opened_with key none = none
  opened_with key (some (payload, signature)) = elim (c.decode signature) [
    | none ↦ none
    | some tag ↦ if c.hmac_verify key payload tag then claims_of c payload else none
  ]

  -- The claims of a token that a key signed, whatever the time.
  unfoldable pub opened : Key → Text → Option TokenClaims
  opened key token = opened_with key (split_once b'.' token)

  abbrev pub checked : ℕ → Option TokenClaims → Result TokenClaims → Result TokenClaims
  checked now none rest = rest
  checked now (some claims) rest = check_expiry c now claims

  pub verify_token_lem :
      (now : ℕ) (key : Key) (token : Text)
      → verify_token c now key token ≡ checked now (opened key token) (err unauthenticated)
  unfolding verify_token opened
  verify_token_lem now key token = ground arith

  pub try_retired-cons :
      (now : ℕ) (token : Text) (rk : RetiredKey) (rks : List RetiredKey)
      → try_retired c now token (rk ∷ rks)
        ≡ checked now (opened rk.key token) (try_retired c now token rks)
  unfolding try_retired opened
  try_retired-cons now token rk rks = ground arith

  -- Two keys that open a token read the same claims: they are the payload's.
  opened_agree :
      (k j : Key) (token : Text) (a b : TokenClaims)
      → opened k token ≡ some a
      → opened j token ≡ some b
      → a ≡ b
  unfolding opened
  opened_agree k j token a b p q = ground arith

  try_retired_agree :
      (now : ℕ) (k : Key) (token : Text) (a : TokenClaims) (rks : List RetiredKey)
      → opened k token ≡ some a
      → any (λ (rk : RetiredKey). rk.key == k) rks ≡ true
      → try_retired c now token rks ≡ check_expiry c now a
  try_retired_agree now k token a [] p h = absurd (ground arith)
  try_retired_agree now k token a (rk ∷ rks) p h = elim (Option-cases (opened rk.key token)) [
    | inl e ↦
        try_retired-cons now token rk rks
        ∙ ap (λ o. checked now o (try_retired c now token rks)) e
        ∙ try_retired_agree now k token a rks p (ground (arith, ==_iff rk.key k, e))
    | inr (b, e) ↦
        try_retired-cons now token rk rks
        ∙ ap (λ o. checked now o (try_retired c now token rks)) e
        ∙ ap (check_expiry c now) (sym (opened_agree k rk.key token a b p e))
  ]

  -- No key revives a token that has expired.
  try_retired_expired :
      (now : ℕ) (k : Key) (token : Text) (a : TokenClaims) (rks : List RetiredKey)
      → opened k token ≡ some a
      → leb a.expires_at now ≡ true
      → try_retired c now token rks ≡ err unauthenticated
  unfolding try_retired
  try_retired_expired now k token a [] p late = refl
  try_retired_expired now k token a (rk ∷ rks) p late = elim (Option-cases (opened rk.key token)) [
    | inl e ↦
        try_retired-cons now token rk rks
        ∙ ap (λ o. checked now o (try_retired c now token rks)) e
        ∙ try_retired_expired now k token a rks p late
    | inr (b, e) ↦
        try_retired-cons now token rk rks
        ∙ ap (λ o. checked now o (try_retired c now token rks)) e
        ∙ ap (check_expiry c now) (sym (opened_agree k rk.key token a b p e))
        ∙ ap (λ t. if t then err unauthenticated else ok a) late
  ]

  expired_lem :
      (now : ℕ) (k : Key) (token : Text) (a : TokenClaims) (rks : List RetiredKey)
      → opened k token ≡ some a
      → leb a.expires_at now ≡ true
      → or_retired c now token rks (check_expiry c now a) ≡ check_expiry c now a
  expired_lem now k token a [] p late = ground (arith, late)
  expired_lem now k token a (rk ∷ rks) p late =
      ground (arith, late, try_retired_expired now k token a (rk ∷ rks) p late)

  or_retired_agree :
      (now : ℕ) (k key : Key) (token : Text) (a : TokenClaims) (rks : List RetiredKey)
      → opened k token ≡ some a
      → IsKept k key rks
      → (o : Option TokenClaims) → opened key token ≡ o
      → or_retired c now token rks (checked now o (err unauthenticated)) ≡ check_expiry c now a
  or_retired_agree now k key token a rks p (inl same) none e = absurd (ground (arith, same, p, e))
  or_retired_agree now k key token a [] p (inr h) none e = absurd (ground arith)
  or_retired_agree now k key token a (rk ∷ rks) p (inr h) none e =
      try_retired_agree now k token a (rk ∷ rks) p h
  or_retired_agree now k key token a rks p kept (some b) e =
      ap (λ x. or_retired c now token rks (check_expiry c now x)) (opened_agree key k token b a e p)
      ∙ elim (Bool-cases (leb a.expires_at now)) [
        | inl late ↦ expired_lem now k token a rks p late
        | inr fresh ↦ ground (arith, fresh)
      ]

  -- The claims of a token that a kept key signed are given until they expire, and refused from then on.
  rotation_agree :
      (now : ℕ) (k key : Key) (token : Text) (a : TokenClaims) (rks : List RetiredKey)
      → opened k token ≡ some a
      → IsKept k key rks
      → verify_token_with_rotation c now key token rks ≡ check_expiry c now a
  unfolding verify_token_with_rotation
  rotation_agree now k key token a rks p kept =
      ap (or_retired c now token rks) (verify_token_lem now key token)
      ∙ or_retired_agree now k key token a rks p kept (opened key token) refl

  opened-sign :
      Laws c
      → (k : Key) (claims : TokenClaims) (token : Text) → sign_token c k claims ≡ ok token
      → opened k token ≡ some claims
  unfolding opened sign_token
  opened-sign laws k claims token h = elim (Option-cases (c.to_vec claims)) [
    | inl e ↦ absurd (ground (arith, e))
    | inr (json, e) ↦
        let payload = c.encode json in
        let tag = c.hmac_sign k payload in
        let cut = split_once-append b'.' payload (c.encode tag) (laws.encode_dotless json) in
        let made : payload ++ (b'.' ∷ c.encode tag) ≡ token = ground (arith, e) in
        ap (λ t. opened_with k (split_once b'.' t)) (sym made)
        ∙ ap (opened_with k) cut
        ∙ ground (
          arith,
          laws.decode-encode tag,
          laws.verify-sign k payload,
          laws.decode-encode json,
          laws.from_slice-to_vec claims json e,
        )
  ]

  -- A token that was signed by the current key or by one that is retired, however often the key was
  -- rotated since, is read back as its claims before they expire, and refused as unauthenticated from
  -- then on.
  pub verify_token_with_rotation-sign_token :
      Laws c
      → (now : ℕ) (k key : Key) (claims : TokenClaims) (token : Text) (rks : List RetiredKey)
      → sign_token c k claims ≡ ok token
      → IsKept k key rks
      → verify_token_with_rotation c now key token rks
        ≡ (if leb claims.expires_at now then err unauthenticated else ok claims)
  verify_token_with_rotation-sign_token laws now k key claims token rks h kept =
      rotation_agree now k key token claims rks (opened-sign laws k claims token h) kept
