-- ===== src/Iam/Tokens.antt =====
-- The tokens of `LocalIdentityProvider` in crates/picloud-iam/src/implementation.rs: `sign_token`,
-- `verify_token` and `verify_token_with_rotation`. What ring, base64, serde_json and sha2 do is a
-- parameter, `Crypto`; its laws state what the code relies on. Times are in seconds.
pub mod Rotation
pub mod Signed
use picloud.Prelude.{
  ℕ, ◌≡◌, Bool, true, Option, none, some, List, [], ◌∷◌, ◌++◌, any, leb, if◌then◌else◌, false,
  nat_beq,
}
use picloud.Prelude.Texts.{Text, split_once}
use picloud.Domain.Error.{Result, ok, err, unauthenticated, internal, serialize_claims_failed}

pub record TokenClaims : Type 0 where
  pub identity_iri : Text
  pub product : Option Text
  pub roles : List Text
  pub issued_at : ℕ
  pub expires_at : ℕ
  pub aud : Option Text
  pub scopes : List Text
  pub permissions : List Text
  pub actor : Option Text

abbrev pub Bytes : Type 0
Bytes = List ℕ

-- `hmac::Key` is its key material.
abbrev pub Key : Type 0
Key = Bytes

pub record Crypto : Type 0 where
  pub hmac_sign : Key → Bytes → Bytes
  pub hmac_verify : Key → Bytes → Bytes → Bool
  -- `URL_SAFE_NO_PAD`
  pub encode : Bytes → Text
  pub decode : Text → Option Bytes
  -- `serde_json` at `TokenClaims`
  pub to_vec : TokenClaims → Option Bytes
  pub from_slice : Bytes → Option TokenClaims
  pub sha256 : Bytes → Bytes

-- The tag of a payload verifies, and nothing else does. base64 and JSON are read back as they were
-- written, and the alphabet of base64 has no dot.
pub record Laws (c : Crypto) : Type 0 where
  pub verify-sign : (k : Key) (p : Bytes) → c.hmac_verify k p (c.hmac_sign k p) ≡ true
  pub tag_of_verify :
      (k : Key) (p tag : Bytes) → c.hmac_verify k p tag ≡ true → tag ≡ c.hmac_sign k p
  pub decode-encode : (b : Bytes) → c.decode (c.encode b) ≡ some b
  pub encode_dotless : (b : Bytes) → any (λ x. nat_beq x b'.') (c.encode b) ≡ false
  pub from_slice-to_vec :
      (t : TokenClaims) (b : Bytes) → c.to_vec t ≡ some b → c.from_slice b ≡ some t

pub record RetiredKey : Type 0 where
  pub key : Key
  pub kid : Text
  pub retired_at : ℕ

module _ (c : Crypto) where
  abbrev pub token_of : Key → Option Bytes → Result Text
  token_of key none = err (internal serialize_claims_failed)
  token_of key (some json) =
      let payload = c.encode json in ok (payload ++ (b'.' ∷ c.encode (c.hmac_sign key payload)))

  unfoldable pub sign_token : Key → TokenClaims → Result Text
  sign_token key claims = token_of key (c.to_vec claims)

  abbrev pub check_expiry : ℕ → TokenClaims → Result TokenClaims
  check_expiry now claims = if leb claims.expires_at now then err unauthenticated else ok claims

  -- The claims of a payload.
  abbrev pub claims_of : Text → Option TokenClaims
  claims_of payload = elim (c.decode payload) [ none ↦ none | some json ↦ c.from_slice json ]

  unfoldable pub verify_token : ℕ → Key → Text → Result TokenClaims
  unfolding split_once
  verify_token now key token = elim (split_once b'.' token) [
    | none ↦ err unauthenticated
    | some (payload, signature) ↦ elim (c.decode signature) [
      | none ↦ err unauthenticated
      | some sig_bytes ↦
          if c.hmac_verify key payload sig_bytes
          then elim (claims_of payload) [
            | none ↦ err unauthenticated
            | some claims ↦ check_expiry now claims
          ]
          else err unauthenticated
    ]
  ]

  -- The loop over the retired keys, the newest first; `continue` goes to the rest.
  unfoldable pub try_retired : ℕ → Text → List RetiredKey → Result TokenClaims
  unfolding split_once
  try_retired now token [] = err unauthenticated
  try_retired now token (rk ∷ rks) =
      let rest = try_retired now token rks in
      elim (split_once b'.' token) [
        | none ↦ rest
        | some (payload, signature) ↦ elim (c.decode signature) [
          | none ↦ rest
          | some sig_bytes ↦
              if c.hmac_verify rk.key payload sig_bytes
              then elim (claims_of payload) [ none ↦ rest | some claims ↦ check_expiry now claims ]
              else rest
        ]
      ]

  abbrev pub or_retired : ℕ → Text → List RetiredKey → Result TokenClaims → Result TokenClaims
  or_retired now token retired_keys (ok claims) = ok claims
  or_retired now token [] (err e) = err e
  or_retired now token (rk ∷ rks) (err e) = try_retired now token (rk ∷ rks)

  -- The retired keys are given in the order of the loop, the newest first.
  unfoldable pub verify_token_with_rotation : ℕ → Key → Text → List RetiredKey → Result TokenClaims
  unfolding verify_token try_retired
  verify_token_with_rotation now key token retired_keys =
      or_retired now token retired_keys (verify_token now key token)
