-- ===== src/Iam/Signature.antt =====
-- The check of the signature in `complete_authentication` of crates/picloud-iam/src/implementation.rs.
-- ECDSA over P-256 and CBOR are parameters.
use picloud.Prelude.{
  ℕ, ◌≡◌, Bool, false, not, ◌&&◌, ◌||◌, Option, none, some, List, [], ◌∷◌, ◌++◌, length, take, drop,
  if◌then◌else◌, ◌==◌, ◌!=◌, nat_beq, ==_iff, arith,
}
use picloud.Prelude.Equality.{nat_eq, list_eq, option_eq}
use picloud.Prelude.Texts.{Text, codes}
use picloud.Domain.Error.{
  Result, ok, err, ◌>>=◌, Reason, passkey_challenge_failed, authenticator_data_required,
  invalid_client_data, invalid_signature_encoding, unsupported_public_key, wrong_key_type,
  missing_x, missing_y, coordinate_size, invalid_public_key, invalid_der_signature,
  signature_mismatch,
}
use picloud.Iam.Tokens.{Bytes, Crypto}

pub record AuthenticationResponse : Type 0 where
  pub credential_id : Text
  pub signature : Text
  pub signature_format : Text
  pub authenticator_data : Option Text
  pub client_data_json : Option Text

-- `ciborium::Value`, as far as the code looks at it: `nint n` is -(n + 1).
pub data Cbor : Type 0 where
  uint : ℕ → Cbor
  nint : ℕ → Cbor
  bytes : Bytes → Cbor
  other : Cbor

abbrev is_uint : ℕ → Cbor → Bool
is_uint n (uint m) = nat_beq m n
is_uint n _ = false

abbrev is_nint : ℕ → Cbor → Bool
is_nint n (nint m) = nat_beq m n
is_nint n _ = false

-- `from_reader` gives the entries of a map, if the bytes are one. A point and a DER signature may be
-- invalid.
pub record P256 : Type 0 where
  pub from_reader : Bytes → Option (List (Cbor × Cbor))
  pub is_point : Bytes → Bytes → Bool
  pub is_der : Bytes → Bool
  pub verify : Bytes → Bytes → Bytes → Bytes → Bool

abbrev pub failed {ℓ} : {A : Type ℓ} → Reason → Result A
failed reason = err (passkey_challenge_failed reason)

-- `find_map` for a key with bytes, and for the key type.
abbrev get_bytes : ℕ → List (Cbor × Cbor) → Option Bytes
get_bytes n [] = none
get_bytes n ((k, bytes b) ∷ entries) =
    let rest = get_bytes n entries in if is_nint n k then some b else rest
get_bytes n ((k, _) ∷ entries) = get_bytes n entries

-- `none` is a value that is not an integer.
abbrev key_type : List (Cbor × Cbor) → Option Cbor
key_type [] = none
key_type ((k, uint i) ∷ entries) =
    let rest = key_type entries in if is_uint 1 k then some (uint i) else rest
key_type ((k, nint i) ∷ entries) =
    let rest = key_type entries in if is_uint 1 k then some (nint i) else rest
key_type ((k, _) ∷ entries) = key_type entries

abbrev is_ec2 : Option Cbor → Bool
is_ec2 (some (uint i)) = nat_beq i 2
is_ec2 _ = false

abbrev pub required {ℓ} : {A : Type ℓ} → Option A → Reason → Result A
required none reason = failed reason
required (some a) reason = ok a

abbrev cose_key : Option (List (Cbor × Cbor)) → Result (Bytes × Bytes)
cose_key none = failed unsupported_public_key
cose_key (some entries) =
    if not (is_ec2 (key_type entries))
    then failed wrong_key_type
    else required (get_bytes 1 entries) missing_x >>= λ x.
        required (get_bytes 2 entries) missing_y >>= λ y.
        if length x != 32 || length y != 32 then failed coordinate_size else ok (x, y)

abbrev starts_uncompressed : Bytes → Bool
starts_uncompressed [] = false
starts_uncompressed (b ∷ bs) = nat_beq b 4

-- The coordinates of a stored key, in one of its three forms.
unfoldable coordinates : P256 → Bytes → Result (Bytes × Bytes)
coordinates p256 pk =
    if length pk == 65 && starts_uncompressed pk
    then ok (take 32 (drop 1 pk), take 32 (drop 33 pk))
    else if length pk == 64
    then ok (take 32 pk, take 32 (drop 32 pk))
    else cose_key (p256.from_reader pk)

module _ (c : Crypto) (p256 : P256) where
  abbrev decoded : Text → Reason → Result Bytes
  decoded t reason = required (c.decode t) reason

  abbrev authenticator_bytes : Option Text → Result Bytes
  authenticator_bytes none = failed authenticator_data_required
  authenticator_bytes (some t) = decoded t authenticator_data_required

  -- The hash of the client's data, or of the challenge where the client sends none.
  abbrev client_data_hash : Bytes → Option Text → Result Bytes
  client_data_hash challenge (some cdj) = do
    cdj_bytes ← decoded cdj invalid_client_data
    ok (c.sha256 cdj_bytes)
  client_data_hash challenge none = ok (c.sha256 challenge)

  abbrev ecdsa : Bytes × Bytes → Bytes → Bytes → Result (Unit {0})
  ecdsa (x, y) message signature =
      if not (p256.is_point x y)
      then failed invalid_public_key
      else if not (p256.is_der signature)
      then failed invalid_der_signature
      else if p256.verify x y message signature
      then ok tt
      else failed signature_mismatch

  abbrev check_webauthn : Bytes → Bytes → AuthenticationResponse → Result (Unit {0})
  check_webauthn public_key challenge response = do
    auth_data ← authenticator_bytes response.authenticator_data
    hash ← client_data_hash challenge response.client_data_json
    signature ← decoded response.signature invalid_signature_encoding
    point ← coordinates p256 public_key
    ecdsa point (auth_data ++ hash) signature

  unfoldable pub check_signature : Bytes → Bytes → AuthenticationResponse → Result (Unit {0})
  unfolding coordinates
  check_signature public_key challenge response =
      if response.signature_format == codes "webauthn"
      then check_webauthn public_key challenge response
      else if response.signature != c.encode (c.hmac_sign public_key challenge)
      then failed signature_mismatch
      else ok tt

  -- A WebAuthn answer that carries client data is judged without the challenge: what passes for one
  -- challenge passes for every other, so a recorded answer can be used again.
  pub check_signature_replay :
      (public_key challenge other_challenge : Bytes) (response : AuthenticationResponse)
      → (cdj : Text) → response.signature_format ≡ codes "webauthn"
      → response.client_data_json ≡ some cdj
      → check_signature public_key challenge response
        ≡ check_signature public_key other_challenge response
  unfolding check_signature
  check_signature_replay public_key challenge other_challenge response cdj f h =
      ground (arith, h, ==_iff response.signature_format (codes "webauthn"))
