-- ===== src/Iam/Provider.antt =====
-- The state of `LocalIdentityProvider` in crates/picloud-iam/src/implementation.rs, with the records
-- of crates/picloud-domain/src/identity.rs that it keeps. Times and durations are in seconds, as
-- natural numbers. `with_rotated_key` shares the maps of the old provider, so its value here is the
-- provider at the moment of the rotation.
use picloud.Prelude.{
  ℕ, zero, suc, ◌+◌, ◌-◌, ◌*◌, ◌/◌, ◌%◌, ◌^◌, Bool, not, ◌&&◌, Option, none, some, List, [], ◌∷◌,
  ◌++◌, ltb, leb, if◌then◌else◌, nat_beq,
}
use picloud.Prelude.Equality.{nat_eq}
use picloud.Prelude.HashMap.{HashMap}
use picloud.Prelude.Texts.{Text, codes, strip_prefix, is_empty}
use picloud.Domain.Events.{Uuid}
use picloud.Domain.Iri.{ResourceIri}
use picloud.Iam.Tokens.{Bytes, Key, RetiredKey}

pub record StoredIdentity : Type 0 where
  pub iri : ResourceIri
  pub roles : List Text

pub record AppRegistration : Type 0 where
  pub id : Uuid
  pub client_id : Text
  pub client_secret_hash : Text
  pub product_iri : ResourceIri
  pub redirect_uris : List Text
  pub scopes : List Text

pub record StoredAppRegistration : Type 0 where
  pub registration : AppRegistration
  pub product_name : Text

pub record RegisteredPasskey : Type 0 where
  pub credential_id : Text
  pub public_key : Bytes
  pub aaguid : Option Text
  pub registered_at : ℕ
  pub last_used_at : Option ℕ
  pub display_name : Option Text

pub data ChallengeKind : Type 0 where
  registration authentication : ChallengeKind

pub record PendingChallenge : Type 0 where
  pub identity_iri : ResourceIri
  pub challenge_bytes : Bytes
  pub kind : ChallengeKind
  pub expires_at : ℕ

pub record PendingDeviceFlow : Type 0 where
  pub expires_at : ℕ
  pub completed_token : Option Text
  pub identity_iri : Option ResourceIri

pub data EnrollmentPurpose : Type 0 where
  bootstrap passkey_reset physical_recovery : EnrollmentPurpose

pub record EnrollmentToken : Type 0 where
  pub token : Text
  pub purpose : EnrollmentPurpose
  pub expires_at : ℕ
  pub used : Bool
  pub target_identity : Option ResourceIri

unfoldable pub is_valid : ℕ → EnrollmentToken → Bool
is_valid now t = not t.used && ltb now t.expires_at

pub record M2mPermission : Type 0 where
  pub name : Text
  pub product : Text
  pub client : Text
  pub scopes : List Text
  pub description : Option Text

pub record StoredGroup : Type 0 where
  pub iri : ResourceIri
  pub name : Text
  pub description : Option Text
  pub roles : List Text
  pub members : List Text

pub record PendingAuthorizationCode : Type 0 where
  pub identity_iri : ResourceIri
  pub client_id : Text
  pub redirect_uri : Text
  pub scopes : List Text
  pub expires_at : ℕ

-- The retired keys stand with the newest first, the order in which they are tried.
pub record LocalIdentityProvider : Type 0 where
  pub signing_key : Key
  pub key_id : Text
  pub retired_keys : List RetiredKey
  pub identities : HashMap Text StoredIdentity
  pub app_registrations : HashMap Text StoredAppRegistration
  pub passkeys : HashMap Text (List RegisteredPasskey)
  pub pending_challenges : HashMap Text PendingChallenge
  pub pending_device_flows : HashMap Text PendingDeviceFlow
  pub enrollment_tokens : HashMap Text EnrollmentToken
  pub m2m_permissions : HashMap Text M2mPermission
  pub pending_auth_codes : HashMap Text PendingAuthorizationCode
  pub cluster_domain : Text
  pub token_ttl_secs : ℕ
  pub challenge_ttl_secs : ℕ
  pub groups : HashMap Text StoredGroup

-- `with_ttl`; `new` is it at 3600 seconds.
unfoldable pub with_ttl : Bytes → Text → ℕ → LocalIdentityProvider
with_ttl key_material domain token_ttl_secs = record {
  signing_key = key_material;
  key_id = codes "picloud-hmac-1";
  retired_keys = [];
  identities = [];
  app_registrations = [];
  passkeys = [];
  pending_challenges = [];
  pending_device_flows = [];
  enrollment_tokens = [];
  m2m_permissions = [];
  pending_auth_codes = [];
  cluster_domain = domain;
  token_ttl_secs = token_ttl_secs;
  challenge_ttl_secs = 300;
  groups = [];
}

unfoldable pub new : Bytes → Text → LocalIdentityProvider
unfolding with_ttl
new key_material domain = with_ttl key_material domain 3600

-- `str::parse::<u32>`: an optional plus sign and digits, within 32 bits.
abbrev pub parse_digits : ℕ → Text → Option ℕ
parse_digits n [] = some n
parse_digits n (c ∷ s) =
    let m = n * 10 + (c - b'0') in
    let rest = parse_digits m s in if leb b'0' c && leb c b'9' && ltb m (2 ^ 32) then rest else none

unfoldable parse_u32 : Text → Option ℕ
parse_u32 [] = none
parse_u32 (c ∷ s) =
    if not (nat_beq c b'+')
    then parse_digits 0 (c ∷ s)
    else if is_empty s
    then none
    else parse_digits 0 s

-- The decimal digits of a number below `10 ^ fuel`.
unfoldable to_decimal : ℕ → ℕ → Text → Text
to_decimal zero n acc = acc
to_decimal (suc fuel) n acc =
    let digits : Text = (b'0' + n % 10) ∷ acc in
    let more = to_decimal fuel (n / 10) digits in if ltb n 10 then digits else more

abbrev kid_prefix : Text
kid_prefix = codes "picloud-hmac-"

abbrev or_one : Option ℕ → ℕ
or_one none = 1
or_one (some n) = n

-- The generation of a key id, and the id of the next one; a `u32` has at most ten digits.
unfoldable next_kid : Text → Text
unfolding strip_prefix parse_u32 to_decimal
next_kid old_kid =
    let key_gen =
      or_one (elim (strip_prefix old_kid kid_prefix) [ none ↦ none | some s ↦ parse_u32 s ]) in
    kid_prefix ++ to_decimal 10 (key_gen + 1) []

abbrev retire : ℕ → LocalIdentityProvider → RetiredKey
retire now p = record { key = p.signing_key; kid = p.key_id; retired_at = now }

-- The old key is kept twice, and stays the current one.
unfoldable rotate_signing_key : ℕ → Bytes → LocalIdentityProvider → LocalIdentityProvider
rotate_signing_key now new_key_material p = record p {
  retired_keys = retire now p ∷ p.retired_keys;
}

unfoldable pub with_rotated_key : ℕ → Bytes → LocalIdentityProvider → LocalIdentityProvider
unfolding next_kid
with_rotated_key now new_key_material p = record p {
  signing_key = new_key_material;
  key_id = next_kid p.key_id;
  retired_keys = retire now p ∷ p.retired_keys;
}
