-- ===== src/Iam/Passkeys.antt =====
-- The passkeys of an identity in `LocalIdentityProvider` of crates/picloud-iam/src/implementation.rs:
-- reading, storing and removing them.
pub mod Minimum
use picloud.Prelude.{
  ℕ, ◌+◌, ◌*◌, ◌≡◌, refl, Bool, true, false, not, Option, none, some, List, [], ◌∷◌, ◌++◌, length,
  ltb, leb, if◌then◌else◌, ◌==◌, ◌!=◌, retain, find, map,
}
use picloud.Prelude.Equality.{nat_eq, list_eq}
use picloud.Prelude.HashMap
use picloud.Prelude.HashMap.{HashMap}
use picloud.Prelude.Texts.{Text, codes, last_piece}
use picloud.Domain.Error.{
  Result, ok, err, ◌>>=◌, PiCloudError, unauthorized, passkey_challenge_failed, unknown_challenge,
  wrong_challenge_kind, challenge_expired, invalid_public_key, no_passkeys, unknown_credential,
  invalid_enrollment_token, enrollment_token_spent,
}
use picloud.Domain.Iri.{ResourceIri, IriBuilder, resource}
use picloud.Iam.Tokens.{Bytes, Crypto}
use picloud.Iam.Provider.{
  LocalIdentityProvider, RegisteredPasskey, ChallengeKind, registration, authentication,
  PendingChallenge, EnrollmentToken, EnrollmentPurpose, passkey_reset, is_valid,
}
use picloud.Iam.Issuing.{issue_token}
use picloud.Iam.Groups.{register_identity}
use picloud.Iam.Signature.{AuthenticationResponse, P256, check_signature, failed, required}

abbrev pub passkeys_or_default : Option (List RegisteredPasskey) → List RegisteredPasskey
passkeys_or_default none = []
passkeys_or_default (some ks) = ks

unfoldable pub get_passkeys : ResourceIri → LocalIdentityProvider → List RegisteredPasskey
get_passkeys iri p = passkeys_or_default (HashMap.get p.passkeys iri)

unfoldable pub store_passkey :
    ResourceIri → RegisteredPasskey → LocalIdentityProvider → LocalIdentityProvider
unfolding get_passkeys
store_passkey iri passkey p = record p {
  passkeys = HashMap.insert p.passkeys iri (get_passkeys iri p ++ passkey ∷ []);
}

unfoldable revoke_all_passkeys : ResourceIri → LocalIdentityProvider → LocalIdentityProvider
revoke_all_passkeys iri p = record p { passkeys = HashMap.remove p.passkeys iri }

unfoldable has_minimum_passkeys : ResourceIri → LocalIdentityProvider → Bool
unfolding get_passkeys
has_minimum_passkeys iri p = leb 2 (length (get_passkeys iri p))

-- The count, and whether there is a warning.
unfoldable passkey_status : ResourceIri → LocalIdentityProvider → ℕ × Bool
unfolding get_passkeys
passkey_status iri p = let count = length (get_passkeys iri p) in (count, ltb count 2)

unfoldable pub remove_passkey :
    ResourceIri → Text → LocalIdentityProvider → Result (Unit {0}) × LocalIdentityProvider
unfolding get_passkeys
remove_passkey iri credential_id p =
    let passkeys = get_passkeys iri p in
    let kept = retain (λ (pk : RegisteredPasskey). pk.credential_id != credential_id) passkeys in
    if leb (length passkeys) 2
    then (err (unauthorized iri (codes "remove_passkey")), p)
    else (ok tt, record p { passkeys = HashMap.insert p.passkeys iri kept })
