-- ===== src/Iam/Tests.antt =====
-- Runs of the identity provider at concrete keys, groups, passkeys and clients.
use picloud.Prelude.{
  ◌<◌, ◌≡◌, ◌≢◌, refl, true, ◌||◌, none, some, [], ◌∷◌, ◌++◌, leb, if◌then◌else◌, ◌==◌, contains,
  any, find, length, replicate, arith, ◌≤◌,
}
use picloud.Prelude.Equality.{nat_eq, list_eq}
use picloud.Prelude.HashMap
use picloud.Prelude.HashMap.{values}
use picloud.Prelude.Texts.{Text, codes}
use picloud.Domain.Error.{Result, ok, err, unauthenticated, unauthorized}
use picloud.Domain.Iri.{ResourceIri}
use picloud.Iam.Tokens.{Key, TokenClaims, sign_token, claims_of, verify_token_with_rotation}
use picloud.Iam.Tokens.Rotation.{IsKept}
use picloud.Iam.Tokens.Signed.{verify_token_with_rotation_signed}
use picloud.Iam.Provider.{
  LocalIdentityProvider, StoredGroup, RegisteredPasskey, PendingChallenge, authentication, with_ttl,
  with_rotated_key,
}
use picloud.Iam.Issuing.{issue_token, validate_token, token_exchange, ValidatedIdentity}
use picloud.Iam.Groups.{token_roles, direct_roles, revoke_group_role, remove_group_member}
use picloud.Iam.Groups.Roles.{gives, token_roles-revoked}
use picloud.Iam.Signature.{P256, AuthenticationResponse, check_signature, check_signature_replay}
use picloud.Iam.Passkeys.{get_passkeys, remove_passkey}
use picloud.Iam.Ceremonies.{
  has_credential, complete_authentication, complete_registration, RegistrationResponse,
}
use picloud.Iam.Ceremonies.Logins.{complete_authentication_ok}
use picloud.Iam.Ceremonies.Challenges.{challenge_once, Refuses}
use picloud.Iam.Passkeys.Minimum.{remove_passkey_minimum}
use picloud.Iam.Issuing.Sessions.{validate_token-issue_token, token_exchange-rotated, rotate_all}
use picloud.Iam.Samples.{crypto, crypto-Laws}

abbrev alice : ResourceIri
alice = codes "https://pi/identities/alice"

abbrev any_iri : Text → Result ResourceIri
any_iri t = ok t

abbrev editors : StoredGroup
editors = record {
  iri = codes "g";
  name = codes "editors";
  description = none;
  roles = codes "editor" ∷ [];
  members = alice ∷ [];
}

abbrev provider : LocalIdentityProvider
provider = record (with_ttl (5 ∷ []) (codes "pi") 3600) { groups = (codes "g", editors) ∷ [] }

abbrev token_text : Text
token_text = elim (issue_token crypto 10 alice none provider) [ ok t ↦ t | err e ↦ [] ]

-- After two rotations, and without the group that gave the role.
abbrev forgetful : LocalIdentityProvider
forgetful = record (rotate_all ((12, 6 ∷ []) ∷ (15, 7 ∷ []) ∷ []) provider) { groups = [] }

validate_example :
    validate_token crypto any_iri 20 token_text forgetful
    ≡ ok (record {
      identity_iri = alice;
      product = none;
      roles = token_roles alice provider;
      audience = none;
      scopes = [];
      permissions = [];
    })
unfolding issue_token with_ttl sign_token
validate_example =
    validate_token-issue_token crypto crypto-Laws any_iri 10 20 alice none token_text
      ((12, 6 ∷ []) ∷ (15, 7 ∷ []) ∷ []) provider forgetful refl refl refl refl

abbrev claims : TokenClaims
claims = record {
  identity_iri = alice;
  product = none;
  roles = codes "editor" ∷ [];
  issued_at = 10;
  expires_at = 3610;
  aud = none;
  scopes = [];
  permissions = [];
  actor = none;
}

verify_example :
    (k : Key) × IsKept k (5 ∷ []) []
    × ((payload : Text) × (signature : Text) × (token_text ≡ payload ++ b'.' ∷ signature)
        × (crypto.decode signature ≡ some (crypto.hmac_sign k payload))
        × (claims_of crypto payload ≡ some claims))
    × (20 < 3610)
unfolding issue_token with_ttl sign_token verify_token_with_rotation HashMap.get
verify_example =
    verify_token_with_rotation_signed crypto crypto-Laws 20 (5 ∷ []) token_text claims [] refl

token_exchange_example :
    let q = with_rotated_key 12 (6 ∷ []) provider in
    (token_exchange crypto 20 token_text none none q ≡ err unauthenticated)
    × ((v : ValidatedIdentity) × (validate_token crypto any_iri 20 token_text q ≡ ok v)
        × (v.identity_iri ≡ alice))
unfolding issue_token with_ttl sign_token
token_exchange_example =
    token_exchange-rotated crypto crypto-Laws any_iri 10 12 20 alice none token_text (6 ∷ []) none
      none provider refl refl (omega arith) (λ payload h. absurd (cc))

token_roles_example :
    ((revoke_group_role (codes "g") (codes "editor") provider).0 ≡ ok tt
      → contains
          (token_roles alice (revoke_group_role (codes "g") (codes "editor") provider).1)
          (codes "editor")
        ≡ (contains (direct_roles alice provider) (codes "editor")
            || any
                (gives alice (codes "editor"))
                (values (HashMap.remove provider.groups (codes "g")))))
    × ((remove_group_member (codes "g") alice provider).0 ≡ ok tt
        → contains
            (token_roles alice (remove_group_member (codes "g") alice provider).1)
            (codes "editor")
          ≡ (contains (direct_roles alice provider) (codes "editor")
              || any
                  (gives alice (codes "editor"))
                  (values (HashMap.remove provider.groups (codes "g")))))
unfolding with_ttl HashMap.contains_key
token_roles_example = token_roles-revoked (codes "g") alice (codes "editor") provider (refl, tt)

abbrev curve : P256
curve = record {
  from_reader = λ b. none;
  is_point = λ x y. true;
  is_der = λ b. true;
  verify = λ x y message signature. message == signature;
}

abbrev answer : AuthenticationResponse
answer = record {
  credential_id = codes "k1";
  signature = crypto.encode (1 ∷ 7 ∷ 2 ∷ []);
  signature_format = codes "webauthn";
  authenticator_data = some (crypto.encode (1 ∷ []));
  client_data_json = some (crypto.encode (2 ∷ []));
}

check_signature_example :
    check_signature crypto curve (replicate 64 9) (1 ∷ []) answer
    ≡ check_signature crypto curve (replicate 64 9) (2 ∷ []) answer
check_signature_example =
    check_signature_replay crypto curve (replicate 64 9) (1 ∷ []) (2 ∷ []) answer
      (crypto.encode (2 ∷ [])) refl refl

abbrev passkey : Text → RegisteredPasskey
passkey id = record {
  credential_id = id;
  public_key = replicate 64 9;
  aaguid = none;
  registered_at = 1;
  last_used_at = none;
  display_name = none;
}

abbrev challenge : PendingChallenge
challenge = record {
  identity_iri = alice;
  challenge_bytes = 3 ∷ [];
  kind = authentication;
  expires_at = 300;
}

abbrev enrolled : LocalIdentityProvider
enrolled = record provider {
  passkeys = (alice, passkey (codes "k1") ∷ passkey (codes "k2") ∷ passkey (codes "k3") ∷ []) ∷ [];
  pending_challenges = (codes "c", challenge) ∷ [];
}

abbrev login_text : Text
login_text = elim ((complete_authentication crypto curve 10 (codes "c") answer enrolled).0) [
  | ok t ↦ t
  | err e ↦ []
]

complete_authentication_example :
    (pending : PendingChallenge) × (HashMap.get enrolled.pending_challenges (codes "c")
      ≡ some pending)
    × (pending.kind ≡ authentication)
    × (10 < pending.expires_at)
    × ((pk : RegisteredPasskey) × (find
            (has_credential crypto (codes "k1"))
            (get_passkeys pending.identity_iri enrolled)
          ≡ some pk)
        × (check_signature crypto curve pk.public_key pending.challenge_bytes answer ≡ ok tt))
    × (issue_token crypto 10 pending.identity_iri none
          (complete_authentication crypto curve 10 (codes "c") answer enrolled).1
        ≡ ok login_text)
unfolding complete_authentication with_ttl sign_token issue_token HashMap.get
complete_authentication_example =
    complete_authentication_ok crypto curve 10 (codes "c") answer enrolled login_text refl

abbrev signup : RegistrationResponse
signup = record {
  credential_id = codes "k4";
  public_key = crypto.encode (replicate 64 8);
  aaguid = none;
  display_name = none;
}

challenge_example :
    let q = (complete_authentication crypto curve 10 (codes "c") answer enrolled).1 in
    let s = (complete_registration crypto 10 (codes "c") signup enrolled).1 in
    Refuses crypto curve (codes "c") q
    × Refuses crypto curve (codes "c") s
    × ((j : Text)
        → codes "c" ≢ j
        → (HashMap.get q.pending_challenges j ≡ HashMap.get enrolled.pending_challenges j)
          × (HashMap.get s.pending_challenges j ≡ HashMap.get enrolled.pending_challenges j))
challenge_example = challenge_once crypto curve 10 (codes "c") answer signup enrolled

remove_passkey_example :
    ((remove_passkey alice (codes "k2") enrolled).0 ≡ (
      if leb (length (get_passkeys alice enrolled)) 2
      then err (unauthorized alice (codes "remove_passkey"))
      else ok tt))
    × (2 ≤ length (get_passkeys alice enrolled)
        → 2 ≤ length (get_passkeys alice (remove_passkey alice (codes "k2") enrolled).1))
unfolding get_passkeys HashMap.get
remove_passkey_example =
    remove_passkey_minimum alice (codes "k2") enrolled (refl, (refl, (refl, tt)))
