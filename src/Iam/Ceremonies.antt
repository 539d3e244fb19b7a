-- ===== src/Iam/Ceremonies.antt =====
-- The ceremonies of passkeys in `LocalIdentityProvider` of crates/picloud-iam/src/implementation.rs:
-- registration and authentication. Fresh ids and random bytes are arguments; a call reads one time.
pub mod Challenges
pub mod Logins
pub mod FirstLogin
use picloud.Prelude.{
  ℕ, ◌+◌, ◌*◌, ◌≡◌, refl, Bool, true, false, not, Option, none, some, List, [], ◌∷◌, ◌++◌, length,
  ltb, leb, if◌then◌else◌, ◌==◌, ◌!=◌, retain, find, map,
}
use picloud.Prelude.Equality.{nat_eq, list_eq}
use picloud.Prelude.HashMap
use picloud.Prelude.HashMap.{HashMap}
use picloud.Prelude.Texts.{Text, codes, last_piece}
use picloud.Domain.Error.{
  Result, ok, err, ◌>>=◌, PiCloudError, unauthorized, passkey_challenge_failed, unknown_challenge,
  wrong_challenge_kind, challenge_expired, invalid_public_key, no_passkeys, unknown_credential,
  invalid_enrollment_token, enrollment_token_spent,
}
use picloud.Domain.Iri.{ResourceIri, IriBuilder, resource}
use picloud.Iam.Tokens.{Bytes, Crypto}
use picloud.Iam.Provider.{
  LocalIdentityProvider, RegisteredPasskey, ChallengeKind, registration, authentication,
  PendingChallenge, EnrollmentToken, EnrollmentPurpose, passkey_reset, is_valid,
}
use picloud.Iam.Issuing.{issue_token}
use picloud.Iam.Groups.{register_identity}
use picloud.Iam.Signature.{AuthenticationResponse, P256, check_signature, failed, required}
use picloud.Iam.Passkeys.{get_passkeys, store_passkey}

pub record RegistrationChallenge : Type 0 where
  pub challenge : Text
  pub rp_id : Text
  pub rp_name : Text
  pub user_id : Text
  pub user_name : Text
  pub timeout_ms : ℕ

pub record RegistrationResponse : Type 0 where
  pub credential_id : Text
  pub public_key : Text
  pub aaguid : Option Text
  pub display_name : Option Text

pub record AuthenticationChallenge : Type 0 where
  pub challenge : Text
  pub rp_id : Text
  pub allow_credentials : List Text
  pub timeout_ms : ℕ

abbrev pub is_registration : ChallengeKind → Bool
is_registration registration = true
is_registration authentication = false

abbrev pub add_challenge :
    ℕ → Text → Bytes → ChallengeKind → ResourceIri → LocalIdentityProvider → LocalIdentityProvider
add_challenge now challenge_id challenge_bytes kind iri p =
    let pending : PendingChallenge = record {
      identity_iri = iri;
      challenge_bytes = challenge_bytes;
      kind = kind;
      expires_at = now + p.challenge_ttl_secs;
    } in
    record p { pending_challenges = HashMap.insert p.pending_challenges challenge_id pending }

-- What a ceremony does first: the challenge is removed.
unfoldable pub take_challenge : Text → LocalIdentityProvider → LocalIdentityProvider
take_challenge challenge_id p = record p {
  pending_challenges = HashMap.remove p.pending_challenges challenge_id;
}

abbrev pub ensure_identity : ResourceIri → LocalIdentityProvider → LocalIdentityProvider
ensure_identity iri p =
    if HashMap.contains_key p.identities iri then p else register_identity iri [] p

module _ (c : Crypto) where
  unfoldable pub begin_registration :
      ℕ
      → Text
      → Bytes
      → ResourceIri
      → LocalIdentityProvider
      → (Text × RegistrationChallenge) × LocalIdentityProvider
  unfolding last_piece
  begin_registration now challenge_id challenge_bytes iri p = (
    (
      challenge_id,
      record {
        challenge = c.encode challenge_bytes;
        rp_id = p.cluster_domain;
        rp_name = codes "PiCloud";
        user_id = c.encode iri;
        user_name = last_piece b'/' iri;
        timeout_ms = p.challenge_ttl_secs * 1000;
      },
    ),
    add_challenge now challenge_id challenge_bytes registration iri p,
  )

  abbrev pub register_passkey :
      ℕ
      → PendingChallenge
      → RegistrationResponse
      → Result Bytes
      → LocalIdentityProvider
      → Result RegisteredPasskey × LocalIdentityProvider
  register_passkey now pending response (err e) p = (err e, p)
  register_passkey now pending response (ok public_key_bytes) p =
      let passkey : RegisteredPasskey = record {
        credential_id = response.credential_id;
        public_key = public_key_bytes;
        aaguid = response.aaguid;
        registered_at = now;
        last_used_at = none;
        display_name = response.display_name;
      } in
      (
        ok passkey,
        ensure_identity pending.identity_iri (store_passkey pending.identity_iri passkey p),
      )

  abbrev pub finish_registration :
      ℕ
      → RegistrationResponse
      → Option PendingChallenge
      → LocalIdentityProvider
      → Result RegisteredPasskey × LocalIdentityProvider
  finish_registration now response none p = (failed unknown_challenge, p)
  finish_registration now response (some pending) p =
      if not (is_registration pending.kind)
      then (failed wrong_challenge_kind, p)
      else if leb pending.expires_at now
      then (failed challenge_expired, p)
      else register_passkey now pending response
          (required (c.decode response.public_key) invalid_public_key) p

  unfoldable pub complete_registration :
      ℕ
      → Text
      → RegistrationResponse
      → LocalIdentityProvider
      → Result RegisteredPasskey × LocalIdentityProvider
  unfolding take_challenge store_passkey register_identity
  complete_registration now challenge_id response p =
      finish_registration now response (HashMap.get p.pending_challenges challenge_id)
        (take_challenge challenge_id p)

  unfoldable pub begin_authentication :
      ℕ
      → Text
      → Bytes
      → ResourceIri
      → LocalIdentityProvider
      → Result (Text × AuthenticationChallenge) × LocalIdentityProvider
  unfolding get_passkeys
  begin_authentication now challenge_id challenge_bytes iri p = elim (get_passkeys iri p) [
    | [] ↦ (failed no_passkeys, p)
    | k ∷ ks ↦ (
      ok (
        challenge_id,
        record {
          challenge = c.encode challenge_bytes;
          rp_id = p.cluster_domain;
          allow_credentials = map (λ (pk : RegisteredPasskey). pk.credential_id) (k ∷ ks);
          timeout_ms = p.challenge_ttl_secs * 1000;
        },
      ),
      add_challenge now challenge_id challenge_bytes authentication iri p,
    )
  ]

  abbrev pub has_credential : Text → RegisteredPasskey → Bool
  has_credential credential_id pk = pk.credential_id == credential_id

  -- `find` on `iter_mut`: the first passkey of the id is stamped.
  abbrev stamp : ℕ → Text → List RegisteredPasskey → List RegisteredPasskey
  stamp now credential_id [] = []
  stamp now credential_id (k ∷ ks) =
      let rest = stamp now credential_id ks in
      if has_credential credential_id k then record k { last_used_at = some now } ∷ ks else k ∷ rest

  abbrev pub update_last_used :
      ℕ
      → Text
      → ResourceIri
      → Option (List RegisteredPasskey)
      → LocalIdentityProvider
      → LocalIdentityProvider
  update_last_used now credential_id iri none p = p
  update_last_used now credential_id iri (some ks) p = record p {
    passkeys = HashMap.insert p.passkeys iri (stamp now credential_id ks);
  }

  module _ (p256 : P256) where
    abbrev pub verified :
        Option RegisteredPasskey → PendingChallenge → AuthenticationResponse → Result (Unit {0})
    verified none pending response = failed unknown_credential
    verified (some pk) pending response =
        check_signature c p256 pk.public_key pending.challenge_bytes response

    abbrev pub login :
        ℕ
        → PendingChallenge
        → AuthenticationResponse
        → Result (Unit {0})
        → LocalIdentityProvider
        → Result Text × LocalIdentityProvider
    login now pending response (err e) p = (err e, p)
    login now pending response (ok u) p =
        let q =
          update_last_used now response.credential_id pending.identity_iri
            (HashMap.get p.passkeys pending.identity_iri) p in
        (issue_token c now pending.identity_iri none q, q)

    abbrev pub finish_authentication :
        ℕ
        → AuthenticationResponse
        → Option PendingChallenge
        → LocalIdentityProvider
        → Result Text × LocalIdentityProvider
    finish_authentication now response none p = (failed unknown_challenge, p)
    finish_authentication now response (some pending) p =
        if is_registration pending.kind
        then (failed wrong_challenge_kind, p)
        else if leb pending.expires_at now
        then (failed challenge_expired, p)
        else login now pending response
            (verified
              (find (has_credential response.credential_id) (get_passkeys pending.identity_iri p))
              pending response)
            p

    unfoldable pub complete_authentication :
        ℕ
        → Text
        → AuthenticationResponse
        → LocalIdentityProvider
        → Result Text × LocalIdentityProvider
    unfolding take_challenge get_passkeys check_signature issue_token
    complete_authentication now challenge_id response p =
        finish_authentication now response (HashMap.get p.pending_challenges challenge_id)
          (take_challenge challenge_id p)
