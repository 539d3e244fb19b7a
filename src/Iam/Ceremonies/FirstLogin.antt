-- ===== src/Iam/Ceremonies/FirstLogin.antt =====
-- From a registration to a login with the passkey that it registered.
use picloud.Prelude.{
  ℕ, ◌+◌, ◌<◌, ◌≡◌, refl, ap, ◌∙◌, inl, inr, none, some, List, [], ◌∷◌, ◌++◌, find, arith, ==_iff,
  Bool-cases,
}
use picloud.Prelude.Equality.{nat_eq, list_eq}
use picloud.Prelude.HashMap
use picloud.Prelude.HashMap.{HashMap, get-insert_self}
use picloud.Prelude.Texts.{Text, codes}
use picloud.Domain.Error.{ok, invalid_public_key}
use picloud.Domain.Iri.{ResourceIri}
use picloud.Iam.Tokens.{Bytes, Crypto, TokenClaims, Key, sign_token, token_of}
use picloud.Iam.Provider.{
  LocalIdentityProvider, RegisteredPasskey, registration, authentication, PendingChallenge,
}
use picloud.Iam.Groups.{register_identity}
use picloud.Iam.Issuing.{issue_token}
use picloud.Iam.Signature.{AuthenticationResponse, P256, check_signature, required}
use picloud.Iam.Passkeys.{get_passkeys, store_passkey, passkeys_or_default}
use picloud.Iam.Ceremonies.{
  RegistrationResponse, take_challenge, has_credential, add_challenge, ensure_identity,
  register_passkey, finish_registration, verified, login, finish_authentication,
  complete_authentication, complete_registration, begin_authentication,
}

ensure_identity-same :
    (iri : ResourceIri) (p : LocalIdentityProvider)
    → ((ensure_identity iri p).passkeys ≡ p.passkeys)
      × ((ensure_identity iri p).challenge_ttl_secs ≡ p.challenge_ttl_secs)
unfolding register_identity
ensure_identity-same iri p = elim (Bool-cases (HashMap.contains_key p.identities iri)) [
  | inl e ↦ (ground (arith, e), ground (arith, e))
  | inr e ↦ (ground (arith, e), ground (arith, e))
]

module _ (c : Crypto) where
  find-last :
      (id : Text) (ks : List RegisteredPasskey) (pk : RegisteredPasskey)
      → find (has_credential c id) ks ≡ none
      → pk.credential_id ≡ id
      → find (has_credential c id) (ks ++ pk ∷ []) ≡ some pk
  find-last id [] pk h same = ground (arith, ==_iff pk.credential_id id, same)
  find-last id (k ∷ ks) pk h same = elim (Bool-cases (has_credential c id k)) [
    | inl e ↦ absurd (ground (arith, e, h))
    | inr e ↦ ground (arith, e, h, find-last id ks pk, same)
  ]

  -- The answer of a client without hardware: the tag of the challenge under its key.
  abbrev pub hmac_answer : Text → Bytes → Bytes → AuthenticationResponse
  hmac_answer credential_id key challenge = record {
    credential_id = credential_id;
    signature = c.encode (c.hmac_sign key challenge);
    signature_format = codes "hmac";
    authenticator_data = none;
    client_data_json = none;
  }

  signed :
      (json : TokenClaims → Bytes) (key : Key) (claims : TokenClaims)
      → ((t : TokenClaims) → c.to_vec t ≡ some (json t))
      → (token : Text) × (sign_token c key claims ≡ ok token)
  unfolding sign_token
  signed json key claims written =
      let payload = c.encode (json claims) in
      (payload ++ (b'.' ∷ c.encode (c.hmac_sign key payload)), ap (token_of c key) (written claims))

  abbrev passkey_of : ℕ → Bytes → RegistrationResponse → RegisteredPasskey
  passkey_of now key signup = record {
    credential_id = signup.credential_id;
    public_key = key;
    aaguid = signup.aaguid;
    registered_at = now;
    last_used_at = none;
    display_name = signup.display_name;
  }

  registered :
      (now : ℕ) (id : Text) (signup : RegistrationResponse) (p : LocalIdentityProvider)
      → (pending : PendingChallenge) (key : Bytes)
      → HashMap.get p.pending_challenges id ≡ some pending
      → pending.kind ≡ registration
      → now < pending.expires_at
      → c.decode signup.public_key ≡ some key
      → let q = (complete_registration c now id signup p).1 in
        (get_passkeys pending.identity_iri q
          ≡ get_passkeys pending.identity_iri p ++ passkey_of now key signup ∷ [])
        × (q.challenge_ttl_secs ≡ p.challenge_ttl_secs)
  unfolding complete_registration take_challenge get_passkeys store_passkey
  registered now id signup p pending key there kind early read =
      let iri = pending.identity_iri in
      let q = (complete_registration c now id signup p).1 in
      let s = store_passkey iri (passkey_of now key signup) (take_challenge id p) in
      let made : q ≡ ensure_identity iri s =
        ap (λ o. (finish_registration c now signup o (take_challenge id p)).1) there
        ∙ ground (arith, kind, early)
        ∙ ap
            (λ o.
              (register_passkey c now pending signup (required o invalid_public_key)
                (take_challenge id p)).1)
            read in
      let same = ensure_identity-same iri s in
      (
        ap (λ x. passkeys_or_default (HashMap.get x.passkeys iri)) made
            ∙ ap (λ m. passkeys_or_default (HashMap.get m iri)) same.0
            ∙ ap passkeys_or_default (get-insert_self p.passkeys iri _),
        ap (λ x. x.challenge_ttl_secs) made ∙ same.1,
      )

  begun :
      (now : ℕ) (id : Text) (bytes : Bytes) (iri : ResourceIri) (p : LocalIdentityProvider)
      → (ks : List RegisteredPasskey) (pk : RegisteredPasskey) → get_passkeys iri p ≡ ks ++ pk ∷ []
      → (begin_authentication c now id bytes iri p).1
        ≡ add_challenge now id bytes authentication iri p
  unfolding begin_authentication get_passkeys
  begun now id bytes iri p [] pk h = ground (arith, h)
  begun now id bytes iri p (k ∷ ks) pk h = ground (arith, h)

module _ (c : Crypto) (p256 : P256) where
  hmac_answer-passes :
      (credential_id : Text) (key challenge : Bytes)
      → check_signature c p256 key challenge (hmac_answer c credential_id key challenge) ≡ ok tt
  unfolding check_signature
  hmac_answer-passes credential_id key challenge =
      let text = c.encode (c.hmac_sign key challenge) in ground (arith, ==_iff text text)

  login_issues :
      (json : TokenClaims → Bytes) (now : ℕ) (pending : PendingChallenge)
      (response : AuthenticationResponse) (p : LocalIdentityProvider)
      → ((t : TokenClaims) → c.to_vec t ≡ some (json t))
      → (token : Text) × ((login c p256 now pending response (ok tt) p).0 ≡ ok token)
  unfolding issue_token
  login_issues json now pending response p written = signed c json _ _ written

  accepted :
      (json : TokenClaims → Bytes) (now : ℕ) (id : Text) (response : AuthenticationResponse)
      (p : LocalIdentityProvider) (pending : PendingChallenge) (pk : RegisteredPasskey)
      → ((t : TokenClaims) → c.to_vec t ≡ some (json t))
      → HashMap.get p.pending_challenges id ≡ some pending
      → pending.kind ≡ authentication
      → now < pending.expires_at
      → find (has_credential c response.credential_id) (get_passkeys pending.identity_iri p)
        ≡ some pk
      → check_signature c p256 pk.public_key pending.challenge_bytes response ≡ ok tt
      → (token : Text) × ((complete_authentication c p256 now id response p).0 ≡ ok token)
  unfolding complete_authentication take_challenge get_passkeys
  accepted json now id response p pending pk written there kind early found good =
      let q = take_challenge id p in
      let (token, issued) = login_issues json now pending response q written in
      (
        token,
        ap (λ o. (finish_authentication c p256 now response o q).0) there
            ∙ ground (arith, kind, early)
            ∙ ap (λ o. (login c p256 now pending response (verified c p256 o pending response) q).0)
                found
            ∙ ap (λ r. (login c p256 now pending response r q).0) good
            ∙ issued,
      )

  -- A passkey that was registered opens the account: after a registration that answers a pending
  -- challenge in time, with a readable key and a credential id that is new to the identity, a login
  -- that is begun later and answered before its challenge expires, with the tag of that challenge
  -- under the key, gives a token. Claims are taken to have a JSON text.
  pub login_after_registration :
      (json : TokenClaims → Bytes) (signed_up begun_at later : ℕ) (id login_id : Text)
      → (signup : RegistrationResponse) (challenge key : Bytes) (p : LocalIdentityProvider)
      → (pending : PendingChallenge) → ((t : TokenClaims) → c.to_vec t ≡ some (json t))
      → HashMap.get p.pending_challenges id ≡ some pending
      → pending.kind ≡ registration
      → signed_up < pending.expires_at
      → c.decode signup.public_key ≡ some key
      → find (has_credential c signup.credential_id) (get_passkeys pending.identity_iri p) ≡ none
      → later < begun_at + p.challenge_ttl_secs
      → let q = (complete_registration c signed_up id signup p).1 in
        let r = (begin_authentication c begun_at login_id challenge pending.identity_iri q).1 in
        (token : Text) × ((complete_authentication c p256 later login_id
            (hmac_answer c signup.credential_id key challenge)
            r).0
          ≡ ok token)
  unfolding get_passkeys
  login_after_registration json signed_up begun_at later id login_id signup challenge key p pending
        written there kind early read new in_time =
      let iri = pending.identity_iri in
      let q = (complete_registration c signed_up id signup p).1 in
      let pk = passkey_of c signed_up key signup in
      let (stored, ttl) = registered c signed_up id signup p pending key there kind early read in
      let r = add_challenge begun_at login_id challenge authentication iri q in
      let next : PendingChallenge = record {
        identity_iri = iri;
        challenge_bytes = challenge;
        kind = authentication;
        expires_at = begun_at + q.challenge_ttl_secs;
      } in
      let (token, done) =
        accepted json later login_id (hmac_answer c signup.credential_id key challenge) r next pk
          written (get-insert_self q.pending_challenges login_id next) refl
          (ground (arith, ttl, in_time))
          (ap (find (has_credential c signup.credential_id)) stored
            ∙ find-last c signup.credential_id (get_passkeys iri p) pk new refl)
          (hmac_answer-passes signup.credential_id key challenge) in
      (
        token,
        ap
              (λ x.
                (complete_authentication c p256 later login_id
                  (hmac_answer c signup.credential_id key challenge) x).0)
              (begun c begun_at login_id challenge iri q (get_passkeys iri p) pk stored)
            ∙ done,
      )
