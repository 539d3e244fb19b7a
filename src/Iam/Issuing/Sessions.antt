-- ===== src/Iam/Issuing/Sessions.antt =====
-- Issued tokens under later rotations of the signing key.
use picloud.Prelude.{
  subst, ℕ, ◌+◌, ◌<◌, ◌≡◌, ◌≢◌, refl, sym, ap, ◌∙◌, inl, inr, Option, none, List, [], ◌∷◌, ◌++◌,
  leb, if◌then◌else◌, arith, ==_iff, Bool-cases, Option-cases,
}
use picloud.Prelude.Equality.{nat_eq, list_eq}
use picloud.Prelude.Texts.{Text, split_once, split_once-append}
use picloud.Domain.Error.{Result, ok, err, unauthenticated}
use picloud.Domain.Iri.{ResourceIri}
use picloud.Iam.Tokens.{Crypto, Laws, Key, Bytes, TokenClaims, sign_token}
use picloud.Iam.Tokens.Rotation.{
  IsKept, opened_with, opened, checked, verify_token_lem, verify_token_with_rotation-sign_token,
}
use picloud.Iam.Provider.{LocalIdentityProvider, with_rotated_key}
use picloud.Iam.Issuing.{
  issue_token, validate_token, token_exchange, ValidatedIdentity, map_option, product_audience,
}
use picloud.Iam.Groups.{token_roles}

-- Rotations of the key after one another, each at a time and to a key.
abbrev pub rotate_all : List (ℕ × Bytes) → LocalIdentityProvider → LocalIdentityProvider
rotate_all [] p = p
rotate_all ((now, key) ∷ rs) p = rotate_all rs (with_rotated_key now key p)

IsKept-after :
    (rs : List (ℕ × Bytes)) (k : Key) (p : LocalIdentityProvider)
    → IsKept k p.signing_key p.retired_keys
    → IsKept k (rotate_all rs p).signing_key (rotate_all rs p).retired_keys
unfolding with_rotated_key
IsKept-after [] k p h = h
IsKept-after ((now, key) ∷ rs) k p (inl same) =
    IsKept-after rs k (with_rotated_key now key p)
      (inr (ground (arith, ==_iff p.signing_key k, same)))
IsKept-after ((now, key) ∷ rs) k p (inr old) =
    IsKept-after rs k (with_rotated_key now key p) (inr (ground (arith, old)))

module _ (c : Crypto) (laws : Laws c) (new_iri : Text → Result ResourceIri) where
  -- A token that was issued is read back, by any provider that has the keys of this one after some
  -- rotations, whatever its identities, groups and settings are by then, as the identity with the
  -- roles that it had when the token was issued, for the time to live of the tokens; from then on
  -- it is refused.
  pub validate_token-issue_token :
      (now later : ℕ) (iri : ResourceIri) (product : Option Text) (token : Text)
      → (rs : List (ℕ × Bytes)) (p q : LocalIdentityProvider) → new_iri iri ≡ ok iri
      → q.signing_key ≡ (rotate_all rs p).signing_key
      → q.retired_keys ≡ (rotate_all rs p).retired_keys
      → issue_token c now iri product p ≡ ok token
      → validate_token c new_iri later token q ≡ (
          if leb (now + p.token_ttl_secs) later
          then err unauthenticated
          else ok (record {
            identity_iri = iri;
            product = product;
            roles = token_roles iri p;
            audience = map_option (product_audience p.cluster_domain) product;
            scopes = [];
            permissions = [];
          }))
  unfolding validate_token issue_token
  validate_token-issue_token now later iri product token rs p q valid key retired issued =
      let kept : IsKept p.signing_key q.signing_key q.retired_keys =
        subst (λ k. IsKept p.signing_key k q.retired_keys) (sym key)
          (subst (IsKept p.signing_key (rotate_all rs p).signing_key) (sym retired)
            (IsKept-after rs p.signing_key p (inl refl))) in
      let read =
        verify_token_with_rotation-sign_token c laws later p.signing_key q.signing_key _ token
          q.retired_keys issued kept in
      ground (arith, read, valid)

  unopened :
      (k new : Key) (claims : TokenClaims) (token : Text)
      → sign_token c k claims ≡ ok token
      → ((payload : Bytes) → c.hmac_sign k payload ≢ c.hmac_sign new payload)
      → opened c new token ≡ none
  unfolding opened sign_token
  unopened k new claims token h apart = elim (Option-cases (c.to_vec claims)) [
    | inl e ↦ absurd (ground (arith, e))
    | inr (json, e) ↦
        let payload = c.encode json in
        let tag = c.hmac_sign k payload in
        let cut = split_once-append b'.' payload (c.encode tag) (laws.encode_dotless json) in
        let made : payload ++ (b'.' ∷ c.encode tag) ≡ token = ground (arith, e) in
        ap (λ t. opened_with c new (split_once b'.' t)) (sym made)
        ∙ ap (opened_with c new) cut
        ∙ elim (Bool-cases (c.hmac_verify new payload tag)) [
          | inl v ↦ absurd (apart payload (laws.tag_of_verify new payload tag v))
          | inr v ↦ ground (arith, laws.decode-encode tag, v)
        ]
  ]

  -- A rotation of the key ends the exchange of every token that was issued before, although the same
  -- tokens are still valid: `token_exchange` tries the current key alone. The two keys are taken to
  -- give different tags.
  pub token_exchange-rotated :
      (now rotated later : ℕ) (iri : ResourceIri) (product : Option Text) (token : Text)
      → (new_key : Bytes) (audience scope : Option Text) (p : LocalIdentityProvider)
      → new_iri iri ≡ ok iri
      → issue_token c now iri product p ≡ ok token
      → later < now + p.token_ttl_secs
      → ((payload : Bytes) → c.hmac_sign p.signing_key payload ≢ c.hmac_sign new_key payload)
      → let q = with_rotated_key rotated new_key p in
        (token_exchange c later token audience scope q ≡ err unauthenticated)
        × ((v : ValidatedIdentity) × (validate_token c new_iri later token q ≡ ok v)
            × (v.identity_iri ≡ iri))
  unfolding issue_token token_exchange with_rotated_key
  token_exchange-rotated now rotated later iri product token new_key audience scope p valid issued
        fresh apart =
      let q = with_rotated_key rotated new_key p in
      let refused =
        verify_token_lem c later new_key token
        ∙ ap (λ o. checked c later o (err unauthenticated))
            (unopened p.signing_key new_key _ token issued apart) in
      let v : ValidatedIdentity = record {
        identity_iri = iri;
        product = product;
        roles = token_roles iri p;
        audience = map_option (product_audience p.cluster_domain) product;
        scopes = [];
        permissions = [];
      } in
      let read =
        validate_token-issue_token now later iri product token ((rotated, new_key) ∷ []) p q valid
          refl refl issued in
      (ground (arith, refused), (v, read ∙ ground arith, refl))
