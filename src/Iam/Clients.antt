-- ===== src/Iam/Clients.antt =====
-- Applications and machine-to-machine access in `LocalIdentityProvider` of
-- crates/picloud-iam/src/implementation.rs: `register_app`, `client_credentials_token`,
-- `client_credentials_token_with_audience` and the M2M permissions. Fresh ids and the secret are
-- arguments. A formatted reason is a constructor.
pub mod Scopes
use picloud.Prelude.{
  ℕ, ◌≡◌, Bool, true, false, not, ◌&&◌, Option, none, some, List, [], ◌∷◌, ◌++◌, if◌then◌else◌,
  ◌==◌, ◌!=◌, contains,
}
use picloud.Prelude.Equality.{nat_eq, list_eq}
use picloud.Prelude.HashMap
use picloud.Prelude.HashMap.{HashMap}
use picloud.Prelude.Texts.{Text, codes, last_piece}
use picloud.Domain.Error.{
  Result, ok, err, ◌>>=◌, PiCloudError, unauthenticated, permission_denied, no_m2m_permission,
  m2m_scope_not_granted, scope_not_registered,
}
use picloud.Domain.Events.{Uuid}
use picloud.Domain.Iri.{ResourceIri}
use picloud.Iam.Tokens.{Crypto}
use picloud.Iam.Provider.{
  LocalIdentityProvider, AppRegistration, StoredAppRegistration, M2mPermission,
}
use picloud.Iam.Issuing.{
  TokenResponse, bearer, issue_token_with_audience, product_of, product_audience, scopes_of,
}

abbrev pub pair_key : Text → Text → Text
pair_key client product = client ++ (b':' ∷ product)

unfoldable register_m2m_permission : M2mPermission → LocalIdentityProvider → LocalIdentityProvider
register_m2m_permission m p = record p {
  m2m_permissions = HashMap.insert p.m2m_permissions (pair_key m.client m.product) m;
}

-- A loop over requested scopes with an error at the first that is not in the list.
unfoldable pub check_scopes : List Text → PiCloudError → List Text → Result (Unit {0})
check_scopes granted e [] = ok tt
check_scopes granted e (scope ∷ scopes) =
    let rest = check_scopes granted e scopes in if not (contains granted scope) then err e else rest

abbrev pub permitted : List Text → Option M2mPermission → Result (Unit {0})
permitted scopes none = err (permission_denied no_m2m_permission)
permitted scopes (some m) = check_scopes m.scopes (permission_denied m2m_scope_not_granted) scopes

unfoldable pub check_m2m_permission :
    Text → Text → List Text → LocalIdentityProvider → Result (Unit {0})
unfolding check_scopes
check_m2m_permission client_product target_product scopes p =
    permitted scopes (HashMap.get p.m2m_permissions (pair_key client_product target_product))

-- `scopes.join(" ")`.
abbrev join_rest : List Text → Text
join_rest [] = []
join_rest (s ∷ ss) = b' ' ∷ s ++ join_rest ss

abbrev pub join : List Text → Text
join [] = []
join (s ∷ ss) = s ++ join_rest ss

module _ (c : Crypto) where
  abbrev pub hash_secret : Text → Text
  hash_secret secret = c.encode (c.sha256 secret)

  -- The registration that is returned carries the secret in place of its hash.
  unfoldable register_app :
      Uuid
      → Text
      → Text
      → ResourceIri
      → List Text
      → List Text
      → LocalIdentityProvider
      → Result AppRegistration × LocalIdentityProvider
  unfolding last_piece
  register_app id client_id client_secret product_iri redirect_uris scopes p =
      let registration : AppRegistration = record {
        id = id;
        client_id = client_id;
        client_secret_hash = hash_secret client_secret;
        product_iri = product_iri;
        redirect_uris = redirect_uris;
        scopes = scopes;
      } in
      let stored : StoredAppRegistration = record {
        registration = registration;
        product_name = last_piece b'/' product_iri;
      } in
      (
        ok (record registration { client_secret_hash = client_secret }),
        record p { app_registrations = HashMap.insert p.app_registrations client_id stored },
      )

  -- The application of a client id, where the secret is its own.
  abbrev pub authenticated : Text → Option StoredAppRegistration → Result StoredAppRegistration
  authenticated client_secret none = err unauthenticated
  authenticated client_secret (some app) =
      if hash_secret client_secret != app.registration.client_secret_hash
      then err unauthenticated
      else ok app

  -- The scopes of a request, or all that are registered where it names none.
  abbrev pub granted_scopes : Option Text → StoredAppRegistration → Result (List Text)
  granted_scopes none app = ok app.registration.scopes
  granted_scopes (some s) app = do
    let requested = scopes_of (some s)
    u ← check_scopes app.registration.scopes (permission_denied scope_not_registered) requested
    ok requested

  unfoldable pub client_credentials_token :
      ℕ → Text → Text → Option Text → LocalIdentityProvider → Result TokenResponse
  unfolding check_scopes issue_token_with_audience
  client_credentials_token now client_id client_secret scope p = do
    app ← authenticated client_secret (HashMap.get p.app_registrations client_id)
    scopes ← granted_scopes scope app
    token ←
        issue_token_with_audience c now app.registration.product_iri
          (product_audience p.cluster_domain app.product_name) scopes p
    ok (bearer p.token_ttl_secs (some (join scopes)) token)

  abbrev or_audience : Text → Option Text → Text
  or_audience aud none = aud
  or_audience aud (some product) = product

  -- The product that an audience names, or the audience itself.
  unfoldable pub target_of : Text → Text
  unfolding product_of
  target_of aud = or_audience aud (product_of aud)

  abbrev pub check_target :
      StoredAppRegistration → Text → List Text → LocalIdentityProvider → Result (Unit {0})
  check_target app aud scopes p =
      if target_of aud != app.product_name
      then check_m2m_permission app.product_name (target_of aud) scopes p
      else ok tt

  abbrev pub token_for :
      ℕ
      → Text
      → Text
      → Option Text
      → Option Text
      → LocalIdentityProvider
      → StoredAppRegistration
      → Result TokenResponse
  token_for now client_id client_secret scope none p app =
      client_credentials_token now client_id client_secret scope p
  token_for now client_id client_secret scope (some aud) p app = do
    let scopes = scopes_of scope
    u ← check_target app aud scopes p
    token ← issue_token_with_audience c now app.registration.product_iri aud scopes p
    ok (bearer p.token_ttl_secs (some (join scopes)) token)

  unfoldable pub client_credentials_token_with_audience :
      ℕ → Text → Text → Option Text → Option Text → LocalIdentityProvider → Result TokenResponse
  unfolding client_credentials_token check_m2m_permission issue_token_with_audience target_of
  client_credentials_token_with_audience now client_id client_secret scope audience p = do
    app ← authenticated client_secret (HashMap.get p.app_registrations client_id)
    token_for now client_id client_secret scope audience p app
