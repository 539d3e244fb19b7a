-- ===== src/Iam/Clients/Scopes.antt =====
-- Which scopes a client's token carries.
use picloud.Prelude.{
  ℕ, ◌≡◌, ◌≢◌, refl, sym, ap, subst, ◌∙◌, inl, inr, true, Option, none, some, List, [], ◌∷◌, ◌==◌,
  contains, All, arith, ==_iff, Bool-cases,
}
use picloud.Prelude.Equality.{nat_eq, list_eq}
use picloud.Prelude.HashMap
use picloud.Prelude.HashMap.{HashMap}
use picloud.Prelude.Texts.{Text}
use picloud.Domain.Error.{
  Result, ok, err, ◌>>=◌, PiCloudError, permission_denied, scope_not_registered,
  m2m_scope_not_granted,
}
use picloud.Iam.Tokens.{Crypto}
use picloud.Iam.Provider.{LocalIdentityProvider, StoredAppRegistration, M2mPermission}
use picloud.Iam.Issuing.{
  TokenResponse, bearer, issue_token_with_audience, product_audience, scopes_of,
}
use picloud.Iam.Clients.{
  check_scopes, permitted, pair_key, join, hash_secret, authenticated, granted_scopes,
  client_credentials_token, target_of, check_target, token_for,
  client_credentials_token_with_audience,
}

abbrev pub AllIn : List Text → List Text → Type 0
AllIn granted scopes = All (λ s. contains granted s ≡ true) scopes

check_scopes_ok :
    (granted : List Text) (e : PiCloudError) (scopes : List Text)
    → check_scopes granted e scopes ≡ ok tt
    → AllIn granted scopes
unfolding check_scopes
check_scopes_ok granted e [] h = tt
check_scopes_ok granted e (s ∷ scopes) h = elim (Bool-cases (contains granted s)) [
  | inl b ↦ (b, check_scopes_ok granted e scopes (ground (arith, b)))
  | inr b ↦ absurd (ground (arith, b))
]

-- The parts of a bind that succeeds.
bind_ok {ℓ κ} :
    {A : Type ℓ} {B : Type κ} (m : Result A) (f : A → Result B) (b : B)
    → (m >>= f) ≡ ok b
    → (a : A) × (m ≡ ok a) × (f a ≡ ok b)
bind_ok (ok a) f b h = (a, refl, h)
bind_ok (err e) f b h = absurd (ground arith)

bind_eq {ℓ κ} :
    {A : Type ℓ} {B : Type κ} (m : Result A) (f : A → Result B) (a : A) → m ≡ ok a → (m >>= f) ≡ f a
bind_eq m f a h = ap (λ x. x >>= f) h

bind_err {ℓ κ} :
    {A : Type ℓ} {B : Type κ} (m : Result A) (f : A → Result B) (e : PiCloudError)
    → m ≡ err e
    → (m >>= f) ≡ err e
bind_err m f e h = ap (λ x. x >>= f) h

AllIn-cons : (x : Text) (xs ys : List Text) → AllIn xs ys → AllIn (x ∷ xs) ys
AllIn-cons x xs [] h = tt
AllIn-cons x xs (y ∷ ys) h = (ground (arith, h.0), AllIn-cons x xs ys h.1)

AllIn-self : (xs : List Text) → AllIn xs xs
AllIn-self [] = tt
AllIn-self (x ∷ xs) = (ground (arith, ==_iff x x), AllIn-cons x xs xs (AllIn-self xs))

module _ (c : Crypto) where
  permitted_ok :
      (scopes : List Text) (o : Option M2mPermission)
      → permitted scopes o ≡ ok tt
      → (m : M2mPermission) × (o ≡ some m) × AllIn m.scopes scopes
  permitted_ok scopes none h = absurd (ground arith)
  permitted_ok scopes (some m) h =
      (m, refl, check_scopes_ok m.scopes (permission_denied m2m_scope_not_granted) scopes h)

  authenticated_ok :
      (secret : Text) (o : Option StoredAppRegistration) (app : StoredAppRegistration)
      → authenticated c secret o ≡ ok app
      → (o ≡ some app) × (app.registration.client_secret_hash ≡ hash_secret c secret)
  authenticated_ok secret none app h = absurd (ground arith)
  authenticated_ok secret (some a) app h =
      elim (Bool-cases (hash_secret c secret == a.registration.client_secret_hash)) [
        | inl e ↦ (
          ground (arith, e),
          ground (arith, e, (==_iff (hash_secret c secret) a.registration.client_secret_hash).0 e),
        )
        | inr e ↦ absurd (ground (arith, e))
      ]

  granted_scopes_ok :
      (scope : Option Text) (app : StoredAppRegistration) (scopes : List Text)
      → granted_scopes c scope app ≡ ok scopes
      → AllIn app.registration.scopes scopes
  granted_scopes_ok none app scopes h =
      subst (AllIn app.registration.scopes) (ground arith) (AllIn-self app.registration.scopes)
  granted_scopes_ok (some s) app scopes h =
      let requested = scopes_of (some s) in
      let registered = app.registration.scopes in
      let (u, checked, same) =
        bind_ok (check_scopes registered (permission_denied scope_not_registered) requested)
          (λ v. ok requested) scopes h in
      subst (AllIn registered) (ground (arith, same))
        (check_scopes_ok registered (permission_denied scope_not_registered) requested checked)

  -- A client that gets a token of its own presented the secret of its application, and every scope of
  -- the token is one that the application is registered with.
  pub client_credentials_token_ok :
      (now : ℕ) (id secret : Text) (scope : Option Text) (p : LocalIdentityProvider)
      → (r : TokenResponse) → client_credentials_token c now id secret scope p ≡ ok r
      → (app : StoredAppRegistration) × (HashMap.get p.app_registrations id ≡ some app)
        × (app.registration.client_secret_hash ≡ hash_secret c secret)
        × ((scopes : List Text) × AllIn app.registration.scopes scopes
            × (issue_token_with_audience c now app.registration.product_iri
                  (product_audience p.cluster_domain app.product_name)
                  scopes
                  p
                ≡ ok r.access_token)
            × (r.scope ≡ some (join scopes)))
  unfolding client_credentials_token
  client_credentials_token_ok now id secret scope p r h =
      let (app, a, rest) =
        bind_ok (authenticated c secret (HashMap.get p.app_registrations id)) _ r h in
      let (found, hash) = authenticated_ok secret (HashMap.get p.app_registrations id) app a in
      let (scopes, g, made) = bind_ok (granted_scopes c scope app) _ r rest in
      let (token, t, done) =
        bind_ok
          (issue_token_with_audience c now app.registration.product_iri
            (product_audience p.cluster_domain app.product_name) scopes p)
          _ r made in
      (
        app,
        found,
        hash,
        (
          scopes,
          granted_scopes_ok scope app scopes g,
          ground (arith, t, done),
          ground (arith, done),
        ),
      )

  module _ (now : ℕ) (id secret : Text) (p : LocalIdentityProvider) (app : StoredAppRegistration)
      (found : HashMap.get p.app_registrations id ≡ some app)
      (known : app.registration.client_secret_hash ≡ hash_secret c secret) where
    admitted : authenticated c secret (HashMap.get p.app_registrations id) ≡ ok app
    admitted =
        ap (authenticated c secret) found
        ∙ ground (arith, known, ==_iff (hash_secret c secret) app.registration.client_secret_hash)

    -- A client that names its own product as the audience is given whatever scopes it asks for, also
    -- those that the same request without an audience is refused for.
    own_audience_scopes :
        (scope aud : Text)
        → target_of c aud ≡ app.product_name
        → check_scopes app.registration.scopes
            (permission_denied scope_not_registered)
            (scopes_of (some scope))
          ≡ err (permission_denied scope_not_registered)
        → (client_credentials_token c now id secret (some scope) p
            ≡ err (permission_denied scope_not_registered))
          × (client_credentials_token_with_audience c now id secret (some scope) (some aud) p ≡ (
              issue_token_with_audience c now app.registration.product_iri aud
                (scopes_of (some scope))
                p
              >>= (λ token.
                  ok (bearer p.token_ttl_secs (some (join (scopes_of (some scope)))) token))))
    unfolding client_credentials_token client_credentials_token_with_audience
    own_audience_scopes scope aud own refused =
        let e = permission_denied scope_not_registered in
        (
          bind_eq (authenticated c secret (HashMap.get p.app_registrations id)) _ app admitted
              ∙ bind_err (granted_scopes c (some scope) app) _ e (
                  bind_err (check_scopes app.registration.scopes e (scopes_of (some scope))) _ e
                    refused),
          bind_eq (authenticated c secret (HashMap.get p.app_registrations id))
                (token_for c now id secret (some scope) (some aud) p) app admitted
              ∙ bind_eq (check_target c app aud (scopes_of (some scope)) p) _ tt
                  (ground (arith, own, ==_iff (target_of c aud) app.product_name)),
        )

    -- A token for another product rests on a permission of that pair of products, and its scopes are
    -- among those that the permission grants.
    pub other_audience_ok :
        (scope : Option Text) (aud : Text) (r : TokenResponse)
        → target_of c aud ≢ app.product_name
        → client_credentials_token_with_audience c now id secret scope (some aud) p ≡ ok r
        → (m : M2mPermission) × (HashMap.get p.m2m_permissions
              (pair_key app.product_name (target_of c aud))
            ≡ some m)
          × AllIn m.scopes (scopes_of scope)
    unfolding client_credentials_token_with_audience
    other_audience_ok scope aud r other h =
        let rest : token_for c now id secret scope (some aud) p app ≡ ok r =
          sym (
            bind_eq (authenticated c secret (HashMap.get p.app_registrations id))
              (token_for c now id secret scope (some aud) p) app admitted)
          ∙ h in
        let (u, checked, made) = bind_ok (check_target c app aud (scopes_of scope) p) _ r rest in
        permitted_ok (scopes_of scope)
          (HashMap.get p.m2m_permissions (pair_key app.product_name (target_of c aud)))
          (ground (arith, checked, other, ==_iff (target_of c aud) app.product_name))
