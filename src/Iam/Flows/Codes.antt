-- ===== src/Iam/Flows/Codes.antt =====
-- What an exchange does to authorization codes, in `exchange_authorization_code`.
use picloud.Prelude.{
  ℕ, ◌<◌, ◌≡◌, refl, ap, ◌∙◌, inl, inr, Option, none, some, leb, ◌==◌, arith, ==_iff, Bool-cases,
}
use picloud.Prelude.Equality.{nat_eq, list_eq}
use picloud.Prelude.HashMap
use picloud.Prelude.HashMap.{HashMap, get-insert, get-remove}
use picloud.Prelude.Texts.{Text}
use picloud.Domain.Error.{ok, err, unauthenticated}
use picloud.Iam.Tokens.{Crypto}
use picloud.Iam.Provider.{LocalIdentityProvider, PendingAuthorizationCode, StoredAppRegistration}
use picloud.Iam.Issuing.{TokenResponse, issue_token_with_audience, product_audience}
use picloud.Iam.Flows.{redeem, token_for_code, exchange_authorization_code}

module _ (c : Crypto) where
  token_for_code_ok :
      (now : ℕ) (pending : PendingAuthorizationCode) (o : Option StoredAppRegistration)
      → (p : LocalIdentityProvider) (r : TokenResponse) → token_for_code c now pending o p ≡ ok r
      → (app : StoredAppRegistration) × (o ≡ some app)
        × (issue_token_with_audience c now pending.identity_iri
              (product_audience p.cluster_domain app.product_name)
              pending.scopes
              p
            ≡ ok r.access_token)
  token_for_code_ok now pending none p r h = absurd (ground arith)
  token_for_code_ok now pending (some app) p r h =
      let issued =
        issue_token_with_audience c now pending.identity_iri
          (product_audience p.cluster_domain app.product_name) pending.scopes p in
      (app, refl, ground arith)

  redeem_ok :
      (now : ℕ) (client_id : Text) (o : Option PendingAuthorizationCode)
      → (p : LocalIdentityProvider) (r : TokenResponse) → redeem c now client_id o p ≡ ok r
      → (pending : PendingAuthorizationCode) × (o ≡ some pending)
        × (now < pending.expires_at)
        × (pending.client_id ≡ client_id)
        × ((app : StoredAppRegistration) × (HashMap.get p.app_registrations client_id ≡ some app)
            × (issue_token_with_audience c now pending.identity_iri
                  (product_audience p.cluster_domain app.product_name)
                  pending.scopes
                  p
                ≡ ok r.access_token))
  redeem_ok now client_id none p r h = absurd (ground arith)
  redeem_ok now client_id (some pending) p r h = elim (Bool-cases (leb pending.expires_at now)) [
    | inl e ↦ absurd (ground (arith, e))
    | inr e ↦ elim (Bool-cases (pending.client_id == client_id)) [
      | inl f ↦ (
        pending,
        refl,
        ground (arith, e),
        (==_iff pending.client_id client_id).0 f,
        token_for_code_ok now pending (HashMap.get p.app_registrations client_id) p r
            (ground (arith, e, f)),
      )
      | inr f ↦ absurd (ground (arith, e, f))
    ]
  ]

  -- An authorization code serves once, whatever comes of it: after an exchange every later one of the
  -- code is refused. An exchange that succeeds comes before the code expires, from the client that the
  -- code was made for, and gives a token of the identity that agreed, for the product of that client
  -- and the scopes that were agreed to. The redirect URI plays no part.
  pub exchange_once :
      (now : ℕ) (code client_id redirect_uri : Text) (p : LocalIdentityProvider)
      → let (r, q) = exchange_authorization_code c now code client_id redirect_uri p in
        ((other_uri : Text) → exchange_authorization_code c now code client_id other_uri p ≡ (r, q))
        × ((later : ℕ) (client' redirect' : Text)
            → (exchange_authorization_code c later code client' redirect' q).0
              ≡ err unauthenticated)
        × ((answer : TokenResponse)
            → r ≡ ok answer
            → (pending : PendingAuthorizationCode) × (HashMap.get p.pending_auth_codes code
                ≡ some pending)
              × (now < pending.expires_at)
              × (pending.client_id ≡ client_id)
              × ((app : StoredAppRegistration) × (HashMap.get p.app_registrations client_id
                    ≡ some app)
                  × (issue_token_with_audience c now pending.identity_iri
                        (product_audience p.cluster_domain app.product_name)
                        pending.scopes
                        q
                      ≡ ok answer.access_token)))
  unfolding exchange_authorization_code
  exchange_once now code client_id redirect_uri p =
      let q = record p { pending_auth_codes = HashMap.remove p.pending_auth_codes code } in
      let gone : HashMap.get q.pending_auth_codes code ≡ none =
        get-remove p.pending_auth_codes code code ∙ ground (arith, ==_iff code code) in
      (
        λ other_uri. refl,
        λ later client' redirect'.
            ap
              (λ o.
                redeem c later client' o
                  (record q { pending_auth_codes = HashMap.remove q.pending_auth_codes code }))
              gone,
        λ answer h. redeem_ok now client_id (HashMap.get p.pending_auth_codes code) q answer h,
      )
