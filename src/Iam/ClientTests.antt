-- ===== src/Iam/ClientTests.antt =====
-- Runs of the client and code flows of the identity provider.
use picloud.Prelude.{ℕ, ◌<◌, ◌≡◌, refl, none, some, List, [], ◌∷◌}
use picloud.Prelude.Equality.{nat_eq, list_eq}
use picloud.Prelude.HashMap
use picloud.Prelude.Texts.{Text, codes, split_whitespace}
use picloud.Iam.Tokens.{sign_token}
use picloud.Domain.Error.{ok, err, unauthenticated}
use picloud.Iam.Provider.{
  LocalIdentityProvider, StoredAppRegistration, PendingAuthorizationCode, with_ttl,
}
use picloud.Iam.Issuing.{TokenResponse, bearer, issue_token_with_audience, product_audience}
use picloud.Iam.Clients.{hash_secret, join, client_credentials_token}
use picloud.Iam.Clients.Scopes.{AllIn, client_credentials_token_ok}
use picloud.Iam.Flows.{exchange_authorization_code}
use picloud.Iam.Flows.Codes.{exchange_once}
use picloud.Iam.Samples.{crypto}

abbrev photos : StoredAppRegistration
photos = record {
  registration = record {
    id = 1;
    client_id = codes "c1";
    client_secret_hash = hash_secret crypto (codes "s");
    product_iri = codes "https://pi/products/photos";
    redirect_uris = [];
    scopes = codes "read" ∷ [];
  };
  product_name = codes "photos";
}

abbrev agreed : PendingAuthorizationCode
agreed = record {
  identity_iri = codes "https://pi/identities/alice";
  client_id = codes "c1";
  redirect_uri = codes "https://photos/back";
  scopes = codes "read" ∷ [];
  expires_at = 600;
}

abbrev served : LocalIdentityProvider
served = record (with_ttl (5 ∷ []) (codes "pi") 3600) {
  app_registrations = (codes "c1", photos) ∷ [];
  pending_auth_codes = (codes "code", agreed) ∷ [];
}

abbrev granted : TokenResponse
granted =
    elim (client_credentials_token crypto 10 (codes "c1") (codes "s") (some (codes "read"))
      served) [ ok r ↦ r | err e ↦ bearer 0 none [] ]

client_credentials_example :
    (app : StoredAppRegistration) × (HashMap.get served.app_registrations (codes "c1") ≡ some app)
    × (app.registration.client_secret_hash ≡ hash_secret crypto (codes "s"))
    × ((scopes : List Text) × AllIn app.registration.scopes scopes
        × (issue_token_with_audience crypto 10 app.registration.product_iri
              (product_audience served.cluster_domain app.product_name)
              scopes
              served
            ≡ ok granted.access_token)
        × (granted.scope ≡ some (join scopes)))
unfolding client_credentials_token with_ttl HashMap.get split_whitespace sign_token
client_credentials_example =
    client_credentials_token_ok crypto 10 (codes "c1") (codes "s") (some (codes "read")) served
      granted refl

exchange_example :
    let (r, q) =
      exchange_authorization_code crypto 10 (codes "code") (codes "c1") (codes "any") served in
    ((other_uri : Text)
      → exchange_authorization_code crypto 10 (codes "code") (codes "c1") other_uri served ≡ (r, q))
    × ((later : ℕ) (client' redirect' : Text)
        → (exchange_authorization_code crypto later (codes "code") client' redirect' q).0
          ≡ err unauthenticated)
    × ((answer : TokenResponse)
        → r ≡ ok answer
        → (pending : PendingAuthorizationCode) × (HashMap.get served.pending_auth_codes
              (codes "code")
            ≡ some pending)
          × (10 < pending.expires_at)
          × (pending.client_id ≡ codes "c1")
          × ((app : StoredAppRegistration) × (HashMap.get served.app_registrations (codes "c1")
                ≡ some app)
              × (issue_token_with_audience crypto 10 pending.identity_iri
                    (product_audience served.cluster_domain app.product_name)
                    pending.scopes
                    q
                  ≡ ok answer.access_token)))
unfolding with_ttl
exchange_example = exchange_once crypto 10 (codes "code") (codes "c1") (codes "any") served
