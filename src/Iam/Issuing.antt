-- ===== src/Iam/Issuing.antt =====
-- The tokens of `LocalIdentityProvider` in crates/picloud-iam/src/implementation.rs: `issue_token`,
-- `issue_token_with_audience`, `validate_token`, `token_exchange` and `resolve_roles`.
pub mod Sessions
use picloud.Prelude.{
  ℕ, ◌+◌, Bool, true, false, not, Option, none, some, List, [], ◌∷◌, ◌++◌, if◌then◌else◌, ◌!=◌,
  contains, retain,
}
use picloud.Prelude.Equality.{nat_eq, list_eq}
use picloud.Prelude.HashMap
use picloud.Prelude.HashMap.{HashMap, values}
use picloud.Prelude.Texts.{Text, codes, after_first, split_head, split_whitespace}
use picloud.Domain.Error.{Result, ok, err, ◌>>=◌, resource_not_found}
use picloud.Domain.Iri.{ResourceIri}
use picloud.Iam.Tokens.{Crypto, TokenClaims, sign_token, verify_token, verify_token_with_rotation}
use picloud.Iam.Provider.{LocalIdentityProvider, StoredIdentity, StoredGroup}
use picloud.Iam.Groups.{
  Graph, add_group_member, all_roles, assign_group_role, change_group, collect_roles, create_group,
  direct_roles, merge_roles, or_none_found, push_new, register_identity, remove_group_member,
  revoke_group_role, roles_from_groups, roles_or_default, token_roles, with_superclasses,
}

abbrev pub product_audience : Text → Text → Text
product_audience cluster_domain product =
    codes "https://" ++ (cluster_domain ++ (codes "/products/" ++ product))

abbrev pub map_option : (Text → Text) → Option Text → Option Text
map_option f none = none
map_option f (some t) = some (f t)

-- `audience.split("/products/").nth(1)`, up to the next slash.
unfoldable pub product_of : Text → Option Text
unfolding after_first split_head
product_of audience = map_option (split_head b'/') (after_first (codes "/products/") audience)

abbrev pub scopes_of : Option Text → List Text
scopes_of none = []
scopes_of (some s) = split_whitespace s

pub record ValidatedIdentity : Type 0 where
  pub identity_iri : ResourceIri
  pub product : Option Text
  pub roles : List Text
  pub audience : Option Text
  pub scopes : List Text
  pub permissions : List Text

pub record TokenResponse : Type 0 where
  pub access_token : Text
  pub token_type : Text
  pub expires_in : ℕ
  pub scope : Option Text

abbrev pub bearer : ℕ → Option Text → Text → TokenResponse
bearer expires_in scope token = record {
  access_token = token;
  token_type = codes "Bearer";
  expires_in = expires_in;
  scope = scope;
}

module _ (c : Crypto) where
  unfoldable pub issue_token : ℕ → ResourceIri → Option Text → LocalIdentityProvider → Result Text
  unfolding token_roles
  issue_token now identity_iri product p = sign_token c p.signing_key (record {
    identity_iri = identity_iri;
    product = product;
    roles = token_roles identity_iri p;
    issued_at = now;
    expires_at = now + p.token_ttl_secs;
    aud = map_option (product_audience p.cluster_domain) product;
    scopes = [];
    permissions = [];
    actor = none;
  })

  unfoldable pub issue_token_with_audience :
      ℕ → ResourceIri → Text → List Text → LocalIdentityProvider → Result Text
  unfolding token_roles product_of
  issue_token_with_audience now identity_iri audience scopes p =
      sign_token c p.signing_key (record {
        identity_iri = identity_iri;
        product = product_of audience;
        roles = token_roles identity_iri p;
        issued_at = now;
        expires_at = now + p.token_ttl_secs;
        aud = some audience;
        scopes = scopes;
        permissions = [];
        actor = none;
      })

  -- `new_iri` is the parsing of an IRI.
  unfoldable pub validate_token :
      (Text → Result ResourceIri) → ℕ → Text → LocalIdentityProvider → Result ValidatedIdentity
  unfolding verify_token_with_rotation
  validate_token new_iri now token p = do
    claims ← verify_token_with_rotation c now p.signing_key token p.retired_keys
    identity_iri ← new_iri claims.identity_iri
    ok (record {
      identity_iri = identity_iri;
      product = claims.product;
      roles = claims.roles;
      audience = claims.aud;
      scopes = claims.scopes;
      permissions = claims.permissions;
    })

  abbrev exchanged :
      ℕ → Option Text → Option Text → LocalIdentityProvider → TokenClaims → TokenClaims
  exchanged now audience scope p original = record {
    identity_iri = original.identity_iri;
    product = original.product;
    roles = original.roles;
    issued_at = now;
    expires_at = now + p.token_ttl_secs;
    aud = audience;
    scopes = scopes_of scope;
    permissions = original.permissions;
    actor = some original.identity_iri;
  }

  unfoldable pub token_exchange :
      ℕ → Text → Option Text → Option Text → LocalIdentityProvider → Result TokenResponse
  unfolding verify_token sign_token split_whitespace
  token_exchange now subject_token audience scope p = do
    original ← verify_token c now p.signing_key subject_token
    token ← sign_token c p.signing_key (exchanged now audience scope p original)
    ok (bearer p.token_ttl_secs scope token)

abbrev flatten : Option Graph → List Text → List Text
flatten none roles = []
flatten (some graph) [] = []
flatten (some graph) (role ∷ roles) = or_none_found (graph.permissions_of (role ∷ roles))

pub record ResolvedTokenClaims : Type 0 where
  pub subject : Text
  pub audience : Text
  pub issuer : Text
  pub scopes : List Text
  pub roles : List Text
  pub permissions : List Text
  pub actor : Option Text

unfoldable resolve_roles :
    Option Graph → ResourceIri → Text → LocalIdentityProvider → ResolvedTokenClaims
unfolding all_roles
resolve_roles sparql identity_iri product p =
    let roles = all_roles sparql identity_iri p in
    record {
      subject = identity_iri;
      audience = product_audience p.cluster_domain product;
      issuer = codes "https://" ++ p.cluster_domain;
      scopes = [];
      roles = roles;
      permissions = flatten sparql roles;
      actor = none;
    }
