-- ===== src/Iam/Groups.antt =====
-- Groups and roles: the identity and group operations of `LocalIdentityProvider` in
-- crates/picloud-iam/src/implementation.rs, and the roles that `issue_token` and `resolve_roles`
-- collect. A HashSet is the list of its items, each once. A query answers its bindings, those without
-- the variable left out.
pub mod Roles
use picloud.Prelude.{
  ℕ, ◌+◌, Bool, true, false, not, Option, none, some, List, [], ◌∷◌, ◌++◌, if◌then◌else◌, ◌!=◌,
  contains, retain,
}
use picloud.Prelude.Equality.{nat_eq, list_eq}
use picloud.Prelude.HashMap
use picloud.Prelude.HashMap.{HashMap, values}
use picloud.Prelude.Texts.{Text, codes, after_first, split_head, split_whitespace}
use picloud.Domain.Error.{Result, ok, err, ◌>>=◌, resource_not_found}
use picloud.Domain.Iri.{ResourceIri}
use picloud.Iam.Tokens.{Crypto, TokenClaims, sign_token, verify_token, verify_token_with_rotation}
use picloud.Iam.Provider.{LocalIdentityProvider, StoredIdentity, StoredGroup}

unfoldable pub register_identity :
    ResourceIri → List Text → LocalIdentityProvider → LocalIdentityProvider
register_identity iri roles p = record p {
  identities = HashMap.insert p.identities iri (record { iri = iri; roles = roles });
}

unfoldable pub create_group :
    ResourceIri → Text → Option Text → List Text → LocalIdentityProvider → LocalIdentityProvider
create_group group_iri name description roles p =
    let stored : StoredGroup = record {
      iri = group_iri;
      name = name;
      description = description;
      roles = roles;
      members = [];
    } in
    record p { groups = HashMap.insert p.groups group_iri stored }

-- `get_mut` with an error on a missing group, and the change that follows.
abbrev pub change_group :
    Option StoredGroup
    → ResourceIri
    → (StoredGroup → StoredGroup)
    → LocalIdentityProvider
    → Result (Unit {0}) × LocalIdentityProvider
change_group none group_iri f p = (err (resource_not_found group_iri), p)
change_group (some g) group_iri f p =
    (ok tt, record p { groups = HashMap.insert p.groups group_iri (f g) })

-- `push` unless it is there.
abbrev pub push_new : Text → List Text → List Text
push_new x xs = if contains xs x then xs else xs ++ x ∷ []

unfoldable pub assign_group_role :
    ResourceIri → Text → LocalIdentityProvider → Result (Unit {0}) × LocalIdentityProvider
assign_group_role group_iri role_name p =
    change_group (HashMap.get p.groups group_iri) group_iri
      (λ g. record g { roles = push_new role_name g.roles }) p

unfoldable pub revoke_group_role :
    ResourceIri → Text → LocalIdentityProvider → Result (Unit {0}) × LocalIdentityProvider
revoke_group_role group_iri role_name p =
    change_group (HashMap.get p.groups group_iri) group_iri
      (λ g. record g { roles = retain (λ r. r != role_name) g.roles }) p

unfoldable pub add_group_member :
    ResourceIri → ResourceIri → LocalIdentityProvider → Result (Unit {0}) × LocalIdentityProvider
add_group_member group_iri member_iri p =
    change_group (HashMap.get p.groups group_iri) group_iri
      (λ g. record g { members = push_new member_iri g.members }) p

unfoldable pub remove_group_member :
    ResourceIri → ResourceIri → LocalIdentityProvider → Result (Unit {0}) × LocalIdentityProvider
remove_group_member group_iri member_iri p =
    change_group (HashMap.get p.groups group_iri) group_iri
      (λ g. record g { members = retain (λ m. m != member_iri) g.members }) p

-- `for role in more { if !roles.contains(&role) { roles.push(role) } }`
unfoldable pub merge_roles : List Text → List Text → List Text
merge_roles roles [] = roles
merge_roles roles (role ∷ more) = merge_roles (push_new role roles) more

unfoldable pub collect_roles : ResourceIri → List Text → List StoredGroup → List Text
unfolding merge_roles
collect_roles identity_iri inherited [] = inherited
collect_roles identity_iri inherited (g ∷ gs) =
    collect_roles identity_iri
      (if contains g.members identity_iri then merge_roles inherited g.roles else inherited) gs

unfoldable pub roles_from_groups : ResourceIri → LocalIdentityProvider → List Text
unfolding collect_roles
roles_from_groups identity_iri p = collect_roles identity_iri [] (values p.groups)

abbrev pub roles_or_default : Option StoredIdentity → List Text
roles_or_default none = []
roles_or_default (some s) = s.roles

unfoldable pub direct_roles : ResourceIri → LocalIdentityProvider → List Text
direct_roles identity_iri p = roles_or_default (HashMap.get p.identities identity_iri)

-- The roles that both ways of issuing a token give it.
unfoldable pub token_roles : ResourceIri → LocalIdentityProvider → List Text
unfolding direct_roles roles_from_groups merge_roles
token_roles identity_iri p =
    merge_roles (direct_roles identity_iri p) (roles_from_groups identity_iri p)

-- The cluster graph, as `resolve_roles` queries it: the superclasses of a role, and the permissions of
-- a set of roles.
pub record Graph : Type 0 where
  pub superclasses : Text → Result (List Text)
  pub permissions_of : List Text → Result (List Text)

abbrev pub or_none_found : Result (List Text) → List Text
or_none_found (ok xs) = xs
or_none_found (err e) = []

abbrev pub with_superclasses : Graph → List Text → List Text → List Text
with_superclasses graph roles [] = roles
with_superclasses graph roles (role ∷ more) =
    with_superclasses graph (merge_roles roles (or_none_found (graph.superclasses role))) more

-- The roles of `resolve_roles`: direct, of groups, and the superclasses of the direct ones.
unfoldable pub all_roles : Option Graph → ResourceIri → LocalIdentityProvider → List Text
unfolding direct_roles roles_from_groups merge_roles
all_roles sparql identity_iri p =
    let direct = direct_roles identity_iri p in
    let roles = merge_roles (merge_roles [] direct) (roles_from_groups identity_iri p) in
    elim sparql [ none ↦ roles | some graph ↦ with_superclasses graph roles direct ]
