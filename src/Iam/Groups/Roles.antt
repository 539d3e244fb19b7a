-- ===== src/Iam/Groups/Roles.antt =====
-- Which roles an identity has: its own, and those of the groups that it is a member of.
use picloud.Prelude.{
  ◌≡◌, refl, sym, ap, ◌∙◌, Bool, false, ◌&&◌, ◌||◌, Option, none, some, List, [], ◌∷◌, ◌++◌, any,
  contains, retain, if◌then◌else◌, ◌==◌, ◌!=◌, arith, ==_iff, Bool-cases, inl, inr,
}
use picloud.Prelude.Equality.{nat_eq, list_eq}
use picloud.Prelude.HashMap
use picloud.Prelude.HashMap.{HashMap, values, IsMap, any-values-insert}
use picloud.Prelude.Texts.{Text}
use picloud.Domain.Error.{ok}
use picloud.Domain.Iri.{ResourceIri}
use picloud.Iam.Provider.{LocalIdentityProvider, StoredGroup}
use picloud.Iam.Groups.{
  push_new, merge_roles, collect_roles, roles_from_groups, direct_roles, token_roles, Graph,
  with_superclasses, all_roles, or_none_found, remove_group_member, revoke_group_role, change_group,
}

-- A group gives a role to an identity.
abbrev pub gives : ResourceIri → Text → StoredGroup → Bool
gives identity_iri role g = contains g.members identity_iri && contains g.roles role

contains-append :
    (xs ys : List Text) (r : Text) → contains (xs ++ ys) r ≡ (contains xs r || contains ys r)
contains-append [] ys r = refl
contains-append (x ∷ xs) ys r = ground (arith, contains-append xs ys r)

contains-push_new :
    (x : Text) (xs : List Text) (r : Text)
    → contains (push_new x xs) r ≡ (contains xs r || (x == r))
contains-push_new x xs r = ground (arith, contains-append xs (x ∷ []) r, ==_iff x r)

contains-merge_roles :
    (xs ys : List Text) (r : Text)
    → contains (merge_roles xs ys) r ≡ (contains xs r || contains ys r)
unfolding merge_roles
contains-merge_roles xs [] r = ground arith
contains-merge_roles xs (y ∷ ys) r =
    contains-merge_roles (push_new y xs) ys r
    ∙ ap (λ b. b || contains ys r) (contains-push_new y xs r)
    ∙ ground arith

contains-collect_roles :
    (i : ResourceIri) (inherited : List Text) (gs : List StoredGroup) (r : Text)
    → contains (collect_roles i inherited gs) r ≡ (contains inherited r || any (gives i r) gs)
unfolding collect_roles
contains-collect_roles i inherited [] r = ground arith
contains-collect_roles i inherited (g ∷ gs) r = elim (Bool-cases (contains g.members i)) [
  | inl e ↦
      ap
        (λ b.
          contains (collect_roles i (if b then merge_roles inherited g.roles else inherited) gs) r)
        e
      ∙ contains-collect_roles i (merge_roles inherited g.roles) gs r
      ∙ ground (arith, e, contains-merge_roles inherited g.roles r)
  | inr e ↦
      ap
        (λ b.
          contains (collect_roles i (if b then merge_roles inherited g.roles else inherited) gs) r)
        e
      ∙ contains-collect_roles i inherited gs r
      ∙ ground (arith, e)
]

-- A token carries a role exactly when the identity has it itself or a group that it is a member of has
-- it.
contains-token_roles :
    (i : ResourceIri) (p : LocalIdentityProvider) (r : Text)
    → contains (token_roles i p) r
      ≡ (contains (direct_roles i p) r || any (gives i r) (values p.groups))
unfolding token_roles roles_from_groups
contains-token_roles i p r =
    contains-merge_roles (direct_roles i p) (collect_roles i [] (values p.groups)) r
    ∙ ap (λ b. contains (direct_roles i p) r || b) (contains-collect_roles i [] (values p.groups) r)

contains-with_superclasses :
    (graph : Graph) (roles more : List Text) (r : Text)
    → contains (with_superclasses graph roles more) r ≡ (
        contains roles r || any (λ role. contains (or_none_found (graph.superclasses role)) r) more)
contains-with_superclasses graph roles [] r = ground arith
contains-with_superclasses graph roles (x ∷ more) r =
    contains-with_superclasses graph (merge_roles roles (or_none_found (graph.superclasses x))) more
      r
    ∙ ap (λ b. b || any (λ role. contains (or_none_found (graph.superclasses role)) r) more)
        (contains-merge_roles roles (or_none_found (graph.superclasses x)) r)
    ∙ ground arith

-- The resolved roles are those of a token and, where there is a graph, the superclasses of the
-- identity's own roles; a role that a group gives is not expanded.
contains-all_roles :
    (graph : Graph) (i : ResourceIri) (p : LocalIdentityProvider) (r : Text)
    → (contains (all_roles none i p) r ≡ contains (token_roles i p) r)
      × (contains (all_roles (some graph) i p) r ≡ (
          contains (token_roles i p) r
          || any (λ role. contains (or_none_found (graph.superclasses role)) r) (direct_roles i p)))
unfolding all_roles token_roles
contains-all_roles graph i p r =
    let own = direct_roles i p in
    let of_groups = roles_from_groups i p in
    let base : contains (merge_roles (merge_roles [] own) of_groups) r
        ≡ contains (merge_roles own of_groups) r =
      contains-merge_roles (merge_roles [] own) of_groups r
      ∙ ap (λ b. b || contains of_groups r) (contains-merge_roles [] own r)
      ∙ sym (contains-merge_roles own of_groups r) in
    (
      base,
      contains-with_superclasses graph (merge_roles (merge_roles [] own) of_groups) own r
          ∙ ap (λ b. b || any (λ role. contains (or_none_found (graph.superclasses role)) r) own)
              base,
    )

contains-retain_ne : (x : Text) (xs : List Text) → contains (retain (λ y. y != x) xs) x ≡ false
contains-retain_ne x [] = refl
contains-retain_ne x (y ∷ ys) = ground (arith, contains-retain_ne x ys)

direct_same :
    (o : Option StoredGroup) (gi : ResourceIri) (f : StoredGroup → StoredGroup) (i : ResourceIri)
    → (p : LocalIdentityProvider) → direct_roles i (change_group o gi f p).1 ≡ direct_roles i p
unfolding direct_roles
direct_same none gi f i p = refl
direct_same (some g) gi f i p = refl

-- The two ways to take a role away: out of the group, and the member out of the group.
change_group_lem :
    (o : Option StoredGroup) (gi i : ResourceIri) (r : Text) (f : StoredGroup → StoredGroup)
    → (p : LocalIdentityProvider) → (change_group o gi f p).0 ≡ ok tt
    → ((g : StoredGroup) → gives i r (f g) ≡ false)
    → IsMap p.groups
    → any (gives i r) (values (change_group o gi f p).1.groups)
      ≡ any (gives i r) (values (HashMap.remove p.groups gi))
change_group_lem none gi i r f p done off h = absurd (ground arith)
change_group_lem (some g) gi i r f p done off h =
    any-values-insert (gives i r) p.groups gi (f g) (off g) h

-- After a role was revoked from a group, and after a member was removed from it, the identity has that
-- role exactly when it has it itself or another group gives it.
pub token_roles-revoked :
    (gi i : ResourceIri) (r : Text) (p : LocalIdentityProvider)
    → IsMap p.groups
    → ((revoke_group_role gi r p).0 ≡ ok tt
        → contains (token_roles i (revoke_group_role gi r p).1) r ≡ (
            contains (direct_roles i p) r || any (gives i r) (values (HashMap.remove p.groups gi))))
      × ((remove_group_member gi i p).0 ≡ ok tt
          → contains (token_roles i (remove_group_member gi i p).1) r ≡ (
              contains (direct_roles i p) r
              || any (gives i r) (values (HashMap.remove p.groups gi))))
unfolding revoke_group_role remove_group_member direct_roles
token_roles-revoked gi i r p h =
    let old = HashMap.get p.groups gi in
    let without_role = λ (g : StoredGroup). record g { roles = retain (λ x. x != r) g.roles } in
    let without_member =
      λ (g : StoredGroup). record g { members = retain (λ m. m != i) g.members } in
    (
      λ done.
          contains-token_roles i (change_group old gi without_role p).1 r
          ∙ ground (
            arith,
            change_group_lem old gi i r without_role p done
                (λ g. ground (arith, contains-retain_ne r g.roles)) h,
            direct_same old gi without_role i p,
          ),
      λ done.
          contains-token_roles i (change_group old gi without_member p).1 r
          ∙ ground (
            arith,
            change_group_lem old gi i r without_member p done
                (λ g. ground (arith, contains-retain_ne i g.members)) h,
            direct_same old gi without_member i p,
          ),
    )
