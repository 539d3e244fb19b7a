-- ===== src/Http/Router/Matching.antt =====
-- Which route a lookup finds.
use picloud.Prelude.{
  ℕ, ◌≤◌, ◌≡◌, refl, Bool, true, false, Option, none, some, List, [], ◌∷◌, ◌++◌, length, leb,
  if◌then◌else◌, arith, inl, inr, ◌⊎◌, Bool-cases, All,
}
use picloud.Prelude.Equality.{nat_eq, list_eq}
use picloud.Prelude.HashMap
use picloud.Prelude.Texts.{Text, starts_with}
use picloud.Http.Router.{
  RouteEntry, IngressRouter, best_match, longer, lookup, lookup_in, or_default,
}

-- A route stands in a list.
unfoldable IsIn : RouteEntry → List RouteEntry → Type 0
IsIn r [] = ⊥
IsIn r (q ∷ rs) = (q ≡ r) ⊎ IsIn r rs

-- The routes whose prefix the path starts with are at most so long.
abbrev pub AllAtMost : Text → ℕ → List RouteEntry → Type 0
AllAtMost path n routes =
    All (λ q. starts_with path q.path_prefix ≡ true → length q.path_prefix ≤ n) routes

-- No route of the list matches; or the route is in the list, it matches, and none that matches is
-- longer.
unfoldable pub IsBestMatch : Text → List RouteEntry → Option RouteEntry → Type 0
unfolding IsIn
IsBestMatch path routes none = All (λ q. starts_with path q.path_prefix ≡ false) routes
IsBestMatch path routes (some r) =
    IsIn r routes
    × (starts_with path r.path_prefix ≡ true)
    × AllAtMost path (length r.path_prefix) routes

none_at_most :
    (path : Text) (n : ℕ) (routes : List RouteEntry)
    → All (λ q. starts_with path q.path_prefix ≡ false) routes
    → AllAtMost path n routes
none_at_most path n [] h = tt
none_at_most path n (r ∷ rs) h = ((λ m. absurd (ground arith)), none_at_most path n rs h.1)

at_most_trans :
    (path : Text) (n k : ℕ) (routes : List RouteEntry)
    → n ≤ k
    → AllAtMost path n routes
    → AllAtMost path k routes
at_most_trans path n k [] h a = tt
at_most_trans path n k (r ∷ rs) h a =
    ((λ m. let b = a.0 m in omega arith), at_most_trans path n k rs h a.1)

longer-IsBestMatch :
    (path : Text) (r : RouteEntry) (rs : List RouteEntry) (o : Option RouteEntry)
    → starts_with path r.path_prefix ≡ true
    → IsBestMatch path rs o
    → IsBestMatch path (r ∷ rs) (longer r o)
unfolding IsBestMatch IsIn
longer-IsBestMatch path r rs none m h =
    (inl refl, m, ((λ q. omega arith), none_at_most path (length r.path_prefix) rs h))
longer-IsBestMatch path r rs (some best) m (i, mb, a) =
    by_length (leb (length r.path_prefix) (length best.path_prefix)) refl
  where
    by_length :
        (b : Bool)
        → leb (length r.path_prefix) (length best.path_prefix) ≡ b
        → IsBestMatch path (r ∷ rs) (if b then some best else some r)
    by_length true e = (inr i, mb, ((λ q. ground arith), a))
    by_length false e = (
      inl refl,
      m,
      (
        (λ q. omega arith),
        at_most_trans path (length best.path_prefix) (length r.path_prefix) rs (ground arith) a,
      ),
    )

skip_IsBestMatch :
    (path : Text) (r : RouteEntry) (rs : List RouteEntry) (o : Option RouteEntry)
    → starts_with path r.path_prefix ≡ false
    → IsBestMatch path rs o
    → IsBestMatch path (r ∷ rs) o
unfolding IsBestMatch IsIn
skip_IsBestMatch path r rs none m h = (m, h)
skip_IsBestMatch path r rs (some best) m (i, mb, a) = (inr i, mb, ((λ q. absurd (ground arith)), a))

best_match-IsBestMatch :
    (path : Text) (routes : List RouteEntry) → IsBestMatch path routes (best_match path routes)
unfolding best_match IsBestMatch
best_match-IsBestMatch path [] = tt
best_match-IsBestMatch path (r ∷ rs) =
    by_match (best_match-IsBestMatch path rs) (starts_with path r.path_prefix) refl
  where
    by_match :
        IsBestMatch path rs (best_match path rs)
        → (b : Bool) → starts_with path r.path_prefix ≡ b
        → IsBestMatch path
            (r ∷ rs)
            (if b then longer r (best_match path rs) else best_match path rs)
    by_match rest true m = longer-IsBestMatch path r rs (best_match path rs) m rest
    by_match rest false m = skip_IsBestMatch path r rs (best_match path rs) m rest

-- A lookup finds a route of the host whose prefix is the longest of those that the path starts with,
-- and finds none exactly when there is none.
pub lookup-IsBestMatch :
    (host path : Text) (s : IngressRouter)
    → IsBestMatch path (or_default (HashMap.get s.external host)) (lookup host path s)
unfolding lookup
lookup-IsBestMatch host path s = in_host (HashMap.get s.external host)
  where
    in_host : (o : Option (List RouteEntry)) → IsBestMatch path (or_default o) (lookup_in o path)
    in_host none = best_match-IsBestMatch path []
    in_host (some routes) = best_match-IsBestMatch path routes

-- The last route of a list is found when no route that matches is longer: a tie goes to it.
pub best_match-last :
    (path : Text) (entry : RouteEntry) (routes : List RouteEntry)
    → starts_with path entry.path_prefix ≡ true
    → AllAtMost path (length entry.path_prefix) routes
    → best_match path (routes ++ entry ∷ []) ≡ some entry
unfolding best_match
best_match-last path entry [] m a = ground (arith, m)
best_match-last path entry (r ∷ rs) m a = elim (Bool-cases (starts_with path r.path_prefix)) [
  | inl b ↦ let l = a.0 b in ground (arith, b, l, best_match-last path entry rs m a.1)
  | inr b ↦ ground (arith, b, best_match-last path entry rs m a.1)
]
