-- ===== src/Http/Router/Tables.antt =====
-- What the operations do to the tables: the routes of an ingress, in all tables, after each.
use picloud.Prelude.{
  ◌≡◌, ◌≢◌, refl, ap, ◌∙◌, Bool, true, false, some, List, [], ◌∷◌, ◌++◌, length, if◌then◌else◌,
  ◌==◌, arith, map, retain, ==_iff, ==_refl, ==_ne,
}
use picloud.Prelude.Equality.{nat_eq, list_eq}
use picloud.Prelude.HashMap
use picloud.Prelude.HashMap.{HashMap, get-insert}
use picloud.Prelude.Texts.{Text, starts_with}
use picloud.Domain.Iri.{ResourceIri}
use picloud.Http.Router.{
  RouteEntry, IngressRouter, lookup, upsert_route, replace_route, remove_route, update_upstream,
  move_upstream, map_values, is_nonempty, is_other, or_default,
}
use picloud.Http.Router.Matching.{AllAtMost, best_match-last}

unfoldable pub has_iri : ResourceIri → RouteEntry → Bool
has_iri i r = r.ingress_iri == i

unfoldable external_of : ResourceIri → HashMap Text (List RouteEntry) → List RouteEntry
unfolding has_iri
external_of i [] = []
external_of i ((host, routes) ∷ m) = retain (has_iri i) routes ++ external_of i m

-- The routes of an ingress: those of the external table, host by host, and those of the internal one.
unfoldable routes_of : ResourceIri → IngressRouter → List RouteEntry × List RouteEntry
unfolding has_iri external_of
routes_of i s = (external_of i s.external, retain (has_iri i) s.internal)

retain-is_other :
    (i j : ResourceIri) (rs : List RouteEntry)
    → retain (has_iri i) (retain (is_other j) rs) ≡ (if i == j then [] else retain (has_iri i) rs)
unfolding has_iri
retain-is_other i j [] = ground arith
retain-is_other i j (r ∷ rs) =
    ground
      (arith, retain-is_other i j rs, ==_iff i j, ==_iff r.ingress_iri i, ==_iff r.ingress_iri j)

retain-move :
    (i old_addr new_addr : Text) (rs : List RouteEntry)
    → retain (has_iri i) (map (move_upstream old_addr new_addr) rs)
      ≡ map (move_upstream old_addr new_addr) (retain (has_iri i) rs)
unfolding has_iri
retain-move i old_addr new_addr [] = refl
retain-move i old_addr new_addr (r ∷ rs) = ground (arith, retain-move i old_addr new_addr rs)

map-append :
    (f : RouteEntry → RouteEntry) (xs ys : List RouteEntry)
    → map f (xs ++ ys) ≡ map f xs ++ map f ys
map-append f [] ys = refl
map-append f (x ∷ xs) ys = ap (λ l. f x ∷ l) (map-append f xs ys)

drop_empty :
    (i : ResourceIri) (m : HashMap Text (List RouteEntry))
    → external_of i (HashMap.filter_entries is_nonempty m) ≡ external_of i m
unfolding external_of HashMap.filter_entries
drop_empty i [] = refl
drop_empty i ((host, []) ∷ m) = drop_empty i m
drop_empty i ((host, r ∷ rs) ∷ m) = ap (λ x. retain (has_iri i) (r ∷ rs) ++ x) (drop_empty i m)

external_of-remove :
    (i j : ResourceIri) (m : HashMap Text (List RouteEntry))
    → external_of i (map_values (retain (is_other j)) m) ≡ (if i == j then [] else external_of i m)
unfolding external_of map_values
external_of-remove i j [] = ground arith
external_of-remove i j ((host, rs) ∷ m) =
    ground (arith, external_of-remove i j m, retain-is_other i j rs)

-- A removal takes the routes of the ingress out of every table, and leaves those of every other
-- ingress.
routes_of-remove_route :
    (i j : ResourceIri) (s : IngressRouter)
    → routes_of i (remove_route j s) ≡ (if i == j then ([], []) else routes_of i s)
unfolding remove_route routes_of
routes_of-remove_route i j s = ground (
  arith,
  drop_empty i (map_values (retain (is_other j)) s.external),
  external_of-remove i j s.external,
  retain-is_other i j s.internal,
)

external_of-move :
    (i old_addr new_addr : Text) (m : HashMap Text (List RouteEntry))
    → external_of i (map_values (map (move_upstream old_addr new_addr)) m)
      ≡ map (move_upstream old_addr new_addr) (external_of i m)
unfolding external_of map_values
external_of-move i old_addr new_addr [] = refl
external_of-move i old_addr new_addr ((host, rs) ∷ m) = ground (
  arith,
  external_of-move i old_addr new_addr m,
  retain-move i old_addr new_addr rs,
  map-append (move_upstream old_addr new_addr) (retain (has_iri i) rs) (external_of i m),
)

-- A move of the upstream address changes the address of the routes that had the old one, in every
-- table, and nothing else: each ingress keeps its routes, in order.
routes_of-update_upstream :
    (i : ResourceIri) (old_addr new_addr : Text) (s : IngressRouter)
    → routes_of i (update_upstream old_addr new_addr s) ≡ (
      map (move_upstream old_addr new_addr) (routes_of i s).0,
      map (move_upstream old_addr new_addr) (routes_of i s).1,
    )
unfolding update_upstream routes_of
routes_of-update_upstream i old_addr new_addr s = ground (
  arith,
  external_of-move i old_addr new_addr s.external,
  retain-move i old_addr new_addr s.internal,
)

-- After an upsert of an external route, a lookup on its host for a path that its prefix matches
-- finds it, unless a route of another ingress of that host matches with a longer prefix.
lookup-upsert_route :
    (host path : Text) (entry : RouteEntry) (s : IngressRouter)
    → entry.internal ≡ false
    → starts_with path entry.path_prefix ≡ true
    → AllAtMost path
        (length entry.path_prefix)
        (retain (is_other entry.ingress_iri) (or_default (HashMap.get s.external host)))
    → lookup host path (upsert_route host entry s) ≡ some entry
unfolding lookup upsert_route replace_route
lookup-upsert_route host path entry s e m a =
    let others = retain (is_other entry.ingress_iri) (or_default (HashMap.get s.external host)) in
    ground (
      arith,
      e,
      get-insert s.external host host (others ++ entry ∷ []),
      ==_refl host,
      best_match-last path entry others m a,
    )

-- An upsert leaves what lookups on the other hosts find, also where that is an older route of the
-- same ingress.
lookup-upsert_route-other :
    (host other path : Text) (entry : RouteEntry) (s : IngressRouter)
    → host ≢ other
    → lookup other path (upsert_route host entry s) ≡ lookup other path s
unfolding lookup upsert_route
lookup-upsert_route-other host other path entry s n = ground (
  arith,
  get-insert s.external host other (replace_route entry (or_default (HashMap.get s.external host))),
  ==_ne host other n,
)

-- An ingress that changes its hostname is still served on the old one: after an upsert on one host
-- and an upsert of the same ingress on another, the old route answers on the old host, where no
-- route of another ingress has a longer prefix that matches.
upsert_route-stale :
    (host other path : Text) (old new : RouteEntry) (s : IngressRouter)
    → host ≢ other
    → old.ingress_iri ≡ new.ingress_iri
    → old.internal ≡ false
    → starts_with path old.path_prefix ≡ true
    → AllAtMost path
        (length old.path_prefix)
        (retain (is_other old.ingress_iri) (or_default (HashMap.get s.external other)))
    → lookup other path (upsert_route host new (upsert_route other old s)) ≡ some old
upsert_route-stale host other path old new s n same e m a =
    lookup-upsert_route-other host other path new (upsert_route other old s) n
    ∙ lookup-upsert_route other path old s e m a
