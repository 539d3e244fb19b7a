-- ===== src/Http/Router.antt =====
-- `IngressRouter` of crates/picloud-http/src/router.rs. Each lock is held for the whole of the part
-- of a call that uses its table.
pub mod Matching
pub mod Tables
use picloud.Prelude.{
  ℕ, ◌+◌, Bool, true, false, not, Option, none, some, List, [], ◌∷◌, ◌++◌, length, leb,
  if◌then◌else◌, ◌==◌, ◌!=◌, retain, map,
}
use picloud.Prelude.Equality.{nat_eq, list_eq}
use picloud.Prelude.HashMap
use picloud.Prelude.HashMap.{HashMap}
use picloud.Prelude.Texts.{Text, starts_with}
use picloud.Domain.Iri.{ResourceIri}

pub record RouteEntry : Type 0 where
  pub path_prefix : Text
  pub upstream_addr : Text
  pub upstream_port : ℕ
  pub product : Text
  pub internal : Bool
  pub ingress_iri : ResourceIri

pub record IngressRouter : Type 0 where
  pub external : HashMap Text (List RouteEntry)
  pub internal : List RouteEntry

unfoldable pub new : IngressRouter
new = record { external = []; internal = [] }

-- `max_by_key` of the length of the prefix: the last of the longest.
abbrev pub longer : RouteEntry → Option RouteEntry → Option RouteEntry
longer r none = some r
longer r (some best) =
    if leb (length r.path_prefix) (length best.path_prefix) then some best else some r

-- The longest of the routes whose prefix the path starts with; of two as long, the later one.
unfoldable pub best_match : Text → List RouteEntry → Option RouteEntry
best_match path [] = none
best_match path (r ∷ rs) =
    let best = best_match path rs in if starts_with path r.path_prefix then longer r best else best

abbrev pub lookup_in : Option (List RouteEntry) → Text → Option RouteEntry
lookup_in none path = none
lookup_in (some routes) path = best_match path routes

unfoldable pub lookup : Text → Text → IngressRouter → Option RouteEntry
unfolding best_match
lookup host path s = lookup_in (HashMap.get s.external host) path

unfoldable lookup_internal : Text → IngressRouter → Option RouteEntry
unfolding best_match
lookup_internal path s = best_match path s.internal

abbrev pub is_other : ResourceIri → RouteEntry → Bool
is_other ingress_iri r = r.ingress_iri != ingress_iri

unfoldable pub replace_route : RouteEntry → List RouteEntry → List RouteEntry
replace_route entry routes = retain (is_other entry.ingress_iri) routes ++ entry ∷ []

abbrev pub or_default : Option (List RouteEntry) → List RouteEntry
or_default none = []
or_default (some routes) = routes

unfoldable pub upsert_route : Text → RouteEntry → IngressRouter → IngressRouter
unfolding replace_route
upsert_route hostname entry s =
    if entry.internal then record s { internal = replace_route entry s.internal } else record s {
      external =
          HashMap.insert s.external hostname
            (replace_route entry (or_default (HashMap.get s.external hostname)));
    }

unfoldable pub map_values :
    (List RouteEntry → List RouteEntry)
    → HashMap Text (List RouteEntry)
    → HashMap Text (List RouteEntry)
map_values f [] = []
map_values f ((host, routes) ∷ m) = (host, f routes) ∷ map_values f m

abbrev pub is_nonempty : Text → List RouteEntry → Bool
is_nonempty host [] = false
is_nonempty host (r ∷ rs) = true

unfoldable pub remove_route : ResourceIri → IngressRouter → IngressRouter
unfolding map_values
remove_route ingress_iri s = record {
  external =
      HashMap.filter_entries is_nonempty (map_values (retain (is_other ingress_iri)) s.external);
  internal = retain (is_other ingress_iri) s.internal;
}

abbrev pub move_upstream : Text → Text → RouteEntry → RouteEntry
move_upstream old_addr new_addr r =
    if r.upstream_addr == old_addr then record r { upstream_addr = new_addr } else r

unfoldable pub update_upstream : Text → Text → IngressRouter → IngressRouter
unfolding map_values
update_upstream old_addr new_addr s = record {
  external = map_values (map (move_upstream old_addr new_addr)) s.external;
  internal = map (move_upstream old_addr new_addr) s.internal;
}

unfoldable count_external : HashMap Text (List RouteEntry) → ℕ
count_external [] = 0
count_external ((host, routes) ∷ m) = length routes + count_external m

unfoldable route_count : IngressRouter → ℕ
unfolding count_external
route_count s = count_external s.external + length s.internal
