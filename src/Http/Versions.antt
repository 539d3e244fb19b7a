-- ===== src/Http/Versions.antt =====
-- The versions and the choice of an implementor of crates/picloud-http/src/capability.rs. The
-- bindings that the query of the RDF graph gives are a parameter.
pub mod Order
pub mod Choice
use picloud.Prelude.{
  ℕ, zero, suc, ◌+◌, ◌*◌, ◌-◌, ◌^◌, Bool, true, false, ◌&&◌, Option, none, some, List, [], ◌∷◌,
  length, ltb, leb, nat_beq, if◌then◌else◌, ◌==◌, map, all,
}
use picloud.Prelude.Equality.{nat_eq, list_eq}
use picloud.Prelude.Texts.{Text, codes, strip_prefix, split_head}
use picloud.Domain.Error.{Result, ok, err, ◌>>=◌, PiCloudError, capability_unfulfilled}
use picloud.Events.Router.{after_last, get_or}

pub data Ordering : Type 0 where
  less equal greater : Ordering

-- `s.split(c)`.
unfoldable split : ℕ → Text → List Text
split c [] = [] ∷ []
split c (x ∷ s) = elim (split c s) [
  | [] ↦ []
  | p ∷ ps ↦ if nat_beq x c then [] ∷ p ∷ ps else (x ∷ p) ∷ ps
]

abbrev is_digit : ℕ → Bool
is_digit c = leb b'0' c && leb c b'9'

unfoldable pub digits_value : ℕ → Text → ℕ
digits_value n [] = n
digits_value n (c ∷ s) = digits_value (n * 10 + (c - b'0')) s

abbrev pub parse_digits : Text → ℕ
parse_digits [] = 0
parse_digits (c ∷ s) =
    let n = digits_value 0 (c ∷ s) in if all is_digit (c ∷ s) && ltb n (2 ^ 64) then n else 0

-- `part.parse::<u64>().unwrap_or(0)`: digits after at most one `+`, below 2 ^ 64.
unfoldable parse_part : Text → ℕ
unfolding digits_value
parse_part [] = 0
parse_part (c ∷ s) = if nat_beq c b'+' then parse_digits s else parse_digits (c ∷ s)

unfoldable pub parse : Text → List ℕ
unfolding split parse_part
parse v = map parse_part (split b'.' v)

abbrev pub cmp : ℕ → ℕ → Ordering
cmp a b = if ltb a b then less else if ltb b a then greater else equal

-- `get(i).copied().unwrap_or(0)` at the head, and the tail.
abbrev pub part : List ℕ → ℕ
part [] = 0
part (a ∷ v) = a

abbrev pub parts : List ℕ → List ℕ
parts [] = []
parts (a ∷ v) = v

abbrev pub max : ℕ → ℕ → ℕ
max a b = if ltb a b then b else a

-- The loops over the longer of the two.
unfoldable pub satisfies_loop : ℕ → List ℕ → List ℕ → Bool
satisfies_loop zero o r = true
satisfies_loop (suc n) o r =
    let rest = satisfies_loop n (parts o) (parts r) in
    if ltb (part r) (part o) then true else if ltb (part o) (part r) then false else rest

unfoldable pub version_satisfies : Text → Text → Bool
unfolding satisfies_loop parse
version_satisfies offered required =
    satisfies_loop (max (length (parse offered)) (length (parse required))) (parse offered)
      (parse required)

abbrev pub or_else : Ordering → Ordering → Ordering
or_else equal o = o
or_else less o = less
or_else greater o = greater

unfoldable pub cmp_loop : ℕ → List ℕ → List ℕ → Ordering
cmp_loop zero a b = equal
cmp_loop (suc n) a b = or_else (cmp (part a) (part b)) (cmp_loop n (parts a) (parts b))

unfoldable pub version_cmp : Text → Text → Ordering
unfolding cmp_loop parse
version_cmp a b = cmp_loop (max (length (parse a)) (length (parse b))) (parse a) (parse b)

unfoldable pub product_of : Text → Text
unfolding after_last
product_of iri = split_head b'/' (get_or (after_last (codes "/products/") iri) iri)

pub record Binding : Type 0 where
  pub version : Text
  pub product_iri : Text

pub record CapabilityResolution : Type 0 where
  pub capability_name : Text
  pub implementor_product : Text
  pub implementor_version : Text

abbrev pub is_greater : Ordering → Bool
is_greater greater = true
is_greater equal = false
is_greater less = false

abbrev is_better : Text → Option CapabilityResolution → Bool
is_better version none = true
is_better version (some current) = is_greater (version_cmp version current.implementor_version)

abbrev pub resolution : Text → Binding → CapabilityResolution
resolution capability_name b = record {
  capability_name = capability_name;
  implementor_product = product_of b.product_iri;
  implementor_version = b.version;
}

-- One round of the loop over the bindings.
abbrev pub take_better :
    Text → Text → Binding → Option CapabilityResolution → Option CapabilityResolution
take_better capability_name min_version b best =
    if version_satisfies b.version min_version && is_better b.version best
    then some (resolution capability_name b)
    else best

unfoldable pub choose :
    Text → Text → List Binding → Option CapabilityResolution → Option CapabilityResolution
unfolding version_satisfies version_cmp product_of
choose capability_name min_version [] best = best
choose capability_name min_version (b ∷ bs) best =
    choose capability_name min_version bs (take_better capability_name min_version b best)

abbrev pub or_unfulfilled : Text → Text → Option CapabilityResolution → Result CapabilityResolution
or_unfulfilled capability_name min_version none =
    err (capability_unfulfilled capability_name min_version)
or_unfulfilled capability_name min_version (some r) = ok r

unfoldable pub resolve_implementor :
    Text → Text → Result (List Binding) → Result CapabilityResolution
unfolding choose
resolve_implementor capability_name min_version bindings = bindings >>= λ bs.
    or_unfulfilled capability_name min_version (choose capability_name min_version bs none)
