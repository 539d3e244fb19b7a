-- ===== src/Prelude/HashMap.antt =====
-- `std::collections::HashMap` as an association list with one entry for each key. The order of the
-- list stands for the map's iteration order, which Rust leaves open.
use mathlib.Core.Path.{◌≡◌, refl, ap, ◌∙◌}
use mathlib.Core.Logic.{◌≢◌}
use mathlib.Core.Bool.{Bool, true, false}
use mathlib.Core.Option.{Option, none, some}
use mathlib.Core.List.{List, [], ◌∷◌}
use native.Mathlib.Omega.{arith}
use picloud.Prelude.Tests.{if◌then◌else◌}
use picloud.Prelude.Equality.{Eq, ◌==◌}
use picloud.Prelude.Lists.{any}

abbrev pub HashMap {ℓ} : Type ℓ → Type ℓ → Type ℓ
HashMap K V = List (K × V)

module _ {ℓ} {K V : Type ℓ} where
  abbrev pub values : HashMap K V → List V
  values [] = []
  values ((k, v) ∷ m) = v ∷ values m

  abbrev pub keys : HashMap K V → List K
  keys [] = []
  keys ((k, v) ∷ m) = k ∷ keys m

  -- `retain`, by a test on the key and the value.
  unfoldable pub filter_entries : (K → V → Bool) → HashMap K V → HashMap K V
  filter_entries p [] = []
  filter_entries p ((k, v) ∷ m) =
      let rest = filter_entries p m in if p k v then (k, v) ∷ rest else rest

module _ {ℓ} {K V : Type ℓ} ⦃e : Eq K⦄ where
  unfoldable pub get : HashMap K V → K → Option V
  get [] k = none
  get ((j, v) ∷ m) k = if j == k then some v else get m k

  unfoldable pub contains_key : HashMap K V → K → Bool
  contains_key [] k = false
  contains_key ((j, v) ∷ m) k = if j == k then true else contains_key m k

  -- An insert replaces the value of a key that is there.
  unfoldable pub insert : HashMap K V → K → V → HashMap K V
  insert [] k v = (k, v) ∷ []
  insert ((j, w) ∷ m) k v = if j == k then (k, v) ∷ m else (j, w) ∷ insert m k v

  unfoldable pub remove : HashMap K V → K → HashMap K V
  remove [] k = []
  remove ((j, v) ∷ m) k = let rest = remove m k in if j == k then rest else (j, v) ∷ rest

  pub get-insert :
      (m : HashMap K V) (k j : K) (v : V)
      → get (insert m k v) j ≡ (if k == j then some v else get m j)
  unfolding get insert
  get-insert [] k j v = refl
  get-insert ((i, w) ∷ m) k j v =
      ground (arith, e.beq_iff k j, e.beq_iff i k, e.beq_iff i j, get-insert m k j v)

  pub get-remove :
      (m : HashMap K V) (k j : K) → get (remove m k) j ≡ (if k == j then none else get m j)
  unfolding get remove
  get-remove [] k j = ground arith
  get-remove ((i, w) ∷ m) k j =
      ground (arith, e.beq_iff k j, e.beq_iff i k, e.beq_iff i j, get-remove m k j)

  -- A key that is not in the map is looked up to nothing.
  pub get_of_contains_key : (m : HashMap K V) (k : K) → contains_key m k ≡ false → get m k ≡ none
  unfolding get contains_key
  get_of_contains_key [] k h = refl
  get_of_contains_key ((i, w) ∷ m) k h = ground (arith, get_of_contains_key m k)

  pub contains_key_of_get :
      (m : HashMap K V) (k : K) (v : V) → get m k ≡ some v → contains_key m k ≡ true
  unfolding get contains_key
  contains_key_of_get [] k v h = ground arith
  contains_key_of_get ((i, w) ∷ m) k v h = ground (arith, contains_key_of_get m k v)

  pub contains_key_of_none : (m : HashMap K V) (k : K) → get m k ≡ none → contains_key m k ≡ false
  unfolding get contains_key
  contains_key_of_none [] k h = refl
  contains_key_of_none ((i, w) ∷ m) k h = ground (arith, contains_key_of_none m k)

  -- Every key once: what makes the list a map.
  abbrev pub IsMap : HashMap K V → Type 0
  IsMap [] = Unit
  IsMap ((k, v) ∷ m) = (contains_key m k ≡ false) × IsMap m

  pub contains_key-insert :
      (m : HashMap K V) (k j : K) (v : V)
      → contains_key (insert m k v) j ≡ (if k == j then true else contains_key m j)
  unfolding contains_key insert
  contains_key-insert [] k j v = refl
  contains_key-insert ((i, w) ∷ m) k j v =
      ground (arith, e.beq_iff k j, e.beq_iff i k, e.beq_iff i j, contains_key-insert m k j v)

  pub insert-IsMap : (m : HashMap K V) (k : K) (v : V) → IsMap m → IsMap (insert m k v)
  unfolding contains_key insert
  insert-IsMap [] k v h = (refl, tt)
  insert-IsMap ((i, w) ∷ m) k v h =
      ground (arith, e.beq_iff i k, e.beq_iff k i, contains_key-insert m k i v, insert-IsMap m k v)

  contains_key-filter_entries :
      (p : K → V → Bool) (m : HashMap K V) (k : K)
      → contains_key m k ≡ false
      → contains_key (filter_entries p m) k ≡ false
  unfolding contains_key filter_entries
  contains_key-filter_entries p [] k h = refl
  contains_key-filter_entries p ((i, w) ∷ m) k h = ground (arith, contains_key-filter_entries p m k)

  pub filter_entries-IsMap :
      (p : K → V → Bool) (m : HashMap K V) → IsMap m → IsMap (filter_entries p m)
  unfolding filter_entries
  filter_entries-IsMap p [] h = tt
  filter_entries-IsMap p ((i, w) ∷ m) h =
      ground (arith, contains_key-filter_entries p m i h.0, filter_entries-IsMap p m h.1)

  -- In a map, a lookup after `filter_entries` is the lookup, tested.
  pub get-filter_entries :
      (p : K → V → Bool) (m : HashMap K V) (k : K)
      → IsMap m
      → get (filter_entries p m) k
        ≡ (elim (get m k) [ none ↦ none | some v ↦ if p k v then some v else none ])
  unfolding get filter_entries
  get-filter_entries p [] k h = refl
  get-filter_entries p ((i, w) ∷ m) k h =
      ground (arith, e.beq_iff i k, get-filter_entries p m k h.1, get_of_contains_key m i h.0)

  remove_absent : (m : HashMap K V) (k : K) → contains_key m k ≡ false → remove m k ≡ m
  unfolding contains_key remove
  remove_absent [] k h = refl
  remove_absent ((i, w) ∷ m) k h = ground (arith, remove_absent m k)

  -- A value that does not satisfy a test stands for its key's absence.
  pub any-values-insert :
      (f : V → Bool) (m : HashMap K V) (k : K) (v : V)
      → f v ≡ false
      → IsMap m
      → any f (values (insert m k v)) ≡ any f (values (remove m k))
  unfolding insert remove
  any-values-insert f [] k v h w = ground (arith, h)
  any-values-insert f ((i, u) ∷ m) k v h w =
      ground (arith, h, e.beq_iff i k, any-values-insert f m k v h w.1, remove_absent m k)

  pub get-insert_self : (m : HashMap K V) (k : K) (v : V) → get (insert m k v) k ≡ some v
  get-insert_self m k v =
      get-insert m k k v ∙ ap (λ (b : Bool). if b then some v else get m k) ((e.beq_iff k k).1 refl)

  pub get-insert_ne : (m : HashMap K V) (k j : K) (v : V) → k ≢ j → get (insert m k v) j ≡ get m j
  get-insert_ne m k j v ne = get-insert m k j v ∙ ground (arith, e.beq_iff k j)

  pub contains_key-remove :
      (m : HashMap K V) (k j : K)
      → contains_key (remove m k) j ≡ (if k == j then false else contains_key m j)
  unfolding contains_key remove
  contains_key-remove [] k j = ground arith
  contains_key-remove ((i, w) ∷ m) k j =
      ground (arith, e.beq_iff k j, e.beq_iff i k, e.beq_iff i j, contains_key-remove m k j)
