-- ===== src/Prelude/BTreeMap.antt =====
-- `std::collections::BTreeMap` with `u64` keys: an association list in ascending order of the keys.
use Prim.Native.Nat.{ℕ, suc, ◌≤◌, ◌<◌, compare, Ordering}
use mathlib.Core.Path.{◌≡◌, refl}
use mathlib.Core.Bool.{Bool, true, false, ◌&&◌}
use mathlib.Core.Option.{Option, none, some}
use mathlib.Core.List.{List, [], ◌∷◌}
use native.Mathlib.Omega.{arith}
use picloud.Prelude.Tests.{if◌then◌else◌, ltb, leb, nat_beq}

abbrev pub BTreeMap : Type 0 → Type 0
BTreeMap V = List (ℕ × V)

-- An end of a range, as `std::ops::Bound`.
pub data Bound : Type 0 where
  included excluded : ℕ → Bound
  unbounded : Bound

abbrev pub above : Bound → ℕ → Bool
above (included n) k = leb n k
above (excluded n) k = ltb n k
above unbounded k = true

abbrev pub below : Bound → ℕ → Bool
below (included n) k = leb k n
below (excluded n) k = ltb k n
below unbounded k = true

-- The ranges on which `range` panics, as documented: the start is above the end, or both ends exclude
-- the same key.
abbrev pub is_inverted : Bound → Bound → Bool
is_inverted unbounded hi = false
is_inverted (included n) unbounded = false
is_inverted (excluded n) unbounded = false
is_inverted (included n) (included k) = ltb k n
is_inverted (included n) (excluded k) = ltb k n
is_inverted (excluded n) (included k) = ltb k n
is_inverted (excluded n) (excluded k) = leb k n

outside_inverted :
    (lo hi : Bound) (k : ℕ) → is_inverted lo hi ≡ true → (above lo k && below hi k) ≡ false
outside_inverted unbounded hi k h = absurd (ground arith)
outside_inverted (included n) unbounded k h = absurd (ground arith)
outside_inverted (excluded n) unbounded k h = absurd (ground arith)
outside_inverted (included n) (included j) k h = ground arith
outside_inverted (included n) (excluded j) k h = ground arith
outside_inverted (excluded n) (included j) k h = ground arith
outside_inverted (excluded n) (excluded j) k h = ground arith

abbrev pub mem : ℕ → List ℕ → Bool
mem j [] = false
mem j (k ∷ ks) = elim (nat_beq k j) [ true ↦ true | false ↦ mem j ks ]

module _ {V : Type 0} where
  unfoldable pub get : BTreeMap V → ℕ → Option V
  get [] k = none
  get ((j, v) ∷ m) k = if nat_beq j k then some v else get m k

  unfoldable pub insert : BTreeMap V → ℕ → V → BTreeMap V
  insert [] k v = (k, v) ∷ []
  insert ((j, w) ∷ m) k v = elim (compare k j) [
    | Ordering.lt ↦ (k, v) ∷ (j, w) ∷ m
    | Ordering.eq ↦ (k, v) ∷ m
    | Ordering.gt ↦ (j, w) ∷ insert m k v
  ]

  unfoldable pub remove : BTreeMap V → ℕ → BTreeMap V
  remove [] k = []
  remove ((j, v) ∷ m) k = let rest = remove m k in if nat_beq j k then rest else (j, v) ∷ rest

  unfoldable pub range : BTreeMap V → Bound → Bound → BTreeMap V
  range [] lo hi = []
  range ((k, v) ∷ m) lo hi =
      let rest = range m lo hi in if above lo k && below hi k then (k, v) ∷ rest else rest

  pub range-inverted :
      (m : BTreeMap V) (lo hi : Bound) → is_inverted lo hi ≡ true → range m lo hi ≡ []
  unfolding range
  range-inverted [] lo hi h = refl
  range-inverted ((k, v) ∷ m) lo hi h =
      ground (arith, outside_inverted lo hi k h, range-inverted m lo hi h)

  unfoldable pub keys : BTreeMap V → List ℕ
  keys [] = []
  keys ((k, v) ∷ m) = k ∷ keys m

  unfoldable pub values : BTreeMap V → List V
  values [] = []
  values ((k, v) ∷ m) = v ∷ values m

  -- `for k in keys { map.remove(&k); }`.
  unfoldable pub remove_all : List ℕ → BTreeMap V → BTreeMap V
  remove_all [] m = m
  remove_all (k ∷ ks) m = remove_all ks (remove m k)

  pub get-insert :
      (m : BTreeMap V) (k j : ℕ) (v : V)
      → get (insert m k v) j ≡ (if nat_beq k j then some v else get m j)
  unfolding get insert
  get-insert [] k j v = refl
  get-insert ((i, w) ∷ m) k j v = ground (arith, get-insert m k j v)

  pub get-remove :
      (m : BTreeMap V) (k j : ℕ) → get (remove m k) j ≡ (if nat_beq k j then none else get m j)
  unfolding get remove
  get-remove [] k j = ground arith
  get-remove ((i, w) ∷ m) k j = ground (arith, get-remove m k j)

  get-remove_all :
      (ks : List ℕ) (m : BTreeMap V) (j : ℕ)
      → get (remove_all ks m) j ≡ (if mem j ks then none else get m j)
  unfolding remove_all
  get-remove_all [] m j = refl
  get-remove_all (k ∷ ks) m j = ground (arith, get-remove_all ks (remove m k) j, get-remove m k j)

  pub get-range :
      (m : BTreeMap V) (lo hi : Bound) (j : ℕ)
      → get (range m lo hi) j ≡ (if above lo j && below hi j then get m j else none)
  unfolding get range
  get-range [] lo hi j = ground arith
  get-range ((k, v) ∷ m) lo hi j = ground (arith, get-range m lo hi j)

  mem-keys-range :
      (m : BTreeMap V) (lo hi : Bound) (j : ℕ)
      → mem j (keys (range m lo hi)) ≡ (above lo j && below hi j && mem j (keys m))
  unfolding keys range
  mem-keys-range [] lo hi j = ground arith
  mem-keys-range ((k, v) ∷ m) lo hi j = ground (arith, mem-keys-range m lo hi j)

  get_of_mem : (m : BTreeMap V) (j : ℕ) → mem j (keys m) ≡ false → get m j ≡ none
  unfolding keys get
  get_of_mem [] j h = refl
  get_of_mem ((k, v) ∷ m) j h = ground (arith, get_of_mem m j)

  -- A removal of the keys of a range leaves exactly the keys outside it.
  pub get-remove_range :
      (m : BTreeMap V) (lo hi : Bound) (j : ℕ)
      → get (remove_all (keys (range m lo hi)) m) j
        ≡ (if above lo j && below hi j then none else get m j)
  get-remove_range m lo hi j =
      ground
        (arith, get-remove_all (keys (range m lo hi)) m j, mem-keys-range m lo hi j, get_of_mem m j)

  -- The keys ascend, all above `n - 1`.
  abbrev pub IsAscending : ℕ → BTreeMap V → Type 0
  IsAscending n [] = Unit
  IsAscending n ((k, v) ∷ m) = (n ≤ k) × IsAscending (suc k) m

  IsAscending-le : (m : BTreeMap V) (n l : ℕ) → l ≤ n → IsAscending n m → IsAscending l m
  IsAscending-le [] n l h a = tt
  IsAscending-le ((k, v) ∷ m) n l h a = (omega (arith, a.0), a.1)

  pub insert-IsAscending :
      (m : BTreeMap V) (n k : ℕ) (v : V) → n ≤ k → IsAscending n m → IsAscending n (insert m k v)
  unfolding insert
  insert-IsAscending [] n k v h a = (h, tt)
  insert-IsAscending ((j, w) ∷ m) n k v h a = ground (arith, insert-IsAscending m (suc j) k v)

  remove-IsAscending : (m : BTreeMap V) (n k : ℕ) → IsAscending n m → IsAscending n (remove m k)
  unfolding remove
  remove-IsAscending [] n k a = tt
  remove-IsAscending ((j, w) ∷ m) n k a =
      ground (arith, remove-IsAscending m (suc j) k, IsAscending-le (remove m k) (suc j) n)

  pub remove_all-IsAscending :
      (ks : List ℕ) (m : BTreeMap V) (n : ℕ) → IsAscending n m → IsAscending n (remove_all ks m)
  unfolding remove_all
  remove_all-IsAscending [] m n a = a
  remove_all-IsAscending (k ∷ ks) m n a =
      remove_all-IsAscending ks (remove m k) n (remove-IsAscending m n k a)

  -- `map.values().last()`, with its key.
  unfoldable pub last : BTreeMap V → Option (ℕ × V)
  last [] = none
  last ((k, v) ∷ []) = some (k, v)
  last ((k, v) ∷ e ∷ m) = last (e ∷ m)

  pub last-none : (m : BTreeMap V) → last m ≡ none → m ≡ []
  unfolding last
  last-none [] h = refl
  last-none ((k, v) ∷ []) h = cc
  last-none ((k, v) ∷ (j, w) ∷ m) h = absurd (cons-ne m j w (last-none ((j, w) ∷ m) h))
    where
      cons-ne : (l : BTreeMap V) (i : ℕ) (x : V) → ¬ ((i, x) ∷ l ≡ [])
      cons-ne l i x p = cc

  get-below : (m : BTreeMap V) (n k : ℕ) → k < n → IsAscending n m → get m k ≡ none
  unfolding get
  get-below [] n k h a = refl
  get-below ((j, v) ∷ m) n k h a = ground (arith, get-below m (suc j) k)

  -- The last entry is in the map, under the greatest key; where there is none the map is empty.
  pub get-last :
      (m : BTreeMap V) (n k : ℕ) (v : V)
      → IsAscending n m
      → last m ≡ some (k, v)
      → (n ≤ k) × (get m k ≡ some v) × ((j : ℕ) → k < j → get m j ≡ none)
  unfolding last get
  get-last [] n k v a h = cc
  get-last ((i, w) ∷ []) n k v a h = (ground arith, ground arith, λ j lt. ground arith)
  get-last ((i, w) ∷ (i', w') ∷ m) n k v a h =
      let rest = get-last ((i', w') ∷ m) (suc i) k v a.1 h in
      (
        omega (arith, rest.0, a.0),
        ground (arith, rest.0, rest.1),
        λ j lt. ground (arith, rest.0, rest.2 j lt),
      )
