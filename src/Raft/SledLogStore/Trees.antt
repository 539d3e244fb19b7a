-- ===== src/Raft/SledLogStore/Trees.antt =====
-- A tree that holds the encodings of a map's values follows the map through every operation.
use picloud.Prelude.{ℕ, ◌≡◌, refl, ap, ◌∙◌, Option, none, some, List, [], ◌∷◌, arith}
use picloud.Prelude.BTreeMap
use picloud.Prelude.BTreeMap.{BTreeMap, Bound, above, below}

module _ {V W : Type 0} (f : V → W) where
  unfoldable pub map_tree : BTreeMap V → BTreeMap W
  map_tree [] = []
  map_tree ((k, v) ∷ m) = (k, f v) ∷ map_tree m

  pub map_tree-insert :
      (m : BTreeMap V) (k : ℕ) (v : V)
      → map_tree (BTreeMap.insert m k v) ≡ BTreeMap.insert (map_tree m) k (f v)
  unfolding map_tree BTreeMap.insert
  map_tree-insert [] k v = refl
  map_tree-insert ((j, w) ∷ m) k v = ground (arith, map_tree-insert m k v)

  map_tree-remove :
      (m : BTreeMap V) (k : ℕ) → map_tree (BTreeMap.remove m k) ≡ BTreeMap.remove (map_tree m) k
  unfolding map_tree BTreeMap.remove
  map_tree-remove [] k = refl
  map_tree-remove ((j, w) ∷ m) k = ground (arith, map_tree-remove m k)

  pub map_tree-remove_all :
      (ks : List ℕ) (m : BTreeMap V)
      → map_tree (BTreeMap.remove_all ks m) ≡ BTreeMap.remove_all ks (map_tree m)
  unfolding BTreeMap.remove_all
  map_tree-remove_all [] m = refl
  map_tree-remove_all (k ∷ ks) m =
      map_tree-remove_all ks (BTreeMap.remove m k)
      ∙ ap (BTreeMap.remove_all ks) (map_tree-remove m k)

  pub keys-range-map_tree :
      (m : BTreeMap V) (lo hi : Bound)
      → BTreeMap.keys (BTreeMap.range (map_tree m) lo hi) ≡ BTreeMap.keys (BTreeMap.range m lo hi)
  unfolding map_tree BTreeMap.range BTreeMap.keys
  keys-range-map_tree [] lo hi = refl
  keys-range-map_tree ((k, v) ∷ m) lo hi = ground (arith, keys-range-map_tree m lo hi)

  abbrev pub map_last : Option (ℕ × V) → Option (ℕ × W)
  map_last none = none
  map_last (some (k, v)) = some (k, f v)

  pub last-map_tree : (m : BTreeMap V) → BTreeMap.last (map_tree m) ≡ map_last (BTreeMap.last m)
  unfolding map_tree BTreeMap.last
  last-map_tree [] = refl
  last-map_tree ((k, v) ∷ []) = refl
  last-map_tree ((k, v) ∷ (j, w) ∷ m) = last-map_tree ((j, w) ∷ m)
