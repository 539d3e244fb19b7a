-- ===== src/Storage/Snapshots/Listing.antt =====
-- The order of `list_snapshots`.
use picloud.Prelude.{
  ℕ, suc, ◌≤◌, ◌≡◌, refl, ap, ◌∙◌, inl, inr, false, ◌||◌, List, [], ◌∷◌, length, leb, ◌==◌,
  contains, All, arith, ==_iff, Bool-cases,
}
use picloud.Prelude.Equality.{nat_eq}
use picloud.Prelude.HashMap
use picloud.Prelude.HashMap.{HashMap, keys, IsMap}
use picloud.Storage.Snapshots.{Files, insert_desc, sort_desc}

-- Each time is at or after all that follow it.
abbrev pub IsDescending : List ℕ → Type 0
IsDescending [] = Unit
IsDescending (t ∷ ts) = All (λ u. u ≤ t) ts × IsDescending ts

abbrev pub IsDistinct : List ℕ → Type 0
IsDistinct [] = Unit
IsDistinct (t ∷ ts) = (contains ts t ≡ false) × IsDistinct ts

contains-insert_desc :
    (t : ℕ) (us : List ℕ) (j : ℕ) → contains (insert_desc t us) j ≡ (t == j || contains us j)
unfolding insert_desc
contains-insert_desc t [] j = ground arith
contains-insert_desc t (u ∷ us) j = ground (arith, contains-insert_desc t us j)

pub contains-sort_desc : (ts : List ℕ) (j : ℕ) → contains (sort_desc ts) j ≡ contains ts j
unfolding sort_desc
contains-sort_desc [] j = refl
contains-sort_desc (t ∷ ts) j =
    contains-insert_desc t (sort_desc ts) j ∙ ground (arith, contains-sort_desc ts j)

length-insert_desc : (t : ℕ) (us : List ℕ) → length (insert_desc t us) ≡ suc (length us)
unfolding insert_desc
length-insert_desc t [] = refl
length-insert_desc t (u ∷ us) = ground (arith, length-insert_desc t us)

length-sort_desc : (ts : List ℕ) → length (sort_desc ts) ≡ length ts
unfolding sort_desc
length-sort_desc [] = refl
length-sort_desc (t ∷ ts) = length-insert_desc t (sort_desc ts) ∙ ap suc (length-sort_desc ts)

All-weaken : (a b : ℕ) (us : List ℕ) → a ≤ b → All (λ u. u ≤ a) us → All (λ u. u ≤ b) us
All-weaken a b [] h p = tt
All-weaken a b (u ∷ us) h p = (omega (arith, p.0), All-weaken a b us h p.1)

All-insert_desc :
    (b t : ℕ) (us : List ℕ) → t ≤ b → All (λ u. u ≤ b) us → All (λ u. u ≤ b) (insert_desc t us)
unfolding insert_desc
All-insert_desc b t [] h p = (h, tt)
All-insert_desc b t (u ∷ us) h p = elim (Bool-cases (leb u t)) [
  | inl e ↦ ground (arith, e)
  | inr e ↦ ground (arith, e, All-insert_desc b t us h p.1)
]

insert_desc-IsDescending : (t : ℕ) (us : List ℕ) → IsDescending us → IsDescending (insert_desc t us)
unfolding insert_desc
insert_desc-IsDescending t [] h = (tt, tt)
insert_desc-IsDescending t (u ∷ us) h = elim (Bool-cases (leb u t)) [
  | inl e ↦ ground (arith, e, All-weaken u t us (ground (arith, e)) h.0)
  | inr e ↦
      ground (
        arith,
        e,
        All-insert_desc u t us (ground (arith, e)) h.0,
        insert_desc-IsDescending t us h.1,
      )
]

pub sort_desc-IsDescending : (ts : List ℕ) → IsDescending (sort_desc ts)
unfolding sort_desc
sort_desc-IsDescending [] = tt
sort_desc-IsDescending (t ∷ ts) =
    insert_desc-IsDescending t (sort_desc ts) (sort_desc-IsDescending ts)

insert_desc-IsDistinct :
    (t : ℕ) (us : List ℕ) → contains us t ≡ false → IsDistinct us → IsDistinct (insert_desc t us)
unfolding insert_desc
insert_desc-IsDistinct t [] n h = (refl, tt)
insert_desc-IsDistinct t (u ∷ us) n h = elim (Bool-cases (leb u t)) [
  | inl e ↦ ground (arith, e)
  | inr e ↦
      ground
        (arith, e, ==_iff t u, ==_iff u t, contains-insert_desc t us u, insert_desc-IsDistinct t us)
]

pub sort_desc-IsDistinct : (ts : List ℕ) → IsDistinct ts → IsDistinct (sort_desc ts)
unfolding sort_desc
sort_desc-IsDistinct [] h = tt
sort_desc-IsDistinct (t ∷ ts) h =
    insert_desc-IsDistinct t (sort_desc ts) (contains-sort_desc ts t ∙ h.0)
      (sort_desc-IsDistinct ts h.1)

pub contains-keys : (m : HashMap ℕ Files) (j : ℕ) → contains (keys m) j ≡ HashMap.contains_key m j
unfolding HashMap.contains_key
contains-keys [] j = refl
contains-keys ((k, v) ∷ m) j = ground (arith, contains-keys m j)

pub keys-IsDistinct : (m : HashMap ℕ Files) → IsMap m → IsDistinct (keys m)
keys-IsDistinct [] h = tt
keys-IsDistinct ((k, v) ∷ m) h = (contains-keys m k ∙ h.0, keys-IsDistinct m h.1)
