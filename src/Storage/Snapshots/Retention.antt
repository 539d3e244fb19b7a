-- ===== src/Storage/Snapshots/Retention.antt =====
-- Which snapshots `enforce_retention` keeps.
use picloud.Prelude.{
  ℕ, zero, suc, ◌-◌, ◌≤◌, ◌<◌, ◌≡◌, refl, sym, ap, ◌∙◌, inl, inr, true, false, ◌&&◌, not, none,
  List, [], ◌∷◌, length, length-drop, take, drop, leb, if◌then◌else◌, ◌==◌, contains, All, arith,
  ==_iff, Bool-cases,
}
use picloud.Prelude.Equality.{nat_eq}
use picloud.Prelude.HashMap
use picloud.Prelude.HashMap.{
  HashMap, keys, IsMap, get-remove, contains_key-remove, get_of_contains_key,
}
use picloud.Domain.Error.{Result, ok, err, resource_not_found}
use picloud.Domain.Iri.{ResourceIri}
use picloud.Storage.Snapshots.{
  Files, VolumeDir, list_snapshots, delete_snapshot, delete_all, counted, chosen, SnapshotRetention,
  enforce_retention,
}
use picloud.Storage.Snapshots.Listing.{
  IsDescending, IsDistinct, contains-sort_desc, sort_desc-IsDescending, sort_desc-IsDistinct,
  contains-keys, keys-IsDistinct,
}

abbrev AllPresent : List ℕ → HashMap ℕ Files → Type 0
AllPresent ts m = All (λ t. HashMap.contains_key m t ≡ true) ts

present_after :
    (t : ℕ) (ts : List ℕ) (m : HashMap ℕ Files)
    → contains ts t ≡ false
    → AllPresent ts m
    → AllPresent ts (HashMap.remove m t)
present_after t [] m n h = tt
present_after t (u ∷ us) m n h = (
  contains_key-remove m t u ∙ ground (arith, ==_iff t u, ==_iff u t, n, h.0),
  present_after t us m (ground (arith, n)) h.1,
)

deleted :
    (iri : ResourceIri) (t : ℕ) (d : VolumeDir)
    → HashMap.contains_key d.snapshots t ≡ true
    → delete_snapshot iri t d ≡ (ok tt, record d { snapshots = HashMap.remove d.snapshots t })
unfolding delete_snapshot
deleted iri t d h =
    ap
      (λ b.
        if b
        then (ok tt, record d { snapshots = HashMap.remove d.snapshots t })
        else (err (resource_not_found iri), d))
      h

-- Deleting snapshots that are there, each once: they are gone, and no other is.
delete_all_lem :
    (iri : ResourceIri) (ts : List ℕ) (d : VolumeDir)
    → IsDistinct ts
    → AllPresent ts d.snapshots
    → ((delete_all iri ts d).0 ≡ ok tt)
      × ((delete_all iri ts d).1.volume ≡ d.volume)
      × ((j : ℕ)
          → HashMap.get (delete_all iri ts d).1.snapshots j
            ≡ (if contains ts j then none else HashMap.get d.snapshots j))
unfolding delete_all
delete_all_lem iri [] d n h = (refl, refl, λ j. refl)
delete_all_lem iri (t ∷ ts) d n h =
    let after = record d { snapshots = HashMap.remove d.snapshots t } in
    let one : delete_snapshot iri t d ≡ (ok tt, after) = deleted iri t d h.0 in
    let ih = delete_all_lem iri ts after n.1 (present_after t ts d.snapshots n.0 h.1) in
    let all : delete_all iri (t ∷ ts) d ≡ delete_all iri ts after =
      ap (λ (x : Result (Unit {0}) × VolumeDir). chosen x.0 (delete_all iri ts x.1) x.1) one in
    (
      ap (λ x. x.0) all ∙ ih.0,
      ap (λ x. x.1.volume) all ∙ ih.1,
      λ j.
          ap (λ x. HashMap.get x.1.snapshots j) all
          ∙ ih.2 j
          ∙ ap (λ o. if contains ts j then none else o) (get-remove d.snapshots t j)
          ∙ ground arith,
    )

present_of :
    (ts : List ℕ) (m : HashMap ℕ Files)
    → ((t : ℕ) → contains ts t ≡ true → HashMap.contains_key m t ≡ true)
    → AllPresent ts m
present_of [] m h = tt
present_of (t ∷ ts) m h =
    (h t (ground (arith, ==_iff t t)), present_of ts m (λ u q. h u (ground (arith, q))))

take-all : (k : ℕ) (ts : List ℕ) → length ts ≤ k → take k ts ≡ ts
take-all zero [] h = refl
take-all zero (t ∷ ts) h = absurd (omega arith)
take-all (suc k) [] h = refl
take-all (suc k) (t ∷ ts) h = ap (λ us. t ∷ us) (take-all k ts (omega arith))

drop-IsDistinct : (k : ℕ) (ts : List ℕ) → IsDistinct ts → IsDistinct (drop k ts)
drop-IsDistinct zero ts h = h
drop-IsDistinct (suc k) [] h = tt
drop-IsDistinct (suc k) (t ∷ ts) h = drop-IsDistinct k ts h.1

-- Among distinct times, those that are not among the first are among the rest.
contains-drop :
    (k : ℕ) (ts : List ℕ) (j : ℕ)
    → IsDistinct ts
    → contains (drop k ts) j ≡ (contains ts j && not (contains (take k ts) j))
contains-drop zero ts j h = ground arith
contains-drop (suc k) [] j h = refl
contains-drop (suc k) (t ∷ ts) j h = elim (Bool-cases (t == j)) [
  | inr e ↦ ground (arith, e, contains-drop k ts j h.1)
  | inl e ↦
      let gone : contains ts j ≡ false = ap (contains ts) (sym ((==_iff t j).0 e)) ∙ h.0 in
      ground (arith, e, contains-drop k ts j h.1, gone)
]

listed :
    (d : VolumeDir) (j : ℕ) → contains (list_snapshots d) j ≡ HashMap.contains_key d.snapshots j
unfolding list_snapshots
listed d j = contains-sort_desc (keys d.snapshots) j ∙ contains-keys d.snapshots j

listed-IsDistinct : (d : VolumeDir) → IsMap d.snapshots → IsDistinct (list_snapshots d)
unfolding list_snapshots
listed-IsDistinct d h = sort_desc-IsDistinct (keys d.snapshots) (keys-IsDistinct d.snapshots h)

listed-IsDescending : (d : VolumeDir) → IsDescending (list_snapshots d)
unfolding list_snapshots
listed-IsDescending d = sort_desc-IsDescending (keys d.snapshots)

deleted_rest :
    (iri : ResourceIri) (k : ℕ) (d : VolumeDir)
    → IsMap d.snapshots
    → ((delete_all iri (drop k (list_snapshots d)) d).0 ≡ ok tt)
      × ((j : ℕ)
          → HashMap.get (delete_all iri (drop k (list_snapshots d)) d).1.snapshots j
            ≡ (if contains (take k (list_snapshots d)) j then HashMap.get d.snapshots j else none))
deleted_rest iri k d h =
    let ts = list_snapshots d in
    let n = listed-IsDistinct d h in
    let present =
      present_of (drop k ts) d.snapshots
        (λ t q. ground (arith, q, contains-drop k ts t n, listed d t)) in
    let all = delete_all_lem iri (drop k ts) d (drop-IsDistinct k ts n) present in
    (
      all.0,
      λ j.
          all.2 j
          ∙ ground (arith, contains-drop k ts j n, listed d j, get_of_contains_key d.snapshots j),
    )

counted_ok : (n : ℕ) (r : Result (Unit {0}) × VolumeDir) → r.0 ≡ ok tt → counted n r ≡ (ok n, r.1)
counted_ok n (ok tt, d) h = refl
counted_ok n (err e, d) h = absurd (ground arith)

-- The retention keeps exactly the newest snapshots, as many as its daily number says, and deletes every
-- other, where that number is not zero: the listing has each snapshot once and the newest first, and
-- after the call a time has the snapshot that it had if it is among the first of the listing, and else
-- none.
pub enforce_retention_lem :
    (iri : ResourceIri) (retention : SnapshotRetention) (d : VolumeDir)
    → 0 < retention.daily
    → IsMap d.snapshots
    → let (r, after) = enforce_retention iri retention d in
      let listing = list_snapshots d in
      IsDescending listing
      × IsDistinct listing
      × ((j : ℕ) → contains listing j ≡ HashMap.contains_key d.snapshots j)
      × (r ≡ ok (length listing - retention.daily))
      × ((j : ℕ)
          → HashMap.get after.snapshots j ≡ (
              if contains (take retention.daily listing) j
              then HashMap.get d.snapshots j
              else none))
unfolding enforce_retention
enforce_retention_lem iri retention d some_kept h =
    let k = retention.daily in
    let ts = list_snapshots d in
    elim (Bool-cases (leb (length ts) k)) [
      | inl few ↦ (
        listed-IsDescending d,
        listed-IsDistinct d h,
        listed d,
        ground (arith, few),
        λ j. ground (
          arith,
          few,
          take-all k ts (ground (arith, few)),
          listed d j,
          get_of_contains_key d.snapshots j,
        ),
      )
      | inr many ↦
          let (done, left) = deleted_rest iri k d h in
          let e : enforce_retention iri retention d
              ≡ (ok (length (drop k ts)), (delete_all iri (drop k ts) d).1) =
            ground
              (arith, many, counted_ok (length (drop k ts)) (delete_all iri (drop k ts) d) done) in
          (
            listed-IsDescending d,
            listed-IsDistinct d h,
            listed d,
            ap (λ x. x.0) e ∙ ap (λ n. ok n) (length-drop k ts),
            λ j. ap (λ x. HashMap.get x.1.snapshots j) e ∙ left j,
          )
    ]
