-- ===== src/Storage/Snapshots/Copies.antt =====
-- What creating and restoring a snapshot does to the files of a volume.
use picloud.Prelude.{
  ℕ, zero, suc, ◌+◌, ◌≤◌, ◌<◌, ◌≡◌, ◌≢◌, refl, ap, ◌∙◌, inl, inr, true, false, Option, none, some,
  [], ◌∷◌, length, leb, if◌then◌else◌, ◌==◌, arith, ==_iff, Bool-cases,
}
use picloud.Prelude.Equality.{nat_eq, list_eq}
use picloud.Prelude.HashMap
use picloud.Prelude.HashMap.{HashMap, get-insert, get-insert_self, get-insert_ne}
use picloud.Prelude.Texts.{Text}
use picloud.Domain.Error.{ok}
use picloud.Domain.Iri.{ResourceIri}
use picloud.Storage.Snapshots.{
  Files, VolumeDir, copy_dir_all, first_free, unique_time, snapshot_of, create_snapshot_at,
  restored, restore_snapshot, restored_to, restore_snapshot_to_new_volume, files_or_none,
}

-- The first of two files, where it is there.
abbrev or_file : Option Text → Option Text → Option Text
or_file none other = other
or_file (some content) other = some content

or_none_twice : (o : Option Text) → or_file (or_file o none) none ≡ o
or_none_twice none = refl
or_none_twice (some content) = refl

get-copy_dir_all :
    (src dst : Files) (path : Text)
    → HashMap.get (copy_dir_all src dst) path
      ≡ or_file (HashMap.get src path) (HashMap.get dst path)
unfolding copy_dir_all HashMap.get
get-copy_dir_all [] dst path = refl
get-copy_dir_all ((p, content) ∷ src) dst path =
    get-insert (copy_dir_all src dst) p path content ∙ ground (arith, get-copy_dir_all src dst path)

-- How many snapshots are at `at` or later.
abbrev since : ℕ → HashMap ℕ Files → ℕ
since at [] = 0
since at ((t, f) ∷ m) = (if leb at t then 1 else 0) + since at m

since-le : (at : ℕ) (m : HashMap ℕ Files) → since at m ≤ length m
since-le at [] = omega arith
since-le at ((t, f) ∷ m) = ground (arith, since-le at m)

since_mono : (at : ℕ) (m : HashMap ℕ Files) → since (at + 1) m ≤ since at m
since_mono at [] = omega arith
since_mono at ((t, f) ∷ m) = ground (arith, since_mono at m)

since-next :
    (at : ℕ) (m : HashMap ℕ Files)
    → HashMap.contains_key m at ≡ true
    → since (at + 1) m < since at m
unfolding HashMap.contains_key
since-next at [] h = absurd (ground arith)
since-next at ((t, f) ∷ m) h = elim (Bool-cases (t == at)) [
  | inl e ↦ let same : t ≡ at = (==_iff t at).0 e in ground (arith, same, since_mono at m)
  | inr e ↦ ground (arith, e, since-next at m (ground (arith, e)))
]

first_free_lem :
    (fuel at : ℕ) (m : HashMap ℕ Files)
    → since at m < fuel
    → (at ≤ first_free fuel at m) × (HashMap.contains_key m (first_free fuel at m) ≡ false)
unfolding first_free
first_free_lem zero at m h = absurd (omega arith)
first_free_lem (suc fuel) at m h = elim (Bool-cases (HashMap.contains_key m at)) [
  | inr free ↦ ground (arith, free)
  | inl taken ↦
      let ih = first_free_lem fuel (at + 1) m (omega (arith, since-next at m taken)) in
      ground (arith, taken, ih.0, ih.1)
]

-- The search for a time that no snapshot has ends: with one more try than there are snapshots it finds
-- one, at or after the time that was asked for.
unique_time_free :
    (at : ℕ) (m : HashMap ℕ Files)
    → (at ≤ unique_time at m) × (HashMap.contains_key m (unique_time at m) ≡ false)
unique_time_free at m = first_free_lem (length m + 1) at m (omega (arith, since-le at m))

-- The same files under the same paths.
abbrev pub SameFiles : Files → Files → Type 0
SameFiles a b = (path : Text) → HashMap.get a path ≡ HashMap.get b path

-- A snapshot of a volume that is there succeeds, at a time that no other has, at or after the one asked
-- for; it leaves the volume and every other snapshot alone. Whatever became of the volume meanwhile,
-- where the snapshot is still there a restore gives the files back that the volume had, and no other.
pub restore-create :
    (iri : ResourceIri) (at : ℕ) (d : VolumeDir) (files : Files)
    → d.volume ≡ some files
    → let (r, after) = create_snapshot_at iri at d in
      let ts = unique_time at d.snapshots in
      (r ≡ ok (record { volume_iri = iri; created_at = ts }))
      × (at ≤ ts)
      × (HashMap.contains_key d.snapshots ts ≡ false)
      × (after.volume ≡ some files)
      × ((j : ℕ) → ts ≢ j → HashMap.get after.snapshots j ≡ HashMap.get d.snapshots j)
      × ((later : VolumeDir)
          → HashMap.get later.snapshots ts ≡ HashMap.get after.snapshots ts
          → ((restore_snapshot iri ts later).0 ≡ ok tt)
            × SameFiles (files_or_none (restore_snapshot iri ts later).1.volume) files)
unfolding create_snapshot_at restore_snapshot HashMap.get
restore-create iri at d files there =
    let ts = unique_time at d.snapshots in
    let free = unique_time_free at d.snapshots in
    let copy = copy_dir_all files [] in
    let made : create_snapshot_at iri at d ≡ (
      ok (record { volume_iri = iri; created_at = ts }),
      record d { snapshots = HashMap.insert d.snapshots ts copy },
    ) =
      ap (λ o. snapshot_of iri at o d) there in
    (
      ap (λ x. x.0) made,
      free.0,
      free.1,
      ap (λ x. x.1.volume) made ∙ there,
      λ j ne. ap (λ x. HashMap.get x.1.snapshots j) made ∙ get-insert_ne d.snapshots ts j copy ne,
      λ later kept.
          let found : HashMap.get later.snapshots ts ≡ some copy =
            kept
            ∙ ap (λ x. HashMap.get x.1.snapshots ts) made
            ∙ get-insert_self d.snapshots ts copy in
          let back = ap (λ o. restored iri o later) found in
          (
            ap (λ x. x.0) back,
            λ path.
                ap (λ x. HashMap.get (files_or_none x.1.volume) path) back
                ∙ get-copy_dir_all copy [] path
                ∙ ap (λ o. or_file o none) (get-copy_dir_all files [] path)
                ∙ or_none_twice (HashMap.get files path),
          ),
    )

-- Restoring to another volume does not clear it: a file of the target that the snapshot does not have
-- is still there afterwards, beside those of the snapshot.
restore_to_merges :
    (iri : ResourceIri) (ts : ℕ) (source target : VolumeDir) (files : Files)
    → HashMap.get source.snapshots ts ≡ some files
    → let (r, after) = restore_snapshot_to_new_volume iri ts source target in
      (r ≡ ok tt)
      × ((path : Text)
          → HashMap.get (files_or_none after.volume) path
            ≡ or_file (HashMap.get files path) (HashMap.get (files_or_none target.volume) path))
unfolding restore_snapshot_to_new_volume
restore_to_merges iri ts source target files found =
    let back = ap (λ o. restored_to iri o target) found in
    (
      ap (λ x. x.0) back,
      λ path.
          ap (λ x. HashMap.get (files_or_none x.1.volume) path) back
          ∙ get-copy_dir_all files (files_or_none target.volume) path,
    )
