-- ===== src/Storage/Snapshots.antt =====
-- `LocalSnapshotManager` and `SnapshotScheduler` of crates/picloud-storage/src/implementation.rs, for
-- the directory of one volume name. A snapshot directory is named by its time, in microseconds, by a
-- format that is read back, so it is its time here. Files are a map from paths, flat; the calls of the
-- file system succeed, and sizes are left out.
pub mod Listing
pub mod Retention
pub mod Copies
pub mod Scheduling
use picloud.Prelude.{
  ℕ, zero, suc, ◌+◌, ◌*◌, Bool, true, false, ◌||◌, Option, none, some, List, [], ◌∷◌, length, take,
  drop, leb, if◌then◌else◌, nat_beq, not,
}
use picloud.Prelude.Equality.{nat_eq, list_eq}
use picloud.Prelude.HashMap
use picloud.Prelude.HashMap.{HashMap, keys}
use picloud.Prelude.Texts.{Text}
use picloud.Domain.Error.{Result, ok, err, ◌>>=◌, resource_not_found}
use picloud.Domain.Iri.{ResourceIri}

abbrev pub Files : Type 0
Files = HashMap Text Text

-- The volume's directory, if it is there, and its snapshots by their time.
pub record VolumeDir : Type 0 where
  pub volume : Option Files
  pub snapshots : HashMap ℕ Files

-- `copy_dir_all`: a file that is there already is overwritten, and any other is left.
unfoldable pub copy_dir_all : Files → Files → Files
copy_dir_all [] dst = dst
copy_dir_all ((path, content) ∷ src) dst = HashMap.insert (copy_dir_all src dst) path content

-- The loop that moves a time on until no snapshot has it, on fuel.
unfoldable pub first_free : ℕ → ℕ → HashMap ℕ Files → ℕ
first_free zero ts snapshots = ts
first_free (suc fuel) ts snapshots =
    let later = first_free fuel (ts + 1) snapshots in
    if HashMap.contains_key snapshots ts then later else ts

-- There are at most as many times that are taken as snapshots.
abbrev pub unique_time : ℕ → HashMap ℕ Files → ℕ
unique_time at_time snapshots = first_free (length snapshots + 1) at_time snapshots

pub record SnapshotInfo : Type 0 where
  pub volume_iri : ResourceIri
  pub created_at : ℕ

abbrev pub snapshot_of :
    ResourceIri → ℕ → Option Files → VolumeDir → Result SnapshotInfo × VolumeDir
snapshot_of iri at_time none d = (err (resource_not_found iri), d)
snapshot_of iri at_time (some files) d =
    let ts = unique_time at_time d.snapshots in
    (
      ok (record { volume_iri = iri; created_at = ts }),
      record d { snapshots = HashMap.insert d.snapshots ts (copy_dir_all files []) },
    )

unfoldable pub create_snapshot_at : ResourceIri → ℕ → VolumeDir → Result SnapshotInfo × VolumeDir
unfolding first_free copy_dir_all
create_snapshot_at iri at_time d = snapshot_of iri at_time d.volume d

-- `sort_by`, the newest first.
unfoldable pub insert_desc : ℕ → List ℕ → List ℕ
insert_desc t [] = t ∷ []
insert_desc t (u ∷ us) = if leb u t then t ∷ u ∷ us else u ∷ insert_desc t us

unfoldable pub sort_desc : List ℕ → List ℕ
unfolding insert_desc
sort_desc [] = []
sort_desc (t ∷ ts) = insert_desc t (sort_desc ts)

-- The times of the snapshots.
unfoldable pub list_snapshots : VolumeDir → List ℕ
unfolding sort_desc
list_snapshots d = sort_desc (keys d.snapshots)

abbrev pub restored : ResourceIri → Option Files → VolumeDir → Result (Unit {0}) × VolumeDir
restored iri none d = (err (resource_not_found iri), d)
restored iri (some files) d = (ok tt, record d { volume = some (copy_dir_all files []) })

-- The volume is cleared first.
unfoldable pub restore_snapshot : ResourceIri → ℕ → VolumeDir → Result (Unit {0}) × VolumeDir
unfolding copy_dir_all
restore_snapshot iri ts d = restored iri (HashMap.get d.snapshots ts) d

abbrev pub files_or_none : Option Files → Files
files_or_none none = []
files_or_none (some files) = files

abbrev pub restored_to : ResourceIri → Option Files → VolumeDir → Result (Unit {0}) × VolumeDir
restored_to iri none target = (err (resource_not_found iri), target)
restored_to iri (some files) target =
    (ok tt, record target { volume = some (copy_dir_all files (files_or_none target.volume)) })

-- The volume that is restored to is not cleared.
unfoldable pub restore_snapshot_to_new_volume :
    ResourceIri → ℕ → VolumeDir → VolumeDir → Result (Unit {0}) × VolumeDir
unfolding copy_dir_all
restore_snapshot_to_new_volume iri ts source target =
    restored_to iri (HashMap.get source.snapshots ts) target

unfoldable pub delete_snapshot : ResourceIri → ℕ → VolumeDir → Result (Unit {0}) × VolumeDir
delete_snapshot iri ts d =
    if HashMap.contains_key d.snapshots ts
    then (ok tt, record d { snapshots = HashMap.remove d.snapshots ts })
    else (err (resource_not_found iri), d)

abbrev pub chosen :
    Result (Unit {0}) → Result (Unit {0}) × VolumeDir → VolumeDir → Result (Unit {0}) × VolumeDir
chosen (ok u) others after = others
chosen (err e) others after = (err e, after)

-- The loop over the snapshots to delete; the first error ends it.
unfoldable pub delete_all : ResourceIri → List ℕ → VolumeDir → Result (Unit {0}) × VolumeDir
unfolding delete_snapshot
delete_all iri [] d = (ok tt, d)
delete_all iri (ts ∷ rest) d =
    chosen (delete_snapshot iri ts d).0 (delete_all iri rest (delete_snapshot iri ts d).1)
      (delete_snapshot iri ts d).1

abbrev pub counted : ℕ → Result (Unit {0}) × VolumeDir → Result ℕ × VolumeDir
counted n (ok u, d) = (ok n, d)
counted n (err e, d) = (err e, d)

pub record SnapshotRetention : Type 0 where
  pub daily : ℕ
  pub weekly : ℕ
  pub monthly : ℕ

unfoldable pub enforce_retention :
    ResourceIri → SnapshotRetention → VolumeDir → Result ℕ × VolumeDir
unfolding list_snapshots delete_all
enforce_retention iri retention d =
    let snapshots = list_snapshots d in
    let max_keep = retention.daily in
    let to_delete = drop max_keep snapshots in
    if nat_beq max_keep 0 || leb (length snapshots) max_keep
    then (ok 0, d)
    else counted (length to_delete) (delete_all iri to_delete d)

pub data SnapshotSchedule : Type 0 where
  hourly daily weekly : SnapshotSchedule

-- In microseconds.
abbrev pub interval_of : SnapshotSchedule → ℕ
interval_of hourly = 3600000000
interval_of daily = 86400000000
interval_of weekly = 604800000000

unfoldable pub is_due : SnapshotSchedule → Option ℕ → ℕ → Bool
is_due schedule none now = true
is_due schedule (some last) now = leb (last + interval_of schedule) now

pub record SnapshotConfig : Type 0 where
  pub enabled : Bool
  pub schedule : SnapshotSchedule
  pub storage_secret : Text
  pub retention : SnapshotRetention

-- The scheduler's last runs, with the directory that it works on.
pub record SnapshotScheduler : Type 0 where
  pub last_run : HashMap Text ℕ
  pub directory : VolumeDir

abbrev pub first : List ℕ → Option ℕ
first [] = none
first (t ∷ ts) = some t

abbrev pub last_or_listed : Option ℕ → VolumeDir → Option ℕ
last_or_listed (some t) d = some t
last_or_listed none d = first (list_snapshots d)

abbrev pub retained :
    SnapshotInfo
    → HashMap Text ℕ
    → Result ℕ × VolumeDir
    → Result (Option SnapshotInfo) × SnapshotScheduler
retained info last_run (ok n, d) = (ok (some info), record { last_run = last_run; directory = d })
retained info last_run (err e, d) = (err e, record { last_run = last_run; directory = d })

abbrev pub after_snapshot :
    ResourceIri
    → SnapshotConfig
    → HashMap Text ℕ
    → Result SnapshotInfo × VolumeDir
    → Result (Option SnapshotInfo) × SnapshotScheduler
after_snapshot iri config last_run (err e, d) =
    (err e, record { last_run = last_run; directory = d })
after_snapshot iri config last_run (ok info, d) =
    retained info (HashMap.insert last_run iri info.created_at)
      (enforce_retention iri config.retention d)

unfoldable pub run_once :
    ResourceIri
    → SnapshotConfig
    → ℕ
    → SnapshotScheduler
    → Result (Option SnapshotInfo) × SnapshotScheduler
unfolding is_due create_snapshot_at enforce_retention list_snapshots
run_once iri config now s =
    let last = last_or_listed (HashMap.get s.last_run iri) s.directory in
    if not config.enabled
    then (ok none, s)
    else if not (is_due config.schedule last now)
    then (ok none, s)
    else after_snapshot iri config s.last_run (create_snapshot_at iri now s.directory)
