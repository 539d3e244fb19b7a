-- ===== src/Storage/Tests.antt =====
-- Runs of the storage backend and the snapshot manager.
use picloud.Prelude.{
  ℕ, ◌+◌, ◌-◌, ◌≤◌, ◌<◌, ◌≡◌, ◌≢◌, refl, false, none, some, [], ◌∷◌, take, length, if◌then◌else◌,
  contains, arith, ==_iff,
}
use picloud.Prelude.Equality.{nat_eq, list_eq}
use mathlib.Core.Bool.{false≢true}
use picloud.Prelude.HashMap
use picloud.Prelude.Texts.{Text, codes}
use picloud.Domain.Error.{ok, err, insufficient_capacity}
use picloud.Storage.Volumes.{
  made, LocalStorageBackend, StorageIntent, quorum, standard, mounted, raw_block, VolumeRecord,
  VolumeHandle, allocate_volume, delete_volume, allocated_gb, make_device, volume_name_from_iri,
}
use picloud.Storage.Volumes.Capacity.{IsWithin, capacity_kept}
use picloud.Storage.Volumes.Names.{volume_names_collide}
use picloud.Storage.Snapshots.{
  Files, VolumeDir, create_snapshot_at, unique_time, restore_snapshot, files_or_none,
  list_snapshots, enforce_retention, SnapshotRetention,
}
use picloud.Storage.Snapshots.Listing.{IsDescending, IsDistinct}
use picloud.Storage.Snapshots.Retention.{enforce_retention_lem}
use picloud.Storage.Snapshots.Copies.{SameFiles, restore-create}

abbrev intent : StorageIntent
intent = record { durability = quorum; performance = standard }

abbrev backend : LocalStorageBackend
backend = record {
  base_path = codes "/v";
  node_id = 1;
  total_capacity_gb = 10;
  volumes = [];
  devices = [];
  cluster_membership = none;
}

capacity_example :
    IsWithin (allocate_volume made (codes "p/data") 20 intent mounted backend).1
    × IsWithin (delete_volume false (codes "p/data") backend).1
    × ((available : ℕ)
        → (allocate_volume made (codes "p/data") 20 intent mounted backend).0
          ≡ err (insufficient_capacity 20 available)
        → (available + allocated_gb backend ≡ 10) × (available < 20))
unfolding allocated_gb
capacity_example = capacity_kept made false (codes "p/data") 20 intent mounted backend (omega arith)

abbrev handle : Text → VolumeHandle
handle iri = record {
  volume_iri = iri;
  device_path = codes "/v/block/data";
  replicated_to = 1 ∷ [];
}

apart : codes "p/data" ≢ codes "q/data"
apart h = false≢true ((==_iff (codes "p/data") (codes "q/data")).1 h)

names_example :
    let one = (allocate_volume made (codes "p/data") 2 intent raw_block backend).1 in
    let two = (allocate_volume made (codes "q/data") 3 intent raw_block one).1 in
    let (r, after) = delete_volume false (codes "p/data") two in
    (r ≡ ok tt)
    × ((v : VolumeRecord) × (HashMap.get after.volumes (codes "q/data") ≡ some v)
        × (HashMap.get after.devices v.device_path ≡ none)
        × (HashMap.get two.devices v.device_path
            ≡ some (make_device raw_block 3 (HashMap.get one.devices v.device_path))))
unfolding allocate_volume volume_name_from_iri HashMap.insert
names_example =
    volume_names_collide (codes "p/data") (codes "q/data") 2 3 intent intent raw_block backend
      (handle (codes "p/data")) (handle (codes "q/data")) apart refl refl refl

abbrev files : Files
files = (codes "x", codes "1") ∷ []

abbrev directory : VolumeDir
directory = record { volume = some files; snapshots = (30, []) ∷ (20, []) ∷ (40, []) ∷ [] }

abbrev keep : SnapshotRetention
keep = record { daily = 2; weekly = 0; monthly = 0 }

retention_example :
    let (r, after) = enforce_retention (codes "p/data") keep directory in
    let listing = list_snapshots directory in
    IsDescending listing
    × IsDistinct listing
    × ((j : ℕ) → contains listing j ≡ HashMap.contains_key directory.snapshots j)
    × (r ≡ ok (length listing - 2))
    × ((j : ℕ)
        → HashMap.get after.snapshots j
          ≡ (if contains (take 2 listing) j then HashMap.get directory.snapshots j else none))
unfolding HashMap.contains_key
retention_example =
    enforce_retention_lem (codes "p/data") keep directory (omega arith) (refl, (refl, (refl, tt)))

snapshot_example :
    let (r, after) = create_snapshot_at (codes "p/data") 30 directory in
    let ts = unique_time 30 directory.snapshots in
    (r ≡ ok (record { volume_iri = codes "p/data"; created_at = ts }))
    × (30 ≤ ts)
    × (HashMap.contains_key directory.snapshots ts ≡ false)
    × (after.volume ≡ some files)
    × ((j : ℕ) → ts ≢ j → HashMap.get after.snapshots j ≡ HashMap.get directory.snapshots j)
    × ((later : VolumeDir)
        → HashMap.get later.snapshots ts ≡ HashMap.get after.snapshots ts
        → ((restore_snapshot (codes "p/data") ts later).0 ≡ ok tt)
          × SameFiles (files_or_none (restore_snapshot (codes "p/data") ts later).1.volume) files)
snapshot_example = restore-create (codes "p/data") 30 directory files refl
