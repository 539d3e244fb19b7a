-- ===== src/Storage/Volumes.antt =====
-- `LocalStorageBackend` of crates/picloud-storage/src/implementation.rs, with the storage intent of
-- crates/picloud-domain/src/storage.rs. What stands under the base path is a map from device paths to
-- what they hold; whether the file system refuses a call is an argument.
pub mod Capacity
pub mod Names
use picloud.Prelude.{
  ℕ, ◌+◌, ◌-◌, ◌*◌, ◌/◌, ◌%◌, ◌^◌, Bool, true, false, Option, none, some, List, [], ◌∷◌, ◌++◌, map,
  take, length, ltb, if◌then◌else◌,
}
use picloud.Prelude.Equality.{nat_eq, list_eq}
use picloud.Prelude.HashMap
use picloud.Prelude.HashMap.{HashMap, values}
use picloud.Prelude.Texts.{Text, codes, last_piece}
use picloud.Domain.Error.{
  Result, ok, err, ◌>>=◌, PiCloudError, insufficient_capacity, internal, volume_io_failed,
  resource_not_found,
}
use picloud.Domain.Events.{Uuid}
use picloud.Domain.Iri.{ResourceIri}

pub data DurabilityTier : Type 0 where
  full_replication quorum local no_persistence : DurabilityTier

pub data PerformanceTier : Type 0 where
  standard fast archive : PerformanceTier

-- The snapshot and backup settings of an intent play no part in the allocation and are left out.
pub record StorageIntent : Type 0 where
  pub durability : DurabilityTier
  pub performance : PerformanceTier

pub data VolumeType : Type 0 where
  mounted raw_block : VolumeType

pub record VolumeRecord : Type 0 where
  pub volume_iri : Text
  pub size_gb : ℕ
  pub device_path : Text
  pub storage_intent : StorageIntent

-- A directory with its contents, or a file of a size with what was written to it.
pub data Device : Type 0 where
  directory : Text → Device
  block : ℕ → Text → Device

pub record LocalStorageBackend : Type 0 where
  pub base_path : Text
  pub node_id : Uuid
  pub total_capacity_gb : ℕ
  pub volumes : HashMap Text VolumeRecord
  pub devices : HashMap Text Device
  -- The members of the cluster, where it has a membership that answers.
  pub cluster_membership : Option (Result (List Uuid))

pub record VolumeHandle : Type 0 where
  pub volume_iri : ResourceIri
  pub device_path : Text
  pub replicated_to : List Uuid

unfoldable pub volume_name_from_iri : ResourceIri → Text
unfolding last_piece
volume_name_from_iri iri = last_piece b'/' iri

abbrev pub sum_sizes : List VolumeRecord → ℕ
sum_sizes [] = 0
sum_sizes (v ∷ vs) = v.size_gb + sum_sizes vs

unfoldable pub allocated_gb : LocalStorageBackend → ℕ
allocated_gb b = sum_sizes (values b.volumes)

unfoldable pub available_capacity_gb : LocalStorageBackend → ℕ
unfolding allocated_gb
available_capacity_gb b = b.total_capacity_gb - allocated_gb b

abbrev join_path : Text → Text → Text
join_path base name = base ++ (b'/' ∷ name)

unfoldable pub device_path_of : VolumeType → ResourceIri → LocalStorageBackend → Text
unfolding volume_name_from_iri
device_path_of mounted iri b = join_path b.base_path (volume_name_from_iri iri)
device_path_of raw_block iri b =
    join_path (join_path b.base_path (codes "block")) (volume_name_from_iri iri)

abbrev size_bytes : ℕ → ℕ
size_bytes size_gb = (size_gb * 1073741824) % 2 ^ 64

-- `create_dir_all` leaves a directory that is there alone; `File::create` empties a file.
abbrev pub make_device : VolumeType → ℕ → Option Device → Device
make_device mounted size_gb none = directory []
make_device mounted size_gb (some d) = d
make_device raw_block size_gb o = block (size_bytes size_gb) []

abbrev pub members_or : Uuid → (List Uuid → List Uuid) → Option (Result (List Uuid)) → List Uuid
members_or node_id f none = node_id ∷ []
members_or node_id f (some (err e)) = node_id ∷ []
members_or node_id f (some (ok members)) = f members

unfoldable pub replicated_to : DurabilityTier → LocalStorageBackend → List Uuid
replicated_to full_replication b = members_or b.node_id (λ ms. ms) b.cluster_membership
replicated_to quorum b =
    members_or b.node_id (λ ms. take (length ms / 2 + 1) ms) b.cluster_membership
replicated_to local b = b.node_id ∷ []
replicated_to no_persistence b = b.node_id ∷ []

-- The test of the capacity, which reads the volumes under a lock of its own.
unfoldable pub check_capacity : ℕ → LocalStorageBackend → Result (Unit {0})
unfolding available_capacity_gb
check_capacity size_gb b =
    let available = available_capacity_gb b in
    if ltb available size_gb then err (insufficient_capacity size_gb available) else ok tt

-- How the making of the device ends: it is there; the file system refuses to make it; or the file is
-- made and `set_len` fails.
pub data Making : Type 0 where
  made not_made not_sized : Making

abbrev put_device : Text → Device → LocalStorageBackend → LocalStorageBackend
put_device path d b = record b { devices = HashMap.insert b.devices path d }

abbrev record_volume :
    ResourceIri
    → ℕ
    → StorageIntent
    → Text
    → LocalStorageBackend
    → Result VolumeHandle × LocalStorageBackend
record_volume iri size_gb intent path b =
    let stored : VolumeRecord = record {
      volume_iri = iri;
      size_gb = size_gb;
      device_path = path;
      storage_intent = intent;
    } in
    (
      ok (record {
        volume_iri = iri;
        device_path = path;
        replicated_to = replicated_to intent.durability b;
      }),
      record b { volumes = HashMap.insert b.volumes iri stored },
    )

-- `File::create` has emptied the file by the time `set_len` fails; a directory has no size to set.
abbrev pub unsized_device : VolumeType → Text → LocalStorageBackend → LocalStorageBackend
unsized_device mounted path b = b
unsized_device raw_block path b = put_device path (block 0 []) b

-- What follows a test that passed: the device is made, and the record is written, under the second of
-- the two locks that an allocation takes.
unfoldable pub place_volume :
    Making
    → ResourceIri
    → ℕ
    → StorageIntent
    → VolumeType
    → LocalStorageBackend
    → Result VolumeHandle × LocalStorageBackend
unfolding device_path_of replicated_to
place_volume not_made iri size_gb intent kind b = (err (internal volume_io_failed), b)
place_volume not_sized iri size_gb intent kind b =
    (err (internal volume_io_failed), unsized_device kind (device_path_of kind iri b) b)
place_volume made iri size_gb intent kind b =
    let path = device_path_of kind iri b in
    record_volume iri size_gb intent path
      (put_device path (make_device kind size_gb (HashMap.get b.devices path)) b)

abbrev pub allocate_after :
    Result (Unit {0})
    → Making
    → ResourceIri
    → ℕ
    → StorageIntent
    → VolumeType
    → LocalStorageBackend
    → Result VolumeHandle × LocalStorageBackend
allocate_after (err e) making iri size_gb intent kind b = (err e, b)
allocate_after (ok u) making iri size_gb intent kind b =
    place_volume making iri size_gb intent kind b

-- An allocation that nothing comes between: the test under the first lock, then the record under the
-- second. Two allocations that both test first are two calls of `check_capacity` and then two of
-- `place_volume`.
unfoldable pub allocate_volume :
    Making
    → ResourceIri
    → ℕ
    → StorageIntent
    → VolumeType
    → LocalStorageBackend
    → Result VolumeHandle × LocalStorageBackend
unfolding check_capacity place_volume
allocate_volume making iri size_gb intent kind b =
    allocate_after (check_capacity size_gb b) making iri size_gb intent kind b

abbrev pub remove_device :
    Bool → Text → Option Device → LocalStorageBackend → Result (Unit {0}) × LocalStorageBackend
remove_device refused path none b = (ok tt, b)
remove_device true path (some d) b = (err (internal volume_io_failed), b)
remove_device false path (some d) b = (ok tt, record b { devices = HashMap.remove b.devices path })

abbrev pub delete_record :
    Bool
    → ResourceIri
    → Option VolumeRecord
    → LocalStorageBackend
    → Result (Unit {0}) × LocalStorageBackend
delete_record refused iri none b = (err (resource_not_found iri), b)
delete_record refused iri (some v) b =
    remove_device refused v.device_path (HashMap.get b.devices v.device_path)
      (record b { volumes = HashMap.remove b.volumes iri })

-- The record goes before the device.
unfoldable pub delete_volume :
    Bool → ResourceIri → LocalStorageBackend → Result (Unit {0}) × LocalStorageBackend
delete_volume refused iri b = delete_record refused iri (HashMap.get b.volumes iri) b
