-- ===== src/Storage/Volumes/Capacity.antt =====
-- The capacity of a node, and how many nodes hold a volume.
use picloud.Prelude.{
  ℕ, zero, suc, ◌+◌, ◌*◌, ◌/◌, ◌≤◌, ◌<◌, ◌≡◌, ◌≢◌, refl, ap, ◌∙◌, inl, inr, Bool, true, false,
  Option, none, some, List, [], ◌∷◌, length, take, ◌==◌, arith, ==_iff, Bool-cases,
}
use picloud.Prelude.Equality.{nat_eq, list_eq}
use picloud.Prelude.HashMap
use picloud.Prelude.HashMap.{HashMap, values, contains_key-insert}
use picloud.Prelude.Texts.{Text}
use picloud.Domain.Error.{Result, ok, err, insufficient_capacity}
use picloud.Domain.Events.{Uuid}
use picloud.Domain.Iri.{ResourceIri}
use picloud.Storage.Volumes.{
  Making, made, not_made, not_sized, mounted, raw_block, LocalStorageBackend, VolumeRecord,
  StorageIntent, VolumeType, Device, sum_sizes, allocated_gb, available_capacity_gb, check_capacity,
  place_volume, allocate_after, allocate_volume, remove_device, delete_record, delete_volume,
  full_replication, quorum, replicated_to, members_or,
}

abbrev pub IsWithin : LocalStorageBackend → Type 0
IsWithin b = allocated_gb b ≤ b.total_capacity_gb

abbrev sizes : HashMap Text VolumeRecord → ℕ
sizes m = sum_sizes (values m)

-- An insert adds at most the size of its record, and just that where the key is new.
sizes-insert :
    (m : HashMap Text VolumeRecord) (k : Text) (v : VolumeRecord)
    → (sizes (HashMap.insert m k v) ≤ sizes m + v.size_gb)
      × (HashMap.contains_key m k ≡ false → sizes (HashMap.insert m k v) ≡ sizes m + v.size_gb)
unfolding HashMap.insert HashMap.contains_key
sizes-insert [] k v = (omega arith, λ h. omega arith)
sizes-insert ((j, w) ∷ m) k v = elim (Bool-cases (j == k)) [
  | inl e ↦ (ground (arith, e), λ h. absurd (ground (arith, e)))
  | inr e ↦
      let ih = sizes-insert m k v in
      (ground (arith, e, ih.0), λ h. ground (arith, e, ih.1 (ground (arith, e))))
]

sizes-remove : (m : HashMap Text VolumeRecord) (k : Text) → sizes (HashMap.remove m k) ≤ sizes m
unfolding HashMap.remove
sizes-remove [] k = omega arith
sizes-remove ((j, w) ∷ m) k = ground (arith, sizes-remove m k)

place-allocated :
    (making : Making) (iri : ResourceIri) (size_gb : ℕ) (intent : StorageIntent) (kind : VolumeType)
    → (b : LocalStorageBackend)
    → (allocated_gb (place_volume making iri size_gb intent kind b).1 ≤ allocated_gb b + size_gb)
      × ((place_volume making iri size_gb intent kind b).1.total_capacity_gb ≡ b.total_capacity_gb)
unfolding place_volume allocated_gb
place-allocated not_made iri size_gb intent kind b = (omega arith, refl)
place-allocated not_sized iri size_gb intent mounted b = (omega arith, refl)
place-allocated not_sized iri size_gb intent raw_block b = (omega arith, refl)
place-allocated made iri size_gb intent kind b = ((sizes-insert b.volumes iri _).0, refl)

allocate_after-IsWithin :
    (r : Result (Unit {0})) (making : Making) (iri : ResourceIri) (size_gb : ℕ)
    → (intent : StorageIntent) (kind : VolumeType) (b : LocalStorageBackend)
    → (r ≡ ok tt → size_gb + allocated_gb b ≤ b.total_capacity_gb)
    → IsWithin b
    → IsWithin (allocate_after r making iri size_gb intent kind b).1
allocate_after-IsWithin (err e) making iri size_gb intent kind b h w = w
allocate_after-IsWithin (ok tt) making iri size_gb intent kind b h w =
    let p = place-allocated making iri size_gb intent kind b in omega (arith, p, h refl)

check_capacity_ok :
    (size_gb : ℕ) (b : LocalStorageBackend)
    → IsWithin b
    → check_capacity size_gb b ≡ ok tt
    → size_gb + allocated_gb b ≤ b.total_capacity_gb
unfolding check_capacity available_capacity_gb
check_capacity_ok size_gb b w h = ground arith

removed-IsWithin :
    (refused : Bool) (path : Text) (o : Option Device) (b : LocalStorageBackend)
    → IsWithin b
    → IsWithin (remove_device refused path o b).1
unfolding allocated_gb
removed-IsWithin refused path none b w = w
removed-IsWithin true path (some d) b w = w
removed-IsWithin false path (some d) b w = w

delete_record-IsWithin :
    (refused : Bool) (iri : ResourceIri) (o : Option VolumeRecord) (b : LocalStorageBackend)
    → IsWithin b
    → IsWithin (delete_record refused iri o b).1
unfolding allocated_gb
delete_record-IsWithin refused iri none b w = w
delete_record-IsWithin refused iri (some v) b w =
    let q = record b { volumes = HashMap.remove b.volumes iri } in
    let fewer = sizes-remove b.volumes iri in
    removed-IsWithin refused v.device_path (HashMap.get b.devices v.device_path) q
      (omega (arith, fewer))

refused_lem :
    (making : Making) (iri : ResourceIri) (size_gb available : ℕ) (intent : StorageIntent)
    → (kind : VolumeType) (b : LocalStorageBackend) → IsWithin b
    → (allocate_volume making iri size_gb intent kind b).0
      ≡ err (insufficient_capacity size_gb available)
    → (available + allocated_gb b ≡ b.total_capacity_gb) × (available < size_gb)
unfolding allocate_volume check_capacity place_volume available_capacity_gb
refused_lem not_made iri size_gb available intent kind b w h = ground arith
refused_lem not_sized iri size_gb available intent kind b w h = ground arith
refused_lem made iri size_gb available intent kind b w h = ground arith

-- Where what is allocated is within the capacity: an allocation that no other call comes between,
-- from its test to its record, and a deletion, whatever the file system refuses, keep it within the
-- capacity; and such an allocation that is refused for the capacity asked for more than was left.
pub capacity_kept :
    (making : Making) (refused : Bool) (iri : ResourceIri) (size_gb : ℕ) (intent : StorageIntent)
    → (kind : VolumeType) (b : LocalStorageBackend) → IsWithin b
    → IsWithin (allocate_volume making iri size_gb intent kind b).1
      × IsWithin (delete_volume refused iri b).1
      × ((available : ℕ)
          → (allocate_volume making iri size_gb intent kind b).0
            ≡ err (insufficient_capacity size_gb available)
          → (available + allocated_gb b ≡ b.total_capacity_gb) × (available < size_gb))
unfolding allocate_volume delete_volume
capacity_kept making refused iri size_gb intent kind b w = (
  allocate_after-IsWithin (check_capacity size_gb b) making iri size_gb intent kind b
      (check_capacity_ok size_gb b w) w,
  delete_record-IsWithin refused iri (HashMap.get b.volumes iri) b w,
  λ available h. refused_lem making iri size_gb available intent kind b w h,
)

place-new :
    (i : ResourceIri) (m : ℕ) (intent : StorageIntent) (kind : VolumeType)
    → (b : LocalStorageBackend) → HashMap.contains_key b.volumes i ≡ false
    → (allocated_gb (place_volume made i m intent kind b).1 ≡ allocated_gb b + m)
      × ((place_volume made i m intent kind b).1.total_capacity_gb ≡ b.total_capacity_gb)
unfolding place_volume allocated_gb
place-new i m intent kind b new = ((sizes-insert b.volumes i _).1 new, refl)

place-other :
    (i j : ResourceIri) (m : ℕ) (intent : StorageIntent) (kind : VolumeType)
    → (b : LocalStorageBackend) → i ≢ j
    → HashMap.contains_key b.volumes j ≡ false
    → HashMap.contains_key (place_volume made i m intent kind b).1.volumes j ≡ false
unfolding place_volume
place-other i j m intent kind b ne new =
    contains_key-insert b.volumes i j _ ∙ ground (arith, ==_iff i j, new)

-- The test and the record are not one step: where two new volumes are each within what is left but not
-- both, two allocations that both test before either records leave more allocated than the node has.
allocate_race :
    (i j : ResourceIri) (m n : ℕ) (intent : StorageIntent) (kind : VolumeType)
    → (b : LocalStorageBackend) → i ≢ j
    → HashMap.contains_key b.volumes i ≡ false
    → HashMap.contains_key b.volumes j ≡ false
    → check_capacity m b ≡ ok tt
    → check_capacity n b ≡ ok tt
    → available_capacity_gb b < m + n
    → let after = (place_volume made j n intent kind (place_volume made i m intent kind b).1).1 in
      after.total_capacity_gb < allocated_gb after
unfolding available_capacity_gb
allocate_race i j m n intent kind b ne newi newj oki okj short =
    let first = (place_volume made i m intent kind b).1 in
    let one = place-new i m intent kind b newi in
    let other : HashMap.contains_key first.volumes j ≡ false =
      place-other i j m intent kind b ne newj in
    let two = place-new j n intent kind first other in omega (arith, one, two, short)

length-take_min : {A : Type 0} (k : ℕ) (xs : List A) → k ≤ length xs → length (take k xs) ≡ k
length-take_min zero xs h = refl
length-take_min (suc k) [] h = absurd (omega arith)
length-take_min (suc k) (x ∷ xs) h = omega (arith, length-take_min k xs)

-- Where the cluster answers with at least one member: a volume of the quorum tier is held by more than
-- half as many nodes as there are members and at most that many, and one of full replication by all of
-- them.
replicated_to_lem :
    (b : LocalStorageBackend) (m : Uuid) (ms : List Uuid)
    → b.cluster_membership ≡ some (ok (m ∷ ms))
    → (length (m ∷ ms) < 2 * length (replicated_to quorum b))
      × (length (replicated_to quorum b) ≤ length (m ∷ ms))
      × (replicated_to full_replication b ≡ m ∷ ms)
unfolding replicated_to
replicated_to_lem b m ms h =
    let n = length (m ∷ ms) in
    let kept = length-take_min (n / 2 + 1) (m ∷ ms) (omega arith) in
    let same : length (replicated_to quorum b) ≡ n / 2 + 1 =
      ap (λ o. length (members_or b.node_id (λ xs. take (length xs / 2 + 1) xs) o)) h ∙ kept in
    (omega (arith, same), omega (arith, same), ap (λ o. members_or b.node_id (λ xs. xs) o) h)
