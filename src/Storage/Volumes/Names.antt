-- ===== src/Storage/Volumes/Names.antt =====
-- Volumes whose IRIs end in the same segment.
use picloud.Prelude.{ℕ, ◌≡◌, ◌≢◌, refl, sym, ap, ◌∙◌, false, none, some, arith, ==_iff}
use picloud.Prelude.Equality.{nat_eq, list_eq}
use picloud.Prelude.HashMap
use picloud.Prelude.HashMap.{HashMap, get-insert_self, get-insert_ne, get-remove}
use picloud.Domain.Error.{Result, ok, err}
use picloud.Domain.Iri.{ResourceIri}
use picloud.Storage.Volumes.{
  Making, made, not_made, not_sized, LocalStorageBackend, VolumeRecord, VolumeHandle, StorageIntent,
  VolumeType, mounted, raw_block, Device, volume_name_from_iri, device_path_of, check_capacity,
  place_volume, allocate_after, allocate_volume, delete_volume, delete_record, remove_device,
  make_device,
}

device_path-same :
    (kind : VolumeType) (i j : ResourceIri) (b d : LocalStorageBackend)
    → volume_name_from_iri i ≡ volume_name_from_iri j
    → b.base_path ≡ d.base_path
    → device_path_of kind i b ≡ device_path_of kind j d
unfolding device_path_of
device_path-same mounted i j b d h k = ground (arith, h, k)
device_path-same raw_block i j b d h k = ground (arith, h, k)

allocate_after_ok :
    (r : Result (Unit {0})) (making : Making) (i : ResourceIri) (size_gb : ℕ)
    → (intent : StorageIntent) (kind : VolumeType) (b : LocalStorageBackend) (h : VolumeHandle)
    → (allocate_after r making i size_gb intent kind b).0 ≡ ok h
    → allocate_after r making i size_gb intent kind b ≡ place_volume made i size_gb intent kind b
unfolding place_volume
allocate_after_ok (err e) making i size_gb intent kind b h done = absurd (ground arith)
allocate_after_ok (ok u) not_made i size_gb intent kind b h done = absurd (ground arith)
allocate_after_ok (ok u) not_sized i size_gb intent kind b h done = absurd (ground arith)
allocate_after_ok (ok u) made i size_gb intent kind b h done = refl

allocate_ok :
    (making : Making) (i : ResourceIri) (size_gb : ℕ) (intent : StorageIntent) (kind : VolumeType)
    → (b : LocalStorageBackend) (h : VolumeHandle)
    → (allocate_volume making i size_gb intent kind b).0 ≡ ok h
    → allocate_volume making i size_gb intent kind b ≡ place_volume made i size_gb intent kind b
unfolding allocate_volume
allocate_ok making i size_gb intent kind b h done =
    allocate_after_ok (check_capacity size_gb b) making i size_gb intent kind b h done

place-recorded :
    (i : ResourceIri) (size_gb : ℕ) (intent : StorageIntent) (kind : VolumeType)
    → (b : LocalStorageBackend)
    → let path = device_path_of kind i b in
      let after = (place_volume made i size_gb intent kind b).1 in
      (HashMap.get after.volumes i
        ≡ some (record {
          volume_iri = i;
          size_gb = size_gb;
          device_path = path;
          storage_intent = intent;
        }))
      × (HashMap.get after.devices path
          ≡ some (make_device kind size_gb (HashMap.get b.devices path)))
unfolding place_volume
place-recorded i size_gb intent kind b =
    let path = device_path_of kind i b in
    (get-insert_self b.volumes i _, get-insert_self b.devices path _)

-- A deletion of a volume whose device is there, which the file system does not refuse.
delete_lem :
    (i : ResourceIri) (b : LocalStorageBackend) (v : VolumeRecord) (d : Device)
    → HashMap.get b.volumes i ≡ some v
    → HashMap.get b.devices v.device_path ≡ some d
    → delete_volume false i b ≡ (
      ok tt,
      record b {
        volumes = HashMap.remove b.volumes i;
        devices = HashMap.remove b.devices v.device_path;
      },
    )
unfolding delete_volume
delete_lem i b v d h k =
    let q = record b { volumes = HashMap.remove b.volumes i } in
    ap (λ o. delete_record false i o b) h ∙ ap (λ o. remove_device false v.device_path o q) k

-- Two volumes of one kind, both mounted or both raw, whose IRIs end in the same segment have one
-- device. Where both were allocated on a node whose file system refuses nothing, a deletion of the
-- first succeeds and takes the device of the second away, which stays on record; and where the
-- second is a raw block device, its allocation had emptied that of the first.
pub volume_names_collide :
    (i j : ResourceIri) (m n : ℕ) (intent intent' : StorageIntent) (kind : VolumeType)
    → (b : LocalStorageBackend) (h h' : VolumeHandle) → i ≢ j
    → volume_name_from_iri i ≡ volume_name_from_iri j
    → (allocate_volume made i m intent kind b).0 ≡ ok h
    → (allocate_volume made j n intent' kind (allocate_volume made i m intent kind b).1).0 ≡ ok h'
    → let one = (allocate_volume made i m intent kind b).1 in
      let two = (allocate_volume made j n intent' kind one).1 in
      let (r, after) = delete_volume false i two in
      (r ≡ ok tt)
      × ((v : VolumeRecord) × (HashMap.get after.volumes j ≡ some v)
          × (HashMap.get after.devices v.device_path ≡ none)
          × (HashMap.get two.devices v.device_path
              ≡ some (make_device kind n (HashMap.get one.devices v.device_path))))
unfolding place_volume
volume_names_collide i j m n intent intent' kind b h h' ne same done done' =
    let one = (place_volume made i m intent kind b).1 in
    let two = (place_volume made j n intent' kind one).1 in
    let path = device_path_of kind i b in
    let path' = device_path_of kind j one in
    let e : allocate_volume made i m intent kind b ≡ place_volume made i m intent kind b =
      allocate_ok made i m intent kind b h done in
    let e' : allocate_volume made j n intent' kind (allocate_volume made i m intent kind b).1
        ≡ place_volume made j n intent' kind one =
      allocate_ok made j n intent' kind _ h' done'
      ∙ ap (λ x. place_volume made j n intent' kind x.1) e in
    let shared : path ≡ path' = device_path-same kind i j b one same refl in
    let first = place-recorded i m intent kind b in
    let second = place-recorded j n intent' kind one in
    let v : VolumeRecord = record {
      volume_iri = i;
      size_gb = m;
      device_path = path;
      storage_intent = intent;
    } in
    let v' : VolumeRecord = record {
      volume_iri = j;
      size_gb = n;
      device_path = path';
      storage_intent = intent';
    } in
    let deleted =
      delete_lem i two v (make_device kind n (HashMap.get one.devices path'))
        (get-insert_ne one.volumes j i v' (λ q. ne (sym q)) ∙ first.0)
        (ap (HashMap.get two.devices) shared ∙ second.1) in
    let all = ap (λ x. delete_volume false i x.1) e' ∙ deleted in
    (
      ap (λ x. x.0) all,
      (
        v',
        ap (λ x. HashMap.get x.1.volumes j) all
            ∙ get-remove two.volumes i j
            ∙ ground (arith, ==_iff i j, second.0),
        ap (λ x. HashMap.get x.1.devices path') all
            ∙ get-remove two.devices path path'
            ∙ ground (arith, ==_iff path path', shared),
        ap (λ x. HashMap.get x.1.devices path') e'
            ∙ second.1
            ∙ ap (λ x. some (make_device kind n (HashMap.get x.1.devices path'))) (sym e),
      ),
    )
