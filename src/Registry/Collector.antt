-- ===== src/Registry/Collector.antt =====
-- `GarbageCollector` of crates/picloud-registry/src/gc.rs. What `serde_json` reads of a manifest is a
-- parameter: the digests that the code looks up, or nothing where the file is no JSON. The
-- collection runs alone, as it does when no upload is in progress.
use picloud.Prelude.{
  true, ℕ, ◌+◌, ◌≡◌, refl, ap, ◌∙◌, Bool, false, not, ◌&&◌, ◌||◌, Option, none, some, List, [], ◌∷◌,
  length, if◌then◌else◌, ◌==◌, arith, contains, ==_iff, Bool-cases, inl, inr, nat_beq, any,
}
use picloud.Prelude.Equality.{nat_eq, list_eq, pair_eq}
use picloud.Prelude.HashMap
use picloud.Prelude.HashMap.{HashMap, IsMap, get-remove, get_of_contains_key}
use picloud.Prelude.Texts.{Text, codes, split_head, strip_prefix-append}
use picloud.Domain.Error.{Result, ok, err, registry_error, blob_io_failed}
use picloud.Registry.Blobs.{BlobStore, hash_of, digest_of, delete, exists, list_digests}
use picloud.Registry.Backend.{Registry, Files}

-- The digests at `config.digest`, at each of `layers[i].digest`, and at `digest`, where they are texts.
pub record Manifest : Type 0 where
  pub config_digest : Option Text
  pub layer_digests : List (Option Text)
  pub digest : Option Text

pub record GarbageCollectionResult : Type 0 where
  pub blobs_scanned : ℕ
  pub blobs_deleted : ℕ
  pub bytes_freed : ℕ

abbrev insert_some : Option Text → List Text → List Text
insert_some none digests = digests
insert_some (some digest) digests = digest ∷ digests

abbrev insert_each : List (Option Text) → List Text → List Text
insert_each [] digests = digests
insert_each (o ∷ os) digests = insert_each os (insert_some o digests)

abbrev extract_digests_from_manifest : Option Manifest → List Text → List Text
extract_digests_from_manifest none digests = digests
extract_digests_from_manifest (some m) digests =
    insert_some m.digest (insert_each m.layer_digests (insert_some m.config_digest digests))

-- The walk looks at repositories/{product}/{name}: two segments.
abbrev slashes : Text → ℕ
slashes [] = 0
slashes (c ∷ s) = if nat_beq c b'/' then 1 + slashes s else slashes s

abbrev is_walked : Text → Bool
is_walked repository = nat_beq (slashes repository) 1

-- What can be read: the directory of the repositories, that of a product, that of the manifests of a
-- repository, a file as text, and the directory of the blobs.
pub record Reads : Type 0 where
  pub repositories : Bool
  pub product : Text → Bool
  pub manifests : Text → Bool
  pub file : Text → Text → Bool
  pub blobs : Bool

-- What cannot be read is skipped.
abbrev is_read : Reads → Text → Text → Bool
is_read reads repository name =
    reads.product (split_head b'/' repository)
    && reads.manifests repository
    && reads.file repository name

module _ (parse : Text → Option Manifest) (reads : Reads) where
  unfoldable collect_referenced_digests : Files → List Text
  unfolding split_head
  collect_referenced_digests [] = []
  collect_referenced_digests (((repository, name), bytes) ∷ files) =
      let referenced = collect_referenced_digests files in
      if is_walked repository && is_read reads repository name
      then extract_digests_from_manifest (parse bytes) referenced
      else referenced

abbrev size_of : Option Text → ℕ
size_of none = 0
size_of (some bytes) = length bytes

abbrev pub count : Result (Unit {0}) → ℕ
count (ok u) = 1
count (err e) = 0

abbrev pub add : GarbageCollectionResult → GarbageCollectionResult → GarbageCollectionResult
add a b = record {
  blobs_scanned = a.blobs_scanned + b.blobs_scanned;
  blobs_deleted = a.blobs_deleted + b.blobs_deleted;
  bytes_freed = a.bytes_freed + b.bytes_freed;
}

-- The body of the loop over the digests. `removable` says which files the file system lets go; the
-- bytes are counted before the file is removed.
abbrev sweep_one :
    (Text → Bool) → List Text → Text → BlobStore → GarbageCollectionResult × BlobStore
sweep_one removable referenced digest s =
    if contains referenced digest
    then (record { blobs_scanned = 1; blobs_deleted = 0; bytes_freed = 0 }, s)
    else let (r, t) = delete (removable digest) digest s in
      (
        record {
          blobs_scanned = 1;
          blobs_deleted = count r;
          bytes_freed = size_of (HashMap.get s (hash_of digest));
        },
        t,
      )

unfoldable sweep :
    (Text → Bool) → List Text → List Text → BlobStore → GarbageCollectionResult × BlobStore
unfolding delete hash_of
sweep removable referenced [] s =
    (record { blobs_scanned = 0; blobs_deleted = 0; bytes_freed = 0 }, s)
sweep removable referenced (digest ∷ digests) s =
    let (one, t) = sweep_one removable referenced digest s in
    let (rest, u) = sweep removable referenced digests t in (add one rest, u)

module _ (parse : Text → Option Manifest) (reads : Reads) where
  unfoldable pub garbage_collect :
      (Text → Bool) → Registry → Result GarbageCollectionResult × Registry
  unfolding collect_referenced_digests sweep list_digests
  garbage_collect removable s =
      let (r, blobs) =
        sweep removable (collect_referenced_digests parse reads s.files) (list_digests s.blobs)
          s.blobs in
      if not reads.repositories || not reads.blobs
      then (err (registry_error blob_io_failed), s)
      else (ok r, record s { blobs = blobs })

hash_of-digest_of : (hash : Text) → hash_of (digest_of hash) ≡ hash
unfolding hash_of
hash_of-digest_of hash = ground (arith, strip_prefix-append (codes "sha256:") hash)

-- The digest of a hash is swept by a list of digests.
swept : (Text → Bool) → List Text → List Text → Text → Bool
swept removable referenced digests hash =
    any (λ d. hash_of d == hash && not (contains referenced d) && removable d) digests

get-delete :
    (removable : Bool) (digest hash : Text) (s : BlobStore)
    → HashMap.get (delete removable digest s).1 hash
      ≡ (if hash_of digest == hash && removable then none else HashMap.get s hash)
unfolding delete exists
get-delete removable digest hash s = elim (Bool-cases (HashMap.contains_key s (hash_of digest))) [
  | inl e ↦ ground (arith, e, get-remove s (hash_of digest) hash)
  | inr e ↦
      ground (arith, e, get_of_contains_key s (hash_of digest) e, ==_iff (hash_of digest) hash)
]

get-sweep_one :
    (removable : Text → Bool) (referenced : List Text) (d hash : Text) (s : BlobStore)
    → HashMap.get (sweep_one removable referenced d s).1 hash ≡ (
        if hash_of d == hash && not (contains referenced d) && removable d
        then none
        else HashMap.get s hash)
get-sweep_one removable referenced d hash s = ground (arith, get-delete (removable d) d hash s)

get-sweep :
    (removable : Text → Bool) (referenced digests : List Text) (hash : Text) (s : BlobStore)
    → HashMap.get (sweep removable referenced digests s).1 hash
      ≡ (if swept removable referenced digests hash then none else HashMap.get s hash)
unfolding sweep swept
get-sweep removable referenced [] hash s = ground arith
get-sweep removable referenced (d ∷ ds) hash s = ground (
  arith,
  get-sweep removable referenced ds hash (sweep_one removable referenced d s).1,
  get-sweep_one removable referenced d hash s,
)

swept-list_digests :
    (removable : Text → Bool) (referenced : List Text) (hash : Text) (s : BlobStore)
    → swept removable referenced (list_digests s) hash ≡ (
        HashMap.contains_key s hash
        && not (contains referenced (digest_of hash))
        && removable (digest_of hash))
unfolding swept list_digests HashMap.contains_key
swept-list_digests removable referenced hash [] = refl
swept-list_digests removable referenced hash ((k, bytes) ∷ s) = elim (Bool-cases (k == hash)) [
  | inl e ↦
      let same = (==_iff k hash).0 e in
      ground (
        arith,
        e,
        hash_of-digest_of k,
        ap (λ x. contains referenced (digest_of x)) same,
        ap (λ x. removable (digest_of x)) same,
        swept-list_digests removable referenced hash s,
      )
  | inr e ↦ ground (arith, e, hash_of-digest_of k, swept-list_digests removable referenced hash s)
]

abbrev is_digest : Text → Option Text → Bool
is_digest digest none = false
is_digest digest (some d) = d == digest

-- A manifest names the digest: its config, one of its layers, or its own field.
abbrev names : Text → Option Manifest → Bool
names digest none = false
names digest (some m) =
    is_digest digest m.digest
    || any (is_digest digest) m.layer_digests
    || is_digest digest m.config_digest

contains-insert_each :
    (os : List (Option Text)) (digests : List Text) (d : Text)
    → contains (insert_each os digests) d ≡ (any (is_digest d) os || contains digests d)
contains-insert_each [] digests d = refl
contains-insert_each (none ∷ os) digests d = contains-insert_each os digests d
contains-insert_each (some x ∷ os) digests d =
    ground (arith, contains-insert_each os (x ∷ digests) d)

contains-extract :
    (o : Option Manifest) (digests : List Text) (d : Text)
    → contains (extract_digests_from_manifest o digests) d ≡ (names d o || contains digests d)
contains-extract none digests d = refl
contains-extract (some m) digests d =
    ground (arith, contains-insert_each m.layer_digests (insert_some m.config_digest digests) d)

abbrev pub is_ok {ℓ} : {A : Type ℓ} → Result A → Bool
is_ok (ok a) = true
is_ok (err e) = false

module _ (parse : Text → Option Manifest) (reads : Reads) where
  -- Some file of a repository of two segments that can be read names the digest.
  unfoldable pub is_referenced : Files → Text → Bool
  is_referenced [] digest = false
  is_referenced (((repository, name), bytes) ∷ files) digest =
      (is_walked repository && is_read reads repository name && names digest (parse bytes))
      || is_referenced files digest

  contains-collect :
      (files : Files) (d : Text)
      → contains (collect_referenced_digests parse reads files) d ≡ is_referenced files d
  unfolding collect_referenced_digests is_referenced split_head
  contains-collect [] d = refl
  contains-collect (((repository, name), bytes) ∷ files) d = ground (
    arith,
    contains-collect files d,
    contains-extract (parse bytes) (collect_referenced_digests parse reads files) d,
  )

  -- A collection that can list the repositories and the blobs succeeds, and removes exactly the blobs
  -- that no manifest names which it can read and which is of a repository of two segments, of those the
  -- file system lets go: the blobs of a manifest that it cannot read go too. It keeps every other blob
  -- as it was. One that cannot list them fails and removes none. No manifest is touched.
  pub garbage_collect_lem :
      (removable : Text → Bool) (hash : Text) (s : Registry)
      → let (r, t) = garbage_collect parse reads removable s in
        (t.files ≡ s.files)
        × (is_ok r ≡ (reads.repositories && reads.blobs))
        × (HashMap.get t.blobs hash ≡ (
            if not (is_ok r)
              || is_referenced s.files (digest_of hash)
              || not (removable (digest_of hash))
            then HashMap.get s.blobs hash
            else none))
  unfolding garbage_collect
  garbage_collect_lem removable hash s =
      let swept_blobs : HashMap.get
            (sweep removable (collect_referenced_digests parse reads s.files) (list_digests s.blobs)
              s.blobs).1
            hash
          ≡ (if is_referenced s.files (digest_of hash) || not (removable (digest_of hash))
              then HashMap.get s.blobs hash
              else none) =
        get-sweep removable (collect_referenced_digests parse reads s.files) (list_digests s.blobs)
          hash s.blobs
        ∙ ground (
          arith,
          swept-list_digests removable (collect_referenced_digests parse reads s.files) hash
              s.blobs,
          contains-collect s.files (digest_of hash),
          get_of_contains_key s.blobs hash,
        ) in
      (ground arith, ground arith, ground (arith, swept_blobs))
