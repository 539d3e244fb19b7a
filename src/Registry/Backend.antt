-- ===== src/Registry/Backend.antt =====
-- `LocalRegistryBackend` of crates/picloud-registry/src/implementation.rs. The files of a manifests
-- directory are held by repository and file name, those of the content types among them. Every write
-- succeeds here; uploads are the names of their files.
use picloud.Prelude.{
  ℕ, ◌≡◌, Option, none, some, List, [], ◌∷◌, ◌++◌, map, if◌then◌else◌, arith, nat_beq, ==_refl,
  ==_ne, ◌≢◌,
}
use picloud.Prelude.Equality.{nat_eq, list_eq, pair_eq}
use picloud.Prelude.HashMap
use picloud.Prelude.HashMap.{HashMap, get-insert, get-remove}
use picloud.Prelude.Texts.{Text, codes, starts_with}
use picloud.Domain.Error.{Result, ok, err, image_not_found}
use picloud.Registry.Blobs.{BlobStore, digest_of, put, written}

abbrev pub Files : Type 0
Files = HashMap (Text × Text) Text

pub record Registry : Type 0 where
  pub blobs : BlobStore
  pub files : Files
  pub uploads : List Text

-- `:` becomes `_`.
unfoldable sanitize_reference : Text → Text
sanitize_reference reference = map (λ c. if nat_beq c b':' then b'_' else c) reference

abbrev manifest_path : Text → Text → Text × Text
manifest_path repository reference = (repository, sanitize_reference reference)

abbrev content_type_path : Text → Text → Text × Text
content_type_path repository reference =
    (repository, sanitize_reference reference ++ codes ".content-type")

abbrev default_content_type : Text
default_content_type = codes "application/vnd.oci.image.manifest.v1+json"

abbrev or_text : Option Text → Text → Text
or_text none d = d
or_text (some t) d = t

abbrev read_manifest : Option Text → Option Text → Text → Text → Result (Text × Text)
read_manifest none ct repository reference = err (image_not_found repository reference)
read_manifest (some bytes) ct repository reference = ok (or_text ct default_content_type, bytes)

unfoldable get_manifest : Text → Text → Registry → Result (Text × Text)
unfolding sanitize_reference
get_manifest repository reference s =
    read_manifest (HashMap.get s.files (manifest_path repository reference))
      (HashMap.get s.files (content_type_path repository reference)) repository reference

unfoldable delete_manifest : Text → Text → Registry → Registry
unfolding sanitize_reference
delete_manifest repository reference s = record s {
  files =
      HashMap.remove (HashMap.remove s.files (manifest_path repository reference))
        (content_type_path repository reference);
}

unfoldable start_blob_upload : Text → Registry → Result Text × Registry
start_blob_upload uuid s = (ok uuid, record s { uploads = s.uploads ++ uuid ∷ [] })

-- A manifest and its content type under one reference.
unfoldable write_manifest : Text → Text → Text → Text → Files → Files
unfolding sanitize_reference
write_manifest repository reference content_type bytes files =
    HashMap.insert (HashMap.insert files (manifest_path repository reference) bytes)
      (content_type_path repository reference) content_type

module _ (sha256 : Text → Text) where
  unfoldable put_manifest : Text → Text → Text → Text → Registry → Result Text × Registry
  unfolding write_manifest put
  put_manifest repository reference content_type bytes s =
      let digest = digest_of (sha256 bytes) in
      let once = write_manifest repository reference content_type bytes s.files in
      (
        ok digest,
        record s {
          files =
              if starts_with reference (codes "sha256:")
              then once
              else write_manifest repository digest content_type bytes once;
          blobs = (put sha256 written digest bytes s.blobs).1;
        },
      )

suffix_longer : (s suffix : Text) (c : ℕ) → (s ++ c ∷ suffix) ≢ s
suffix_longer [] suffix c = ground arith
suffix_longer (x ∷ s) suffix c = λ e. suffix_longer s suffix c (ground (arith, e))

-- What one write makes readable: the manifest and its content type under the reference.
read_written :
    (repository reference content_type bytes : Text) (files : Files)
    → let after = write_manifest repository reference content_type bytes files in
      (HashMap.get after (manifest_path repository reference) ≡ some bytes)
      × (HashMap.get after (content_type_path repository reference) ≡ some content_type)
unfolding write_manifest
read_written repository reference content_type bytes files =
    let m = manifest_path repository reference in
    let c = content_type_path repository reference in
    let one = HashMap.insert files m bytes in
    (
      ground (
        arith,
        get-insert one c m content_type,
        get-insert files m m bytes,
        ==_refl m,
        ==_ne c m (λ e.
            suffix_longer (sanitize_reference reference) (codes "content-type") b'.'
              (ground (arith, e))),
      ),
      ground (arith, get-insert one c c content_type, ==_refl c),
    )

written_twice :
    (repository reference digest content_type bytes : Text) (files : Files)
    → sanitize_reference reference ≢ sanitize_reference digest ++ codes ".content-type"
    → sanitize_reference digest ≢ sanitize_reference reference ++ codes ".content-type"
    → let after =
        write_manifest repository digest content_type bytes
          (write_manifest repository reference content_type bytes files) in
      (HashMap.get after (manifest_path repository reference) ≡ some bytes)
      × (HashMap.get after (content_type_path repository reference) ≡ some content_type)
unfolding write_manifest
written_twice repository reference digest content_type bytes files n k =
    let once = write_manifest repository reference content_type bytes files in
    let m = manifest_path repository reference in
    let c = content_type_path repository reference in
    let dm = manifest_path repository digest in
    let dc = content_type_path repository digest in
    let one = HashMap.insert once dm bytes in
    let was = read_written repository reference content_type bytes files in
    (
      ground (
        arith,
        get-insert one dc m content_type,
        get-insert once dm m bytes,
        was.0,
        ==_ne dc m (λ e. n (ground (arith, e))),
      ),
      ground (
        arith,
        get-insert one dc c content_type,
        get-insert once dm c bytes,
        was.1,
        ==_ne dm c (λ e. k (ground (arith, e))),
      ),
    )

module _ (sha256 : Text → Text) where
  -- A manifest that was put is read back under its reference with its content type, also where a
  -- copy was stored under its digest, unless one of the two file names is that of the content type
  -- of the other.
  get_manifest-put_manifest :
      (repository reference content_type bytes : Text) (s : Registry)
      → let digest = digest_of (sha256 bytes) in
        sanitize_reference reference ≢ sanitize_reference digest ++ codes ".content-type"
        → sanitize_reference digest ≢ sanitize_reference reference ++ codes ".content-type"
        → get_manifest repository reference
            (put_manifest sha256 repository reference content_type bytes s).1
          ≡ ok (content_type, bytes)
  unfolding get_manifest put_manifest
  get_manifest-put_manifest repository reference content_type bytes s n k = ground (
    arith,
    read_written repository reference content_type bytes s.files,
    written_twice repository reference (digest_of (sha256 bytes)) content_type bytes s.files n k,
  )
