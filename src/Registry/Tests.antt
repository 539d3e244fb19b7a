-- ===== src/Registry/Tests.antt =====
-- Runs of the modules of crates/picloud-registry at a concrete image.
use picloud.Prelude.{
  ==_iff, ◌≡◌, true, false, not, ◌||◌, Option, none, some, [], ◌∷◌, arith, if◌then◌else◌,
}
use picloud.Prelude.Equality.{nat_eq, list_eq, pair_eq}
use picloud.Prelude.HashMap
use picloud.Prelude.Texts.{Text, codes}
use picloud.Domain.Error.{ok}
use picloud.Registry.Blobs.{
  BlobStore, digest_of, hash_of, IsAddressed, put, written, put-IsAddressed,
}
use picloud.Registry.Blobs
use picloud.Registry.Backend.{Registry}
use picloud.Registry.Collector.{
  Reads, is_ok, Manifest, garbage_collect, garbage_collect_lem, is_referenced,
}

-- A hash that is the text itself.
abbrev sha : Text → Text
sha bytes = bytes

abbrev layer : Text
layer = codes "abc"

abbrev stored : BlobStore
stored = (layer, layer) ∷ []

stored-IsAddressed : IsAddressed sha stored
unfolding IsAddressed HashMap.get
stored-IsAddressed = λ hash bytes h. ground (arith, ==_iff layer hash)

put-IsAddressed_example :
    let (r, t) = put sha written (codes "sha256:de") (codes "de") stored in
    IsAddressed sha t
    × ((hash old : Text) → HashMap.get stored hash ≡ some old → HashMap.get t hash ≡ some old)
    × (r ≡ ok tt
        → (x : Text) × (Blobs.get (codes "sha256:de") t ≡ ok x)
          × (sha x ≡ hash_of (codes "sha256:de")))
put-IsAddressed_example =
    put-IsAddressed sha written (codes "sha256:de") (codes "de") stored tt stored-IsAddressed

abbrev registry : Registry
registry = record {
  blobs = (codes "de", codes "de") ∷ stored;
  files = ((codes "shop/api", codes "v1"), codes "{}") ∷ [];
  uploads = [];
}

-- Each manifest names the one layer.
abbrev parse : Text → Option Manifest
parse bytes =
    some
      (record { config_digest = none; layer_digests = some (digest_of layer) ∷ []; digest = none })

-- The directory of the product cannot be read.
abbrev reads : Reads
reads = record {
  repositories = true;
  product = λ p. false;
  manifests = λ r. true;
  file = λ r n. true;
  blobs = true;
}

garbage_collect_lem_example :
    let (r, t) = garbage_collect parse reads (λ d. true) registry in
    (t.files ≡ registry.files)
    × (is_ok r ≡ true)
    × (HashMap.get t.blobs layer ≡ (
        if not (is_ok r) || is_referenced parse reads registry.files (digest_of layer) || not true
        then HashMap.get registry.blobs layer
        else none))
garbage_collect_lem_example = garbage_collect_lem parse reads (λ d. true) layer registry
