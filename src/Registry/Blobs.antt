-- ===== src/Registry/Blobs.antt =====
-- `BlobStore` of crates/picloud-registry/src/blob_store.rs: the files of its directory by their names.
-- SHA-256 in hexadecimal digits is a parameter, and so is what a write comes to.
-- Names with a path separator in them are left out.
use picloud.Prelude.{
  ℕ, ◌+◌, ◌≡◌, sym, ap, ◌∙◌, Bool, true, false, Option, none, some, List, [], ◌∷◌, ◌++◌, length,
  map, take, if◌then◌else◌, ◌==◌, ◌!=◌, arith, Option-cases, inl, inr, ==_iff, ==_refl, ◌≢◌, ◌⊎◌,
  subst, Bool-cases,
}
use picloud.Prelude.Equality.{nat_eq, list_eq}
use picloud.Prelude.HashMap
use picloud.Prelude.HashMap.{
  HashMap, IsMap, contains_key-insert, get-insert, get-remove, insert-IsMap, get_of_contains_key,
  contains_key_of_none,
}
use picloud.Prelude.Texts.{Text, codes, strip_prefix}
use picloud.Domain.Error.{
  Result, ok, err, registry_error, blob_not_found, digest_mismatch, blob_io_failed,
}

abbrev pub BlobStore : Type 0
BlobStore = HashMap Text Text

-- `fs::write` of a new file: it is written, or the call fails, before the file was made or after some
-- of its bytes.
pub data FileWrite : Type 0 where
  written not_made : FileWrite
  cut_off : ℕ → FileWrite

abbrev without_prefix : Option Text → Text → Text
without_prefix none digest = digest
without_prefix (some hash) digest = hash

-- The file name of a blob: its digest without the algorithm.
unfoldable pub hash_of : Text → Text
hash_of digest = without_prefix (strip_prefix digest (codes "sha256:")) digest

abbrev pub digest_of : Text → Text
digest_of hash = codes "sha256:" ++ hash

abbrev pub found : Option Text → Text → Result Text
found none digest = err (blob_not_found digest)
found (some bytes) digest = ok bytes

unfoldable pub get : Text → BlobStore → Result Text
unfolding hash_of
get digest s = found (HashMap.get s (hash_of digest)) digest

unfoldable pub exists : Text → BlobStore → Bool
unfolding hash_of
exists digest s = HashMap.contains_key s (hash_of digest)

-- `removable` says whether the file system lets the file go.
unfoldable pub delete : Bool → Text → BlobStore → Result (Unit {0}) × BlobStore
unfolding exists hash_of
delete removable digest s =
    if exists digest s
    then if removable
      then (ok tt, HashMap.remove s (hash_of digest))
      else (err (registry_error blob_io_failed), s)
    else (ok tt, s)

unfoldable pub list_digests : BlobStore → List Text
list_digests s = map digest_of (HashMap.keys s)

abbrev pub sizes : List Text → ℕ
sizes [] = 0
sizes (bytes ∷ files) = length bytes + sizes files

unfoldable total_size : BlobStore → ℕ
total_size s = sizes (HashMap.values s)

found-insert :
    (digest bytes hash : Text) (s : BlobStore)
    → found (HashMap.get (HashMap.insert s hash bytes) hash) digest ≡ ok bytes
found-insert digest bytes hash s = ground (arith, get-insert s hash hash bytes, ==_refl hash)

module _ (sha256 : Text → Text) where
  abbrev written_as : FileWrite → Text → Text → BlobStore → Result (Unit {0}) × BlobStore
  written_as written hash bytes s = (ok tt, HashMap.insert s hash bytes)
  written_as not_made hash bytes s = (err (registry_error blob_io_failed), s)
  written_as (cut_off n) hash bytes s =
      (err (registry_error blob_io_failed), HashMap.insert s hash (take n bytes))

  unfoldable pub put : FileWrite → Text → Text → BlobStore → Result (Unit {0}) × BlobStore
  unfolding exists hash_of
  put w digest bytes s =
      if sha256 bytes != hash_of digest
      then (err (registry_error digest_mismatch), s)
      else if exists digest s
      then (ok tt, s)
      else written_as w (hash_of digest) bytes s

  -- The write leaves the whole file or none.
  abbrev pub IsWhole : FileWrite → Type 0
  IsWhole written = Unit
  IsWhole not_made = Unit
  IsWhole (cut_off n) = ⊥

  -- Each file is named by the hash of what it holds.
  unfoldable pub IsAddressed : BlobStore → Type 0
  IsAddressed s = (hash bytes : Text) → HashMap.get s hash ≡ some bytes → sha256 bytes ≡ hash

  -- A put that is refused, one of bytes that are there, and one that writes them.
  abbrev PutOutcome : Text → Text → BlobStore → Result (Unit {0}) × BlobStore → Type 0
  PutOutcome digest bytes s (r, t) =
      ((r ≢ ok tt) × (t ≡ s))
      ⊎ (((sha256 bytes ≡ hash_of digest) × (exists digest s ≡ true) × (t ≡ s))
          ⊎ ((sha256 bytes ≡ hash_of digest)
              × (exists digest s ≡ false)
              × (t ≡ HashMap.insert s (hash_of digest) bytes)))

  new_outcome :
      (w : FileWrite) (digest bytes : Text) (s : BlobStore)
      → IsWhole w
      → (sha256 bytes == hash_of digest) ≡ true
      → exists digest s ≡ false
      → PutOutcome digest bytes s (put w digest bytes s)
  unfolding put
  new_outcome written digest bytes s whole e x =
      inr (inr (ground (arith, e, ==_iff (sha256 bytes) (hash_of digest)), x, ground (arith, e, x)))
  new_outcome not_made digest bytes s whole e x = inl (ground (arith, e, x), ground (arith, e, x))
  new_outcome (cut_off n) digest bytes s whole e x = absurd whole

  put-outcome :
      (w : FileWrite) (digest bytes : Text) (s : BlobStore)
      → IsWhole w
      → PutOutcome digest bytes s (put w digest bytes s)
  unfolding put
  put-outcome w digest bytes s whole = elim (Bool-cases (sha256 bytes == hash_of digest)) [
    | inr e ↦ inl (ground (arith, e), ground (arith, e))
    | inl e ↦ elim (Bool-cases (exists digest s)) [
      | inl x ↦
          inr (
            inl
              (ground (arith, e, ==_iff (sha256 bytes) (hash_of digest)), x, ground (arith, e, x)))
      | inr x ↦ new_outcome w digest bytes s whole e x
    ]
  ]

  Stored : Text → BlobStore → BlobStore → Type 0
  Stored digest s t =
      IsAddressed t
      × ((hash old : Text) → HashMap.get s hash ≡ some old → HashMap.get t hash ≡ some old)

  insert-Stored :
      (digest bytes : Text) (s : BlobStore)
      → IsAddressed s
      → sha256 bytes ≡ hash_of digest
      → exists digest s ≡ false
      → Stored digest s (HashMap.insert s (hash_of digest) bytes)
  unfolding Stored IsAddressed exists
  insert-Stored digest bytes s h e x = (
    (λ hash y p.
        ground (
          arith,
          get-insert s (hash_of digest) hash bytes,
          ==_iff (hash_of digest) hash,
          h hash y,
        )),
    (λ hash old p. ground (
      arith,
      get-insert s (hash_of digest) hash bytes,
      ==_iff (hash_of digest) hash,
      get_of_contains_key s (hash_of digest) x,
    )),
  )

  -- A put whose write leaves the whole file or none keeps every file named by its hash and loses none;
  -- and if it succeeds, a read of its digest gives bytes with that hash.
  pub put-IsAddressed :
      (w : FileWrite) (digest bytes : Text) (s : BlobStore)
      → IsWhole w
      → IsAddressed s
      → let (r, t) = put w digest bytes s in
        IsAddressed t
        × ((hash old : Text) → HashMap.get s hash ≡ some old → HashMap.get t hash ≡ some old)
        × (r ≡ ok tt → (x : Text) × (get digest t ≡ ok x) × (sha256 x ≡ hash_of digest))
  unfolding Stored get exists IsAddressed
  put-IsAddressed w digest bytes s whole h =
      of_outcome (put w digest bytes s) (put-outcome w digest bytes s whole)
    where
      of_outcome :
          (p : Result (Unit {0}) × BlobStore)
          → PutOutcome digest bytes s p
          → IsAddressed p.1
            × ((hash old : Text) → HashMap.get s hash ≡ some old → HashMap.get p.1 hash ≡ some old)
            × (p.0 ≡ ok tt → (x : Text) × (get digest p.1 ≡ ok x) × (sha256 x ≡ hash_of digest))
      of_outcome (r, t) (inl (n, e)) = (
        subst IsAddressed (sym e) h,
        (λ hash old q. ap (λ m. HashMap.get m hash) e ∙ q),
        (λ q. absurd (n q)),
      )
      of_outcome (r, t) (inr (inl (a, x, e))) = (
        subst IsAddressed (sym e) h,
        (λ hash old q. ap (λ m. HashMap.get m hash) e ∙ q),
        (λ q. elim (Option-cases (HashMap.get s (hash_of digest))) [
          | inl n ↦ absurd (ground (arith, x, contains_key_of_none s (hash_of digest) n))
          | inr (y, g) ↦ (
            y,
            ap (λ m. found (HashMap.get m (hash_of digest)) digest) e ∙ ap (λ o. found o digest) g,
            h (hash_of digest) y g,
          )
        ]),
      )
      of_outcome (r, t) (inr (inr (a, x, e))) =
          let st = insert-Stored digest bytes s h a x in
          (
            subst IsAddressed (sym e) st.0,
            (λ hash old q. ap (λ m. HashMap.get m hash) e ∙ st.1 hash old q),
            (λ q. (
              bytes,
              ap (λ m. found (HashMap.get m (hash_of digest)) digest) e
                  ∙ found-insert digest bytes (hash_of digest) s,
              a,
            )),
          )

  -- A write that is cut off leaves a file under the hash of bytes that it does not hold: the next
  -- put of the same bytes succeeds without writing, and a read gives what was left.
  cut_off_put :
      (n : ℕ) (w : FileWrite) (digest bytes : Text) (s : BlobStore)
      → sha256 bytes ≡ hash_of digest
      → exists digest s ≡ false
      → let t = (put (cut_off n) digest bytes s).1 in
        ((put w digest bytes t).0 ≡ ok tt)
        × (get digest (put w digest bytes t).1 ≡ ok (take n bytes))
  unfolding put get exists
  cut_off_put n w digest bytes s h x =
      let left = HashMap.insert s (hash_of digest) (take n bytes) in
      let e : (sha256 bytes == hash_of digest) ≡ true =
        ground (arith, h, ==_iff (sha256 bytes) (hash_of digest)) in
      let there : HashMap.contains_key left (hash_of digest) ≡ true =
        contains_key-insert s (hash_of digest) (hash_of digest) (take n bytes)
        ∙ ground (arith, ==_refl (hash_of digest)) in
      (
        ground (arith, e, x, there),
        ground (arith, e, x, there, found-insert digest (take n bytes) (hash_of digest) s),
      )
