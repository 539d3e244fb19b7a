-- ===== src/Events/Persistent/Recovery.antt =====
-- What a restart finds on the disk of a persistent log.
use picloud.Prelude.{
  ℕ, zero, suc, ◌≡◌, refl, ap, ◌∙◌, inl, inr, true, false, ◌||◌, some, List, [], ◌∷◌, ◌++◌, length,
  drop, ltb, ◌==◌, All, Bool-cases, append_assoc, append-nil,
}
use picloud.Prelude.Equality.{nat_eq, list_eq, option_eq}
use picloud.Prelude.Texts.{Text, trim, is_empty}
use picloud.Domain.Error.{ok}
use picloud.Domain.Events.{EventEnvelope}
use picloud.Events.Log
use picloud.Events.Log.{InMemoryEventLog, is_seen, record_key}
use picloud.Events.Persistent.{
  PersistentEventLog, Codec, written, refused, WriteOutcome, append, open_log, replay,
  push_replayed, disk_of, load_offset, append_line,
}
use picloud.Events.Persistent.Compaction.{no_fault, compact, serialize_all}

-- The write was done, or nothing of the line was written.
abbrev pub IsWhole : WriteOutcome → Type 0
IsWhole written = Unit
IsWhole (refused n) = n ≡ 0

module _ {Value : Type 0} where
  -- The line is what serde writes for the event: one that it reads back, not blank.
  pub record Encodes (codec : Codec Value) (line : Text) (e : EventEnvelope Value) : Type 0 where
    pub trimmed : trim line ≡ line
    pub not_empty : is_empty line ≡ false
    pub parsed : codec.from_str line ≡ some e

  -- The file holds the events, one to a line.
  abbrev pub Stores : Codec Value → List Text → List (EventEnvelope Value) → Type 0
  Stores codec [] [] = Unit
  Stores codec [] (e ∷ es) = ⊥
  Stores codec (line ∷ lines) [] = ⊥
  Stores codec (line ∷ lines) (e ∷ es) = Encodes codec line e × Stores codec lines es

  -- serde writes the event and reads it back.
  abbrev pub RoundTrips : Codec Value → EventEnvelope Value → Type 0
  RoundTrips codec e = (line : Text) × (codec.to_string e ≡ some line) × Encodes codec line e

  -- The disk holds what memory holds, and the next append goes to the file at the log's path.
  pub record IsDurable (codec : Codec Value) (s : PersistentEventLog Value) : Type 0 where
    pub handle : s.attached ≡ true
    pub ended : s.tail ≡ []
    pub sidecar : load_offset s.meta ≡ s.snapshot_offset
    pub stored : Stores codec s.file s.inner.events

  Stores-append :
      (codec : Codec Value) (lines : List Text) (es : List (EventEnvelope Value)) (line : Text)
      (e : EventEnvelope Value)
      → Stores codec lines es
      → Encodes codec line e
      → Stores codec (lines ++ line ∷ []) (es ++ e ∷ [])
  Stores-append codec [] [] line e h k = (k, tt)
  Stores-append codec [] (x ∷ es) line e h k = absurd h
  Stores-append codec (l ∷ lines) [] line e h k = absurd h
  Stores-append codec (l ∷ lines) (x ∷ es) line e h k =
      (h.0, Stores-append codec lines es line e h.1 k)

  append_line-IsDurable :
      (codec : Codec Value) (w : WriteOutcome) (e : EventEnvelope Value) (line : Text)
      (s : PersistentEventLog Value)
      → IsWhole w
      → Encodes codec line e
      → is_seen s.inner.seen_keys e.idempotency_key ≡ false
      → IsDurable codec s
      → IsDurable codec (append_line (some line) w e s).1
  unfolding Log.append
  append_line-IsDurable codec (refused n) e line s whole k new h =
      rw (whole, h.handle, h.ended)
        (record { handle = refl; ended = refl; sidecar = h.sidecar; stored = h.stored })
  append_line-IsDurable codec written e line s whole k new h =
      rw (new, h.handle, h.ended)
        (record {
          handle = refl;
          ended = refl;
          sidecar = h.sidecar;
          stored = Stores-append codec s.file s.inner.events line e h.stored k;
        })

  -- An append of an event that serde reads back as it wrote it keeps memory and disk in step, whether
  -- it is a duplicate, is refused before anything of the line is written, or is written.
  pub append-IsDurable :
      (codec : Codec Value) (w : WriteOutcome) (e : EventEnvelope Value)
      (s : PersistentEventLog Value)
      → IsWhole w
      → RoundTrips codec e
      → IsDurable codec s
      → IsDurable codec (append codec w e s).1
  unfolding append
  append-IsDurable codec w e s whole r h =
      elim (Bool-cases (is_seen s.inner.seen_keys e.idempotency_key)) [
        | inl seen ↦ rw seen h
        | inr new ↦ rw (new, r.1) (append_line-IsDurable codec w e r.0 s whole r.2 new h)
      ]

  pub serialize_all-Stores :
      (codec : Codec Value) (es : List (EventEnvelope Value))
      → All (RoundTrips codec) es
      → (lines : List Text) × (serialize_all codec es ≡ some lines) × Stores codec lines es
  unfolding serialize_all
  serialize_all-Stores codec [] h = ([], refl, tt)
  serialize_all-Stores codec (e ∷ es) h =
      let rest = serialize_all-Stores codec es h.1 in
      (h.0.0 ∷ rest.0, rw (h.0.1, rest.1), (h.0.2, rest.2))

  pub All-drop {κ} :
      (P : EventEnvelope Value → Type κ) (n : ℕ) (es : List (EventEnvelope Value))
      → All P es
      → All P (drop n es)
  All-drop P zero es h = h
  All-drop P (suc n) [] h = h
  All-drop P (suc n) (e ∷ es) h = All-drop P n es h.1

  -- A compaction that meets no fault leaves memory and disk in step.
  compact-IsDurable :
      (codec : Codec Value) (n : ℕ) (s : PersistentEventLog Value)
      → All (RoundTrips codec) s.inner.events
      → IsDurable codec s
      → IsDurable codec (compact codec no_fault n s).1
  unfolding compact
  compact-IsDurable codec n s r h = elim (Bool-cases (n == 0 || ltb (length s.inner.events) n)) [
    | inl bad ↦ rw bad h
    | inr good ↦
        let out =
          serialize_all-Stores codec (drop n s.inner.events)
            (All-drop (RoundTrips codec) n s.inner.events r) in
        rw (good, out.1) (record { handle = refl; ended = refl; sidecar = refl; stored = out.2 })
  ]

  -- The keys that a replay records.
  abbrev pub keys_of : List (EventEnvelope Value) → List Text → List Text
  keys_of [] seen = seen
  keys_of (e ∷ es) seen = keys_of es (record_key seen e.idempotency_key)

  unfoldable pub replayed :
      List (EventEnvelope Value) → InMemoryEventLog Value → InMemoryEventLog Value
  replayed es s = record s { events = s.events ++ es; seen_keys = keys_of es s.seen_keys }

  pub replay-Stores :
      (codec : Codec Value) (lines : List Text) (es : List (EventEnvelope Value))
      (s : InMemoryEventLog Value)
      → Stores codec lines es
      → replay codec lines s ≡ ok (replayed es s)
  unfolding replay push_replayed replayed
  replay-Stores codec [] [] s h = rw append-nil
  replay-Stores codec [] (e ∷ es) s h = absurd h
  replay-Stores codec (l ∷ lines) [] s h = absurd h
  replay-Stores codec (l ∷ lines) (e ∷ es) s h =
      rw (h.0.trimmed, h.0.not_empty, h.0.parsed)
        (replay-Stores codec lines es (push_replayed e s) h.1
          ∙ ap
              (λ (xs : List (EventEnvelope Value)). ok (record {
                events = xs;
                sent = s.sent;
                seen_keys = keys_of es (record_key s.seen_keys e.idempotency_key);
              }))
              (append_assoc s.events (e ∷ []) es))

  -- A restart of a log whose disk is in step succeeds, with the events, the offset and the files that
  -- it had, and is in step again.
  pub open_log-disk_of :
      (codec : Codec Value) (s : PersistentEventLog Value)
      → IsDurable codec s
      → (t : PersistentEventLog Value) × (open_log codec (disk_of s) ≡ ok t)
        × (t.inner.events ≡ s.inner.events)
        × (t.snapshot_offset ≡ s.snapshot_offset)
        × (t.file ≡ s.file)
        × (t.tail ≡ s.tail)
        × (t.meta ≡ s.meta)
        × IsDurable codec t
  unfolding open_log disk_of replayed
  open_log-disk_of codec s h = (
    record s {
      inner = replayed s.inner.events Log.new;
      attached = true;
      snapshot_offset = load_offset s.meta;
    },
    rw (h.ended, append-nil, replay-Stores codec s.file s.inner.events Log.new h.stored),
    refl,
    h.sidecar,
    refl,
    refl,
    refl,
    record { handle = refl; ended = h.ended; sidecar = refl; stored = h.stored },
  )
