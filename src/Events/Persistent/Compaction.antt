-- ===== src/Events/Persistent/Compaction.antt =====
-- `compact` and `compact_if_needed` of `PersistentEventLog`, with the place at which the file
-- system refuses, if it does.
use picloud.Prelude.{
  ℕ, ◌+◌, ◌-◌, Bool, true, false, ◌||◌, Option, none, some, List, [], ◌∷◌, length, drop, ltb,
  if◌then◌else◌, ◌==◌,
}
use picloud.Prelude.Equality.{nat_eq}
use picloud.Prelude.Texts.{Text}
use picloud.Domain.Error.{
  Result, ok, err, internal, serialize_failed, write_failed, invalid_discard_count,
}
use picloud.Domain.Events.{EventEnvelope}
use picloud.Events.Persistent.{PersistentEventLog, Codec, number}

abbrev pub compaction_threshold : ℕ
compaction_threshold = 10000

abbrev pub compaction_keep : ℕ
compaction_keep = 1000

-- The first call that fails: the temporary file or the rename, the sidecar, the reopening.
pub data Fault : Type 0 where
  no_fault rewrite_fails sidecar_fails reopen_fails : Fault

abbrev cons_line : Option Text → Option (List Text) → Option (List Text)
cons_line (some line) (some lines) = some (line ∷ lines)
cons_line none lines = none
cons_line (some line) none = none

module _ {Value : Type 0} where
  unfoldable pub serialize_all : Codec Value → List (EventEnvelope Value) → Option (List Text)
  serialize_all codec [] = some []
  serialize_all codec (e ∷ es) = cons_line (codec.to_string e) (serialize_all codec es)

  -- Step 3: the temporary file is written and renamed, the sidecar written, the handle reopened.
  abbrev pub rewrite :
      Option (List Text)
      → Fault
      → PersistentEventLog Value
      → Result (Unit {0}) × PersistentEventLog Value
  rewrite none f s = (err (internal serialize_failed), s)
  rewrite (some lines) rewrite_fails s = (err (internal write_failed), s)
  rewrite (some lines) sidecar_fails s =
      (err (internal write_failed), record s { file = lines; tail = []; attached = false })
  rewrite (some lines) reopen_fails s = (
    err (internal write_failed),
    record s { file = lines; tail = []; attached = false; meta = number s.snapshot_offset },
  )
  rewrite (some lines) no_fault s = (
    ok tt,
    record s { file = lines; tail = []; attached = true; meta = number s.snapshot_offset },
  )

  -- Steps 1 and 2: memory is truncated and the offset advanced before the file is touched.
  unfoldable pub discard : ℕ → PersistentEventLog Value → PersistentEventLog Value
  discard n s = record s {
    inner = record s.inner { events = drop n s.inner.events };
    snapshot_offset = s.snapshot_offset + n;
  }

  unfoldable pub compact :
      Codec Value
      → Fault
      → ℕ
      → PersistentEventLog Value
      → Result (Unit {0}) × PersistentEventLog Value
  unfolding discard
  compact codec f discard_count s =
      if discard_count == 0 || ltb (length s.inner.events) discard_count
      then (err (internal invalid_discard_count), s)
      else rewrite (serialize_all codec (drop discard_count s.inner.events)) f
          (discard discard_count s)

  abbrev pub report :
      Result (Unit {0}) × PersistentEventLog Value → Result Bool × PersistentEventLog Value
  report (ok u, s) = (ok true, s)
  report (err e, s) = (err e, s)

  unfoldable pub compact_if_needed :
      Codec Value → Fault → PersistentEventLog Value → Result Bool × PersistentEventLog Value
  compact_if_needed codec f s =
      let n = length s.inner.events in
      if ltb compaction_threshold n
      then report (compact codec f (n - compaction_keep) s)
      else (ok false, s)
