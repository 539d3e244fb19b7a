-- ===== src/Events/Persistent.antt =====
-- `PersistentEventLog` of crates/picloud-events/src/implementation.rs: the in-memory log with a
-- file of JSON lines and a sidecar file that holds the snapshot offset.
--
-- The file is the list of its lines, and `tail` what stands after the last line break, which a write
-- that fails half-way leaves there. `attached` says whether the open handle writes to the file at
-- the log's path: a rename replaces that file, and the handle is opened again only at the end of a
-- compaction. Directories and paths are left out. What the file system may refuse is an argument.
pub mod Compaction
pub mod History
pub mod Recovery
pub mod Losses
mod Tests
use picloud.Prelude.{
  ℕ, ◌+◌, ◌-◌, ◌≡◌, Bool, true, false, ◌||◌, Option, none, some, List, [], ◌∷◌, ◌++◌, length, drop,
  take, leb, ltb, if◌then◌else◌, ◌==◌,
}
use picloud.Prelude.Equality.{nat_eq}
use picloud.Prelude.Texts.{Text, trim, is_empty}
use picloud.Domain.Error.{
  Result, ok, err, internal, serialize_failed, write_failed, deserialize_failed,
  invalid_discard_count, ◌>>=◌,
}
use picloud.Domain.Events.{EventEnvelope}
use picloud.Events.Log
use picloud.Events.Log.{InMemoryEventLog, is_seen, record_key}

-- `serde_json::to_string` and `serde_json::from_str` at the event envelope.
pub record Codec (Value : Type 0) : Type 0 where
  pub to_string : EventEnvelope Value → Option Text
  pub from_str : Text → Option (EventEnvelope Value)

-- The sidecar file: not there, not a number, or a number.
pub data Meta : Type 0 where
  missing garbled : Meta
  number : ℕ → Meta

-- What the process finds when it starts: the log file, unless there is none, and the sidecar.
pub record Disk : Type 0 where
  pub lines : Option (List Text)
  pub tail : Text
  pub meta : Meta

pub record PersistentEventLog (Value : Type 0) : Type 0 where
  pub inner : InMemoryEventLog Value
  pub file : List Text
  pub tail : Text
  pub attached : Bool
  pub meta : Meta
  pub snapshot_offset : ℕ

-- `writeln!` of a line: it is written, or the call fails after some of its characters.
pub data WriteOutcome : Type 0 where
  written : WriteOutcome
  refused : ℕ → WriteOutcome

abbrev pub load_offset : Meta → ℕ
load_offset missing = 0
load_offset garbled = 0
load_offset (number n) = n

abbrev or_empty : Option (List Text) → List Text
or_empty none = []
or_empty (some lines) = lines

-- A line goes behind what the last write left. A handle to a replaced file writes nothing here.
abbrev write_line : Bool → Text → List Text → Text → List Text
write_line true line file tail = file ++ (tail ++ line) ∷ []
write_line false line file tail = file

abbrev end_line : Bool → Text → Text
end_line true tail = []
end_line false tail = tail

abbrev write_part : Bool → ℕ → Text → Text → Text
write_part true n line tail = tail ++ take n line
write_part false n line tail = tail

-- The line that a reader finds after the last line break, if any.
abbrev pub tail_line : Text → List Text
tail_line [] = []
tail_line (c ∷ t) = (c ∷ t) ∷ []

module _ {Value : Type 0} where
  -- The body of the replay loop after a line is parsed: no check for duplicates.
  unfoldable pub push_replayed :
      EventEnvelope Value → InMemoryEventLog Value → InMemoryEventLog Value
  push_replayed event s = record s {
    events = s.events ++ event ∷ [];
    seen_keys = record_key s.seen_keys event.idempotency_key;
  }

  abbrev push_parsed :
      Option (EventEnvelope Value) → InMemoryEventLog Value → Result (InMemoryEventLog Value)
  push_parsed none s = err (internal deserialize_failed)
  push_parsed (some event) s = ok (push_replayed event s)

  unfoldable replay_line :
      Codec Value → Text → InMemoryEventLog Value → Result (InMemoryEventLog Value)
  replay_line codec line s =
      if is_empty (trim line) then ok s else push_parsed (codec.from_str (trim line)) s

  unfoldable pub replay :
      Codec Value → List Text → InMemoryEventLog Value → Result (InMemoryEventLog Value)
  unfolding replay_line
  replay codec [] s = ok s
  replay codec (line ∷ lines) s = replay_line codec line s >>= λ t. replay codec lines t

  unfoldable pub open_log : Codec Value → Disk → Result (PersistentEventLog Value)
  unfolding replay Log.new
  open_log codec disk =
      replay codec (or_empty disk.lines ++ tail_line disk.tail) Log.new >>= λ inner. ok (record {
        inner = inner;
        file = or_empty disk.lines;
        tail = disk.tail;
        attached = true;
        meta = disk.meta;
        snapshot_offset = load_offset disk.meta;
      })

  -- The part of the state that is on the disk.
  unfoldable pub disk_of : PersistentEventLog Value → Disk
  disk_of s = record { lines = some s.file; tail = s.tail; meta = s.meta }

  abbrev pub append_line :
      Option Text
      → WriteOutcome
      → EventEnvelope Value
      → PersistentEventLog Value
      → Result (Unit {0}) × PersistentEventLog Value
  append_line none w event s = (err (internal serialize_failed), s)
  append_line (some line) (refused n) event s =
      (err (internal write_failed), record s { tail = write_part s.attached n line s.tail })
  append_line (some line) written event s =
      let (r, inner) = Log.append event s.inner in
      (
        r,
        record s {
          inner = inner;
          file = write_line s.attached line s.file s.tail;
          tail = end_line s.attached s.tail;
        },
      )

  -- Durability before broadcast: the line is written, then the in-memory log appends.
  unfoldable pub append :
      Codec Value
      → WriteOutcome
      → EventEnvelope Value
      → PersistentEventLog Value
      → Result (Unit {0}) × PersistentEventLog Value
  append codec w event s =
      if is_seen s.inner.seen_keys event.idempotency_key
      then (ok tt, s)
      else append_line (codec.to_string event) w event s

  unfoldable pub len : PersistentEventLog Value → ℕ
  len s = Log.len s.inner

  unfoldable pub total_event_count : PersistentEventLog Value → ℕ
  unfolding Log.len
  total_event_count s = s.snapshot_offset + Log.len s.inner

  -- A logical offset, less what was compacted away.
  unfoldable pub events_since : ℕ → PersistentEventLog Value → List (EventEnvelope Value)
  events_since offset s =
      Log.events_since (if ltb s.snapshot_offset offset then offset - s.snapshot_offset else 0)
        s.inner
