-- ===== src/Events/Persistent/Tests.antt =====
-- Runs of the persistent log of crates/picloud-events at concrete files.
use picloud.Prelude.{
  ℕ, ◌+◌, ◌≡◌, refl, true, Option, none, some, List, [], ◌∷◌, ◌++◌, arith, if◌then◌else◌, ◌==◌, All,
}
use picloud.Prelude.Equality.{nat_eq, list_eq}
use picloud.Prelude.Texts.{Text, codes, trim, trim_start, trim_end, is_whitespace}
use picloud.Domain.Error.{ok}
use picloud.Domain.Events.{EventEnvelope}
use picloud.Events.Persistent
use picloud.Events.Persistent.{
  Codec, PersistentEventLog, number, written, refused, total_event_count, open_log, disk_of,
}
use picloud.Events.Persistent.Compaction.{no_fault, sidecar_fails, compact}
use picloud.Events.Persistent.History.{
  Represents, append-Represents, compact-Represents, events_since-Represents,
}
use picloud.Events.Persistent.Recovery.{
  IsDurable, RoundTrips, Encodes, append-IsDurable, open_log-disk_of,
}
use picloud.Events.Persistent.Losses.{sidecar_loss}
use picloud.Events.Samples.{first, second, keyed, log_of}

-- A line for each of the three events.
abbrev read : Text → Option (EventEnvelope ℕ)
read line =
    if line == codes "a"
    then some first
    else if line == codes "b"
    then some second
    else if line == codes "c"
    then some keyed
    else none

abbrev codec : Codec ℕ
codec = record { to_string = λ e. some (e.payload ∷ []); from_str = read }

-- Two events in the file, one compacted away before.
abbrev stored : PersistentEventLog ℕ
stored = record {
  inner = log_of (first ∷ second ∷ []) [];
  file = codes "a" ∷ codes "b" ∷ [];
  tail = [];
  attached = true;
  meta = number 1;
  snapshot_offset = 1;
}

abbrev history : List (EventEnvelope ℕ)
history = keyed ∷ first ∷ second ∷ []

stored-Represents : Represents history stored
stored-Represents = record { compacted = omega arith; rest = refl }

Encodes-first : Encodes codec (codes "a") first
unfolding trim trim_start trim_end is_whitespace
Encodes-first = record { trimmed = refl; not_empty = refl; parsed = refl }

Encodes-second : Encodes codec (codes "b") second
unfolding trim trim_start trim_end is_whitespace
Encodes-second = record { trimmed = refl; not_empty = refl; parsed = refl }

Encodes-keyed : Encodes codec (codes "c") keyed
unfolding trim trim_start trim_end is_whitespace
Encodes-keyed = record { trimmed = refl; not_empty = refl; parsed = refl }

stored-IsDurable : IsDurable codec stored
stored-IsDurable = record {
  handle = refl;
  ended = refl;
  sidecar = refl;
  stored = (Encodes-first, (Encodes-second, tt));
}

stored-RoundTrips : All (RoundTrips codec) stored.inner.events
stored-RoundTrips = ((codes "a", refl, Encodes-first), ((codes "b", refl, Encodes-second), tt))

append-Represents_example :
    Represents (history ++ keyed ∷ []) (Persistent.append codec written keyed stored).1
append-Represents_example = append-Represents codec written keyed history stored stored-Represents

compact-Represents_example : Represents history (compact codec no_fault 1 stored).1
compact-Represents_example = compact-Represents codec no_fault 1 history stored stored-Represents

events_since-Represents_example : Persistent.events_since 2 stored ≡ second ∷ []
events_since-Represents_example = events_since-Represents history stored 2 stored-Represents

append-IsDurable_example : IsDurable codec (Persistent.append codec written keyed stored).1
append-IsDurable_example =
    append-IsDurable codec written keyed stored tt (codes "c", refl, Encodes-keyed) stored-IsDurable

open_log-disk_of_example :
    (t : PersistentEventLog ℕ) × (open_log codec (disk_of stored) ≡ ok t)
    × (t.inner.events ≡ first ∷ second ∷ [])
    × (t.snapshot_offset ≡ 1)
    × (t.file ≡ stored.file)
    × (t.tail ≡ [])
    × (t.meta ≡ number 1)
    × IsDurable codec t
open_log-disk_of_example = open_log-disk_of codec stored stored-IsDurable

sidecar_loss_example :
    (t : PersistentEventLog ℕ) × (open_log codec (disk_of (compact codec sidecar_fails 1 stored).1)
      ≡ ok t)
    × (t.inner.events ≡ second ∷ [])
    × (total_event_count t + 1 ≡ total_event_count stored)
sidecar_loss_example =
    sidecar_loss codec 1 stored stored-RoundTrips stored-IsDurable (omega arith) (omega arith)
