-- ===== src/Events/Log.antt =====
-- `InMemoryEventLog` of crates/picloud-events/src/implementation.rs. The three locks guard the three
-- fields; `sent` is what the broadcast sender was given, in order. `append` here runs alone: the
-- calls that interleave between its locks are in Events/Race.antt.
pub mod Laws
use picloud.Prelude.{
  ℕ, Bool, false, Option, none, some, List, [], ◌∷◌, ◌++◌, length, drop, leb, if◌then◌else◌,
  contains,
}
use picloud.Prelude.Equality.{list_eq, nat_eq}
use picloud.Prelude.Texts.{Text}
use picloud.Domain.Error.{Result, ok}
use picloud.Domain.Events.{EventEnvelope}

pub record InMemoryEventLog (Value : Type 0) : Type 0 where
  pub events : List (EventEnvelope Value)
  pub sent : List (EventEnvelope Value)
  pub seen_keys : List Text

unfoldable pub new : {Value : Type 0} → InMemoryEventLog Value
new = record { events = []; sent = []; seen_keys = [] }

abbrev pub is_seen : List Text → Option Text → Bool
is_seen seen none = false
is_seen seen (some key) = contains seen key

-- `HashSet::insert`: as a set, one more member.
abbrev pub record_key : List Text → Option Text → List Text
record_key seen none = seen
record_key seen (some key) = key ∷ seen

unfoldable pub append :
    {Value : Type 0}
    → EventEnvelope Value
    → InMemoryEventLog Value
    → Result (Unit {0}) × InMemoryEventLog Value
append event s = if is_seen s.seen_keys event.idempotency_key then (ok tt, s) else (
  ok tt,
  record {
    events = s.events ++ event ∷ [];
    sent = s.sent ++ event ∷ [];
    seen_keys = record_key s.seen_keys event.idempotency_key;
  },
)

unfoldable pub len : {Value : Type 0} → InMemoryEventLog Value → ℕ
len s = length s.events

-- `events[offset..]`, empty past the end.
unfoldable pub events_since :
    {Value : Type 0} → ℕ → InMemoryEventLog Value → List (EventEnvelope Value)
events_since offset s = if leb (length s.events) offset then [] else drop offset s.events
