-- ===== src/Events/Samples.antt =====
-- Events of one product, for the tests of the modules of crates/picloud-events.
use picloud.Prelude.{ℕ, Option, none, some, List}
use picloud.Prelude.Equality.{nat_eq, list_eq}
use picloud.Prelude.Texts.{Text, codes}
use picloud.Domain.Events.{EventEnvelope}
use picloud.Events.Log.{InMemoryEventLog}

-- An event with a payload and a key, of the product `shop`.
abbrev sample : ℕ → Option Text → EventEnvelope ℕ
sample p key = record {
  id = p;
  schema = codes "https://picloud.local/schemas/events/Paid/v1";
  event_type = codes "Paid";
  timestamp = 7;
  source = codes "https://picloud.local/nodes/pi-1";
  product = some (codes "shop");
  correlation_id = 3;
  idempotency_key = key;
  traceparent = none;
  replay = none;
  payload = p;
}

abbrev pub key : Text
key = codes "k"

abbrev pub first : EventEnvelope ℕ
first = sample b'a' none

abbrev pub second : EventEnvelope ℕ
second = sample b'b' none

abbrev pub keyed : EventEnvelope ℕ
keyed = sample b'c' (some key)

abbrev pub log_of : List (EventEnvelope ℕ) → List Text → InMemoryEventLog ℕ
log_of es seen = record { events = es; sent = es; seen_keys = seen }
