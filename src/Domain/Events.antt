-- ===== src/Domain/Events.antt =====
-- crates/picloud-domain/src/events.rs and traits.rs: the event envelope, the filter of a
-- subscription, and the `EventLog` trait. A payload is a JSON value, whose type is a parameter.
use picloud.Prelude.{ℕ, Bool, Option, none, List}
use picloud.Prelude.Texts.{Text}
use picloud.Domain.Error.{Result}
use picloud.Domain.Iri.{ResourceIri}

abbrev pub Uuid : Type 0
Uuid = ℕ

pub record ReplayMetadata : Type 0 where
  pub is_replay : Bool
  pub replay_id : Uuid
  pub original_timestamp : ℕ
  pub replayed_at : ℕ

pub record EventEnvelope (Value : Type 0) : Type 0 where
  pub id : Uuid
  pub schema : ResourceIri
  pub event_type : Text
  pub timestamp : ℕ
  pub source : ResourceIri
  pub product : Option Text
  pub correlation_id : Uuid
  pub idempotency_key : Option Text
  pub traceparent : Option Text
  pub replay : Option ReplayMetadata
  pub payload : Value

-- `EventEnvelope::new`, with the fresh identifier and the time that it reads.
unfoldable pub new_envelope :
    {Value : Type 0}
    → Uuid
    → ℕ
    → ResourceIri
    → Text
    → ResourceIri
    → Option Text
    → Uuid
    → Value
    → EventEnvelope Value
new_envelope id now schema event_type source product correlation_id payload = record {
  id = id;
  schema = schema;
  event_type = event_type;
  timestamp = now;
  source = source;
  product = product;
  correlation_id = correlation_id;
  idempotency_key = none;
  traceparent = none;
  replay = none;
  payload = payload;
}

pub record EventFilter : Type 0 where
  pub correlation_id : Option Uuid
  pub product : Option Text
  pub event_types : List Text

-- `EventLog`, over the state that the implementation keeps behind its locks.
pub record EventLog (Value S : Type 0) : Type 0 where
  pub append : EventEnvelope Value → S → Result (Unit {0}) × S
  pub events_since : ℕ → S → List (EventEnvelope Value)
