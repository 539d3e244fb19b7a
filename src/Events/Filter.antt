-- ===== src/Events/Filter.antt =====
-- `matches_filter` and `subscribe` of crates/picloud-events/src/implementation.rs. A receiver is
-- what the sender was given from the subscription on; a receiver that lags behind its channel of
-- 1024 messages loses some, which is not modelled.
use picloud.Prelude.{
  ℕ, ◌≡◌, refl, Bool, true, false, not, ◌&&◌, Option, none, some, List, [], ◌∷◌, drop, retain,
  arith, if◌then◌else◌, contains, ◌==◌, ◌!=◌, ◌↔◌, ◌⊎◌, inl, inr, ◌∙◌, retain-same,
}
use picloud.Prelude.Equality.{list_eq, nat_eq, list_beq_iff}
use picloud.Prelude.Texts.{Text}
use picloud.Domain.Events.{EventEnvelope, EventFilter, Uuid}
use picloud.Events.Log.{InMemoryEventLog}

abbrev other_correlation : Option Uuid → Uuid → Bool
other_correlation none c = false
other_correlation (some cid) c = c != cid

abbrev other_product : Option Text → Option Text → Bool
other_product none p = false
other_product (some product) none = true
other_product (some product) (some ep) = not (ep == product)

abbrev is_nil : List Text → Bool
is_nil [] = true
is_nil (t ∷ ts) = false

-- The early returns of the source, in their order.
unfoldable pub matches_filter : {Value : Type 0} → EventEnvelope Value → EventFilter → Bool
matches_filter event filter =
    if other_correlation filter.correlation_id event.correlation_id
    then false
    else if other_product filter.product event.product
    then false
    else if not (is_nil filter.event_types) && not (contains filter.event_types event.event_type)
    then false
    else true

abbrev is_unset {ℓ} : {A : Type ℓ} → Option A → Bool
is_unset none = true
is_unset (some a) = false

-- The raw receiver for a filter with no criterion, a forwarding task for any other.
unfoldable pub receive :
    {Value : Type 0} → EventFilter → List (EventEnvelope Value) → List (EventEnvelope Value)
receive filter stream =
    if is_unset filter.correlation_id && is_unset filter.product && is_nil filter.event_types
    then stream
    else retain (λ event. matches_filter event filter) stream

-- What a receiver has that subscribed when `from` messages had been sent.
unfoldable received :
    {Value : Type 0} → EventFilter → ℕ → InMemoryEventLog Value → List (EventEnvelope Value)
unfolding receive
received filter from s = receive filter (drop from s.sent)

correlation_lem :
    (o : Option Uuid) (c : Uuid)
    → (other_correlation o c ≡ false) ↔ ((d : Uuid) → o ≡ some d → c ≡ d)
correlation_lem none c = (λ h d p. cc, λ h. refl)
correlation_lem (some d) c = (λ h e p. ground arith, λ h. ground (arith, h d refl))

product_lem :
    (o q : Option Text) → (other_product o q ≡ false) ↔ ((p : Text) → o ≡ some p → q ≡ some p)
product_lem none q = (λ h p e. cc, λ h. refl)
product_lem (some p) none = (λ h e p. cc, λ h. cc (h p refl))
product_lem (some p) (some q) =
    (λ h r e. ground (arith, list_beq_iff q p), λ h. ground (arith, list_beq_iff q p, h p refl))

types_lem :
    (ts : List Text) (t : Text)
    → ((not (is_nil ts) && not (contains ts t)) ≡ false) ↔ ((ts ≡ []) ⊎ (contains ts t ≡ true))
types_lem [] t = (λ h. inl refl, λ h. refl)
types_lem (x ∷ ts) t = (λ h. inr (ground arith), λ h. ground arith)

module _ {Value : Type 0} where
  matches_unset :
      (e : EventEnvelope Value) (f : EventFilter)
      → f.correlation_id ≡ none
      → f.product ≡ none
      → f.event_types ≡ []
      → matches_filter e f ≡ true
  unfolding matches_filter
  matches_unset e f p q r = ground arith

  retain_unset :
      (f : EventFilter) (stream : List (EventEnvelope Value))
      → f.correlation_id ≡ none
      → f.product ≡ none
      → f.event_types ≡ []
      → retain (λ event. matches_filter event f) stream ≡ stream
  retain_unset f [] p q r = refl
  retain_unset f (e ∷ es) p q r = ground (arith, matches_unset e f p q r, retain_unset f es p q r)

  -- What a filter asks of an event: each criterion that it names.
  pub record IsWanted (f : EventFilter) (e : EventEnvelope Value) : Type 0 where
    pub correlation : (c : Uuid) → f.correlation_id ≡ some c → e.correlation_id ≡ c
    pub product : (p : Text) → f.product ≡ some p → e.product ≡ some p
    pub event_type : (f.event_types ≡ []) ⊎ (contains f.event_types e.event_type ≡ true)

  -- A filter lets an event through exactly when the event has the correlation and the product that
  -- the filter names, and one of its event types unless it lists none.
  pub matches_filter_iff :
      (e : EventEnvelope Value) (f : EventFilter) → (matches_filter e f ≡ true) ↔ IsWanted f e
  unfolding matches_filter
  matches_filter_iff e f = (
    λ h. record {
      correlation = (correlation_lem f.correlation_id e.correlation_id).0 (ground arith);
      product = (product_lem f.product e.product).0 (ground arith);
      event_type = (types_lem f.event_types e.event_type).0 (ground arith);
    },
    λ w. ground (
      arith,
      (correlation_lem f.correlation_id e.correlation_id).1 w.correlation,
      (product_lem f.product e.product).1 w.product,
      (types_lem f.event_types e.event_type).1 w.event_type,
    ),
  )

  -- Every receiver has exactly the messages that its filter wants, in their order, by whatever test
  -- decides that: those of the correlation and the product that the filter names, and of one of its
  -- event types unless it lists none. A filter with no criterion, which takes the raw stream, is
  -- among them.
  pub receive-eq-retain :
      (f : EventFilter) (stream : List (EventEnvelope Value)) (wanted : EventEnvelope Value → Bool)
      → ((e : EventEnvelope Value) → (wanted e ≡ true) ↔ IsWanted f e)
      → receive f stream ≡ retain wanted stream
  unfolding receive
  receive-eq-retain f stream wanted h =
      let filtered : receive f stream ≡ retain (λ event. matches_filter event f) stream =
        ground (arith, retain_unset f stream) in
      filtered
      ∙ retain-same (IsWanted f) (λ event. matches_filter event f) wanted stream
          (λ e. matches_filter_iff e f) h
