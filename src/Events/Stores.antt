-- ===== src/Events/Stores.antt =====
-- `WriteThroughEventLog` and `ProductEventStore` of crates/picloud-events/src/implementation.rs: two
-- event logs over another one, which each takes as the `EventLog` interface.
use picloud.Prelude.{
  ℕ, ◌≡◌, refl, ap, ◌∙◌, ◌≢◌, Bool, false, none, some, List, [], ◌∷◌, ◌++◌, retain, retain-append,
  All, arith, ◌==◌, append-nil, ◌⊎◌, inl, inr,
}
use picloud.Prelude.Equality.{list_eq, nat_eq, option_eq, list_beq_iff, option_beq_iff}
use picloud.Prelude.Texts.{Text}
use picloud.Domain.Error.{Result, ok, err, PiCloudError}
use picloud.Domain.Events.{EventEnvelope, EventLog}
use picloud.Events.Log
use picloud.Events.Log.{InMemoryEventLog, is_seen}
use picloud.Events.Log.Laws.{append_all, append_retry, events_since-eq-drop}

-- `InMemoryEventLog` as an `EventLog`.
abbrev pub in_memory : {Value : Type 0} → EventLog Value (InMemoryEventLog Value)
in_memory = record { append = Log.append; events_since = Log.events_since }

module _ {Value : Type 0} where
  -- `as_deref() == Some(&self.product)`.
  abbrev in_product : Text → EventEnvelope Value → Bool
  in_product product event = event.product == some product

  abbrev scoped : Text → EventEnvelope Value → EventEnvelope Value
  scoped product event = record event { product = some product }

module _ {Value S : Type 0} (inner : EventLog Value S) where
  -- `ProductEventStore`, at its product's name.
  unfoldable product_store : Text → EventLog Value S
  product_store product = record {
    append = λ event s. inner.append (scoped product event) s;
    events_since = λ offset s. retain (in_product product) (inner.events_since offset s);
  }

  abbrev fall_back : EventEnvelope Value → Result (Unit {0}) × S → Result (Unit {0}) × S
  fall_back event (ok u, s) = (ok u, s)
  fall_back event (err e, s) = inner.append event s

  -- `WriteThroughEventLog`. The callback submits the event to the replication layer, whose apply
  -- callback may change the local store, also before the submission fails.
  unfoldable write_through : (EventEnvelope Value → S → Result (Unit {0}) × S) → EventLog Value S
  write_through write_cb = record {
    append = λ event s. fall_back event (write_cb event s);
    events_since = inner.events_since;
  }

  All-in_product :
      (product : Text) (es : List (EventEnvelope Value))
      → All (λ e. e.product ≡ some product) (retain (in_product product) es)
  All-in_product product [] = tt
  All-in_product product (e ∷ es) =
      ground (arith, All-in_product product es, option_beq_iff e.product (some product))

  -- A product's store shows only the product's events, over any log and from any offset.
  product_store-isolated :
      (product : Text) (n : ℕ) (s : S)
      → All (λ e. e.product ≡ some product) ((product_store product).events_since n s)
  unfolding product_store
  product_store-isolated product n s = All-in_product product (inner.events_since n s)

module _ {Value : Type 0} where
  retain-own :
      (product : Text) (e : EventEnvelope Value) (es : List (EventEnvelope Value))
      → retain (in_product product) (es ++ scoped product e ∷ [])
        ≡ retain (in_product product) es ++ scoped product e ∷ []
  retain-own product e es =
      retain-append (in_product product) es (scoped product e ∷ [])
      ∙ ground (arith, list_beq_iff product product)

  retain-other :
      (product other : Text) (e : EventEnvelope Value) (es : List (EventEnvelope Value))
      → product ≢ other
      → retain (in_product other) (es ++ scoped product e ∷ []) ≡ retain (in_product other) es
  retain-other product other e es h =
      retain-append (in_product other) es (scoped product e ∷ [])
      ∙ ground (arith, list_beq_iff product other, append-nil (retain (in_product other) es))

  -- An event that a product appends, under whatever product name it came, is the next event of that
  -- product's store, and no other product's store shows it.
  product_store-append :
      (product other : Text) (e : EventEnvelope Value) (s : InMemoryEventLog Value)
      → is_seen s.seen_keys e.idempotency_key ≡ false
      → product ≢ other
      → let t = ((product_store in_memory product).append e s).1 in
        ((product_store in_memory product).events_since 0 t
          ≡ (product_store in_memory product).events_since 0 s ++ scoped product e ∷ [])
        × ((product_store in_memory other).events_since 0 t
            ≡ (product_store in_memory other).events_since 0 s)
  unfolding product_store Log.append
  product_store-append product other e s new ne =
      rw (new, events_since-eq-drop, events_since-eq-drop)
        (retain-own product e s.events, retain-other product other e s.events ne)

  -- What the replication layer may do to the local store while it handles an event.
  abbrev AppliesAtMostOnce :
      (EventEnvelope Value → InMemoryEventLog Value → Result (Unit {0}) × InMemoryEventLog Value)
      → Type 0
  AppliesAtMostOnce write_cb =
      (e : EventEnvelope Value) (s : InMemoryEventLog Value)
      → ((write_cb e s).1 ≡ s) ⊎ ((write_cb e s).1 ≡ (Log.append e s).1)

  fall_back_once :
      (e : EventEnvelope Value) (k : Text) (s : InMemoryEventLog Value)
      (x : Result (Unit {0}) × InMemoryEventLog Value)
      → e.idempotency_key ≡ some k
      → (x.1 ≡ s) ⊎ (x.1 ≡ (Log.append e s).1)
      → ((x.0 ≡ ok tt) × ((fall_back in_memory e x).1 ≡ s))
        ⊎ ((fall_back in_memory e x).1 ≡ (Log.append e s).1)
  unfolding Log.append append_all
  fall_back_once e k s (ok u, t) p (inl h) = inl (refl, h)
  fall_back_once e k s (ok u, t) p (inr h) = inr h
  fall_back_once e k s (err x, t) p (inl h) = inr (rw h)
  fall_back_once e k s (err x, t) p (inr h) = inr (
      rw h (ap (λ (r : Result (Unit {0}) × InMemoryEventLog Value). r.1) (append_retry e k [] s p)))

  -- An event with an idempotency key is in the local log once after a write-through append, also
  -- where the replication layer applied it and then reported a failure: the log is what one local
  -- append makes of it, or, with success reported and the apply still to come, unchanged.
  write_through_once :
      (write_cb : EventEnvelope Value
        → InMemoryEventLog Value
        → Result (Unit {0}) × InMemoryEventLog Value)
      (e : EventEnvelope Value) (k : Text) (s : InMemoryEventLog Value)
      → AppliesAtMostOnce write_cb
      → e.idempotency_key ≡ some k
      → (((write_cb e s).0 ≡ ok tt) × (((write_through in_memory write_cb).append e s).1 ≡ s))
        ⊎ (((write_through in_memory write_cb).append e s).1 ≡ (Log.append e s).1)
  unfolding write_through
  write_through_once write_cb e k s h p = fall_back_once e k s (write_cb e s) p (h e s)

  -- An event with no idempotency key that the replication layer applied before it reported a failure
  -- is in the local log twice.
  write_through_twice :
      (write_cb : EventEnvelope Value
        → InMemoryEventLog Value
        → Result (Unit {0}) × InMemoryEventLog Value)
      (e : EventEnvelope Value) (s : InMemoryEventLog Value) (x : PiCloudError)
      → e.idempotency_key ≡ none
      → write_cb e s ≡ (err x, (Log.append e s).1)
      → ((write_through in_memory write_cb).append e s).1.events ≡ s.events ++ e ∷ [] ++ e ∷ []
  unfolding write_through Log.append
  write_through_twice write_cb e s x p q = rw (q, p) (ground arith)
