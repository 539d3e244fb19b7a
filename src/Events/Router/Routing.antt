-- ===== src/Events/Router/Routing.antt =====
-- What `route_event` appends and returns, over the in-memory event log.
use picloud.Prelude.{
  ℕ, ◌+◌, ◌≡◌, refl, ap, ◌∙◌, ◌⊎◌, Bool, true, false, not, Option, none, some, List, [], ◌∷◌, ◌++◌,
  retain, retain-same, ==_iff, ◌↔◌, any, map, ◌==◌, arith, append-nil, append_assoc, Bool-cases,
  inl, inr, nat_beq,
}
use picloud.Prelude.Equality.{list_eq, nat_eq}
use picloud.Prelude.Texts.{Text, codes, strip_prefix, split_head}
use picloud.Domain.Error.{ok}
use picloud.Domain.Iri.{IriBuilder, product, root, event_schema}
use picloud.Domain.Events.{EventEnvelope, EventLog, Uuid, new_envelope}
use picloud.Events.Log
use picloud.Events.Log.{InMemoryEventLog}
use picloud.Events.Stores.{in_memory}
use picloud.Events.Router.{
  RegisteredSubscription, SubscriptionEventRoutedPayload, RoutedEventInfo, is_for, payload_of,
  routed_event, route_loop, route_event, route_in, route_one, after_last, products_segment,
  extract_product_name,
}

abbrev pub reported : RegisteredSubscription → RoutedEventInfo
reported sub = record {
  subscription_iri = sub.subscription_iri;
  subscriber_product = sub.subscriber_product;
  handler_name = sub.handler_name;
}

-- The subscription is to that product and event type.
abbrev IsFor : Text → Text → RegisteredSubscription → Type 0
IsFor p t sub = (sub.source_product ≡ p) × (sub.event_type ≡ t)

is_for_iff : (p t : Text) (sub : RegisteredSubscription) → (is_for p t sub ≡ true) ↔ IsFor p t sub
is_for_iff p t sub = (
  λ h. ((==_iff sub.source_product p).0 (ground arith), (==_iff sub.event_type t).0 (ground arith)),
  λ h. ground (arith, ==_iff sub.source_product p, ==_iff sub.event_type t, h.0, h.1),
)

module _ {Value : Type 0} (builder : IriBuilder)
    (value : SubscriptionEventRoutedPayload Value → Value) (fresh : ℕ → Uuid × ℕ) where
  -- The event that a subscriber gets, and what is reported of it.
  abbrev routed_to : ℕ → EventEnvelope Value → RegisteredSubscription → EventEnvelope Value
  routed_to i event sub = record {
    id = (fresh i).0;
    schema = event_schema builder (codes "SubscriptionEventRouted") (codes "1");
    event_type = codes "SubscriptionEventRouted";
    timestamp = (fresh i).1;
    source = event.source;
    product = some sub.subscriber_product;
    correlation_id = event.correlation_id;
    idempotency_key = none;
    traceparent = none;
    replay = none;
    payload = value (record {
      subscription_iri = sub.subscription_iri;
      source_product = sub.source_product;
      subscriber_product = sub.subscriber_product;
      handler_name = sub.handler_name;
      original_event_type = event.event_type;
      original_event_id = event.id;
      original_payload = event.payload;
    });
  }

  -- The routed events of some subscriptions, numbered from `i`.
  abbrev pub routed_events :
      ℕ → EventEnvelope Value → List RegisteredSubscription → List (EventEnvelope Value)
  routed_events i event [] = []
  routed_events i event (sub ∷ subs) = routed_to i event sub ∷ routed_events (i + 1) event subs

  module _ (to_value : SubscriptionEventRoutedPayload Value → Option Value)
      (serializes : (p : SubscriptionEventRoutedPayload Value) → to_value p ≡ some (value p)) where
    route_one_lem :
        (i : ℕ) (sub : RegisteredSubscription) (event : EventEnvelope Value)
        (s : InMemoryEventLog Value)
        → let e = routed_to i event sub in
          route_one in_memory to_value builder (fresh i) sub event s
          ≡ (ok (reported sub), record s { events = s.events ++ e ∷ []; sent = s.sent ++ e ∷ [] })
    unfolding route_one Log.append payload_of routed_event new_envelope
    route_one_lem i sub event s = rw serializes

    route_loop_lem :
        (i : ℕ) (p : Text) (event : EventEnvelope Value) (subs : List RegisteredSubscription)
        (s : InMemoryEventLog Value)
        → let matching = retain (is_for p event.event_type) subs in
          let new = routed_events i event matching in
          route_loop in_memory to_value builder fresh i p event subs s ≡ (
            ok (map reported matching),
            record s { events = s.events ++ new; sent = s.sent ++ new },
          )
    unfolding route_loop
    route_loop_lem i p event [] s = rw (append-nil s.events, append-nil s.sent)
    route_loop_lem i p event (sub ∷ subs) s = elim (Bool-cases (is_for p event.event_type sub)) [
      | inl hit ↦
          let e = routed_to i event sub in
          let t : InMemoryEventLog Value = record s {
            events = s.events ++ e ∷ [];
            sent = s.sent ++ e ∷ [];
          } in
          rw hit
            (rw route_one_lem (rw (route_loop_lem (i + 1) p event subs t) (simp (append_assoc))))
      | inr miss ↦ rw miss (route_loop_lem i p event subs s)
    ]

    -- Over the in-memory event log, and where every payload serializes: an event of a product is
    -- routed to each subscription of that product and event type, by whatever test finds these, in
    -- the order of registration. For each, one event is appended and broadcast, scoped to the
    -- subscriber, with the source and the correlation of the event and with the event in its
    -- payload, and is reported; and nothing else is.
    pub route_event_lem :
        (event : EventEnvelope Value) (p : Text) (subs : List RegisteredSubscription)
        (s : InMemoryEventLog Value) (wanted : RegisteredSubscription → Bool)
        → event.product ≡ some p
        → ((sub : RegisteredSubscription) → (wanted sub ≡ true) ↔ IsFor p event.event_type sub)
        → let matching = retain wanted subs in
          let new = routed_events 0 event matching in
          route_event in_memory to_value builder fresh event subs s ≡ (
            ok (map reported matching),
            record s { events = s.events ++ new; sent = s.sent ++ new },
          )
    unfolding route_event
    route_event_lem event p subs s wanted h w =
        ap (λ (o : Option Text). route_in in_memory to_value builder fresh o event subs s) h
        ∙ route_loop_lem 0 p event subs s
        ∙ ap
            (λ ms.
              let new = routed_events 0 event ms in
              (ok (map reported ms), record s { events = s.events ++ new; sent = s.sent ++ new }))
            (retain-same (IsFor p event.event_type) (is_for p event.event_type) wanted subs
              (λ sub. is_for_iff p event.event_type sub) w)

module _ {Value S : Type 0} (log : EventLog Value S)
    (to_value : SubscriptionEventRoutedPayload Value → Option Value) (builder : IriBuilder) where
  abbrev of_type : Text → RegisteredSubscription → Bool
  of_type t sub = sub.event_type == t

  route_loop_quiet :
      (fresh : ℕ → Uuid × ℕ) (i : ℕ) (p : Text) (event : EventEnvelope Value)
      (subs : List RegisteredSubscription) (s : S)
      → any (of_type event.event_type) subs ≡ false
      → route_loop log to_value builder fresh i p event subs s ≡ (ok [], s)
  unfolding route_loop
  route_loop_quiet fresh i p event [] s h = refl
  route_loop_quiet fresh i p event (sub ∷ subs) s h =
      let miss : is_for p event.event_type sub ≡ false = ground arith in
      rw miss (route_loop_quiet fresh i p event subs s (ground arith))

  route_in_quiet :
      (fresh : ℕ → Uuid × ℕ) (o : Option Text) (event : EventEnvelope Value)
      (subs : List RegisteredSubscription) (s : S)
      → (o ≡ none) ⊎ (any (of_type event.event_type) subs ≡ false)
      → route_in log to_value builder fresh o event subs s ≡ (ok [], s)
  route_in_quiet fresh none event subs s h = refl
  route_in_quiet fresh (some p) event subs s (inl h) = cc
  route_in_quiet fresh (some p) event subs s (inr h) = route_loop_quiet fresh 0 p event subs s h

  -- Routing does not feed itself: unless a subscription asks for the event type of routed events, an
  -- event that the router made is routed no further, over any event log; nor is an event that belongs
  -- to no product.
  pub route_event_ends :
      (fresh : ℕ → Uuid × ℕ) (f : Uuid × ℕ) (sub : RegisteredSubscription)
      (event platform : EventEnvelope Value) (v : Value) (subs : List RegisteredSubscription)
      (s : S)
      → any (of_type (codes "SubscriptionEventRouted")) subs ≡ false
      → platform.product ≡ none
      → (route_event log to_value builder fresh (routed_event builder f sub event v) subs s
          ≡ (ok [], s))
        × (route_event log to_value builder fresh platform subs s ≡ (ok [], s))
  unfolding route_event routed_event
  route_event_ends fresh f sub event platform v subs s h p = (
    route_in_quiet fresh (some sub.subscriber_product) (routed_event builder f sub event v) subs s
        (inr h),
    route_in_quiet fresh platform.product platform subs s (inl p),
  )

-- No slash in the text.
abbrev is_segment : Text → Bool
is_segment s = not (any (λ c. nat_beq c b'/') s)

strip_prefix-none :
    (s p : Text) → is_segment s ≡ true → is_segment p ≡ false → strip_prefix s p ≡ none
unfolding strip_prefix
strip_prefix-none s [] h k = cc
strip_prefix-none [] (c ∷ p) h k = refl
strip_prefix-none (x ∷ s) (c ∷ p) h k = ground (arith, strip_prefix-none s p)

after_last-none : (s : Text) → is_segment s ≡ true → after_last products_segment s ≡ none
unfolding after_last strip_prefix
after_last-none [] h = refl
after_last-none (c ∷ s) h = ground (arith, after_last-none s)

after_last-append :
    (sep pre t x : Text) → after_last sep t ≡ some x → after_last sep (pre ++ t) ≡ some x
unfolding after_last
after_last-append sep [] t x h = h
after_last-append sep (c ∷ pre) t x h = ground (arith, after_last-append sep pre t x h)

after_last-segment :
    (name : Text)
    → is_segment name ≡ true
    → after_last products_segment (products_segment ++ name) ≡ some name
unfolding after_last strip_prefix
after_last-segment name h =
    ground (arith, after_last-none name h, strip_prefix-none name (codes "products/") h refl)

split_head-segment : (s : Text) → is_segment s ≡ true → split_head b'/' s ≡ s
unfolding split_head
split_head-segment [] h = refl
split_head-segment (c ∷ s) h = ground (arith, split_head-segment s)

-- The router reads back the product name of the IRI that the builder makes for a product, at any
-- cluster domain, if the name has no slash.
extract_product_name-product :
    (b : IriBuilder) (name : Text)
    → is_segment name ≡ true
    → extract_product_name (product b name) ≡ name
unfolding extract_product_name product
extract_product_name-product b name h =
    rw
      (after_last-append products_segment (root b) (products_segment ++ name) name
        (after_last-segment name h))
      (split_head-segment name h)
