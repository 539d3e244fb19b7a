-- ===== src/Events/Router.antt =====
-- `PlatformEventRouter` of crates/picloud-events/src/router.rs. The event log is any implementation
-- of `EventLog`; `serde_json::to_value`, the fresh identifiers and the clock are parameters.
pub mod Laws
pub mod Routing
use picloud.Prelude.{
  ℕ, ◌+◌, ◌≡◌, Bool, true, false, not, ◌&&◌, Option, none, some, List, [], ◌∷◌, ◌++◌, length,
  retain, any, map, if◌then◌else◌, ◌==◌, ◌!=◌,
}
use picloud.Prelude.Equality.{list_eq, nat_eq}
use picloud.Prelude.Texts.{Text, codes, strip_prefix, split_head}
use picloud.Domain.Error.{
  Result, ok, err, resource_not_found, event_routing_failed, no_product, payload_not_serialized,
  append_failed,
}
use picloud.Domain.Iri.{ResourceIri, IriBuilder, event_schema}
use picloud.Domain.Events.{EventEnvelope, EventLog, Uuid, new_envelope}

-- The fields of `EventSubscription` and its `meta` that the router reads.
pub record EventSubscription : Type 0 where
  pub iri : ResourceIri
  pub product : Option Text
  pub source_product_iri : ResourceIri
  pub event_type : Text
  pub handler_name : Text

pub record RegisteredSubscription : Type 0 where
  pub subscription_iri : ResourceIri
  pub source_product : Text
  pub event_type : Text
  pub subscriber_product : Text
  pub handler_name : Text

pub record SubscriptionEventRoutedPayload (Value : Type 0) : Type 0 where
  pub subscription_iri : ResourceIri
  pub source_product : Text
  pub subscriber_product : Text
  pub handler_name : Text
  pub original_event_type : Text
  pub original_event_id : Uuid
  pub original_payload : Value

pub record RoutedEventInfo : Type 0 where
  pub subscription_iri : ResourceIri
  pub subscriber_product : Text
  pub handler_name : Text

abbrev pub products_segment : Text
products_segment = codes "/products/"

abbrev or_none : Option Text → Option Text → Option Text
or_none (some t) o = some t
or_none none o = o

-- `s.rsplit("/products/").next()`: what follows the last occurrence, or the whole of `s`.
unfoldable pub after_last : Text → Text → Option Text
after_last sep [] = none
after_last sep (c ∷ s) = or_none (after_last sep s) (strip_prefix (c ∷ s) sep)

abbrev pub get_or : Option Text → Text → Text
get_or none d = d
get_or (some t) d = t

unfoldable pub extract_product_name : ResourceIri → Text
unfolding after_last
extract_product_name iri = split_head b'/' (get_or (after_last products_segment iri) iri)

abbrev pub registered_of : EventSubscription → Text → RegisteredSubscription
registered_of subscription subscriber_product = record {
  subscription_iri = subscription.iri;
  source_product = extract_product_name subscription.source_product_iri;
  event_type = subscription.event_type;
  subscriber_product = subscriber_product;
  handler_name = subscription.handler_name;
}

abbrev pub has_iri : ResourceIri → RegisteredSubscription → Bool
has_iri iri s = s.subscription_iri == iri

abbrev pub register_for :
    Option Text
    → EventSubscription
    → List RegisteredSubscription
    → Result (Unit {0}) × List RegisteredSubscription
register_for none subscription subs = (err (event_routing_failed subscription.iri no_product), subs)
register_for (some product) subscription subs =
    if any (has_iri subscription.iri) subs
    then (ok tt, subs)
    else (ok tt, subs ++ registered_of subscription product ∷ [])

unfoldable pub register_subscription :
    EventSubscription
    → List RegisteredSubscription
    → Result (Unit {0}) × List RegisteredSubscription
register_subscription subscription subs = register_for subscription.product subscription subs

abbrev pub other_iri : ResourceIri → RegisteredSubscription → Bool
other_iri iri s = s.subscription_iri != iri

-- `before - subs.len()` is 0 exactly where `retain` removes nothing.
unfoldable pub unregister_subscription :
    ResourceIri → List RegisteredSubscription → Result (Unit {0}) × List RegisteredSubscription
unregister_subscription iri subs =
    if any (has_iri iri) subs
    then (ok tt, retain (other_iri iri) subs)
    else (err (resource_not_found iri), retain (other_iri iri) subs)

-- The product of the event is the source, and its type is the one subscribed to.
abbrev pub is_for : Text → Text → RegisteredSubscription → Bool
is_for product event_type sub = sub.source_product == product && sub.event_type == event_type

abbrev pub info_of : RegisteredSubscription → RoutedEventInfo
info_of sub = record {
  subscription_iri = sub.subscription_iri;
  subscriber_product = sub.subscriber_product;
  handler_name = sub.handler_name;
}

unfoldable pub payload_of :
    {Value : Type 0}
    → RegisteredSubscription
    → EventEnvelope Value
    → SubscriptionEventRoutedPayload Value
payload_of sub event = record {
  subscription_iri = sub.subscription_iri;
  source_product = sub.source_product;
  subscriber_product = sub.subscriber_product;
  handler_name = sub.handler_name;
  original_event_type = event.event_type;
  original_event_id = event.id;
  original_payload = event.payload;
}

unfoldable pub routed_event :
    {Value : Type 0}
    → IriBuilder
    → Uuid × ℕ
    → RegisteredSubscription
    → EventEnvelope Value
    → Value
    → EventEnvelope Value
unfolding new_envelope
routed_event builder (id, now) sub event value =
    new_envelope id now (event_schema builder (codes "SubscriptionEventRouted") (codes "1"))
      (codes "SubscriptionEventRouted") event.source (some sub.subscriber_product)
      event.correlation_id value

abbrev cons_info :
    {S : Type 0}
    → RoutedEventInfo
    → Result (List RoutedEventInfo) × S
    → Result (List RoutedEventInfo) × S
cons_info info (ok infos, s) = (ok (info ∷ infos), s)
cons_info info (err e, s) = (err e, s)

abbrev continue :
    {S : Type 0}
    → Result RoutedEventInfo × S
    → (S → Result (List RoutedEventInfo) × S)
    → Result (List RoutedEventInfo) × S
continue (ok info, s) rest = cons_info info (rest s)
continue (err e, s) rest = (err e, s)

module _ {Value S : Type 0} (log : EventLog Value S)
    (to_value : SubscriptionEventRoutedPayload Value → Option Value) (builder : IriBuilder) where
  abbrev appended_for : RegisteredSubscription → Result (Unit {0}) × S → Result RoutedEventInfo × S
  appended_for sub (ok u, s) = (ok (info_of sub), s)
  appended_for sub (err e, s) = (err (event_routing_failed sub.subscription_iri append_failed), s)

  abbrev route_value :
      Uuid × ℕ
      → RegisteredSubscription
      → EventEnvelope Value
      → Option Value
      → S
      → Result RoutedEventInfo × S
  route_value fresh sub event none s =
      (err (event_routing_failed sub.subscription_iri payload_not_serialized), s)
  route_value fresh sub event (some value) s =
      appended_for sub (log.append (routed_event builder fresh sub event value) s)

  -- The body of the loop for a subscription that matches.
  unfoldable pub route_one :
      Uuid × ℕ → RegisteredSubscription → EventEnvelope Value → S → Result RoutedEventInfo × S
  unfolding payload_of routed_event
  route_one fresh sub event s = route_value fresh sub event (to_value (payload_of sub event)) s

  -- The loop. `fresh` gives the identifier and the time of each routed event, in their order.
  unfoldable pub route_loop :
      (ℕ → Uuid × ℕ)
      → ℕ
      → Text
      → EventEnvelope Value
      → List RegisteredSubscription
      → S
      → Result (List RoutedEventInfo) × S
  route_loop fresh i product event [] s = (ok [], s)
  route_loop fresh i product event (sub ∷ subs) s =
      let hit =
        continue (route_one (fresh i) sub event s)
          (λ t. route_loop fresh (i + 1) product event subs t) in
      let miss = route_loop fresh i product event subs s in
      if is_for product event.event_type sub then hit else miss

  abbrev pub route_in :
      (ℕ → Uuid × ℕ)
      → Option Text
      → EventEnvelope Value
      → List RegisteredSubscription
      → S
      → Result (List RoutedEventInfo) × S
  route_in fresh none event subs s = (ok [], s)
  route_in fresh (some product) event subs s = route_loop fresh 0 product event subs s

  unfoldable pub route_event :
      (ℕ → Uuid × ℕ)
      → EventEnvelope Value
      → List RegisteredSubscription
      → S
      → Result (List RoutedEventInfo) × S
  unfolding route_loop
  route_event fresh event subs s = route_in fresh event.product event subs s
