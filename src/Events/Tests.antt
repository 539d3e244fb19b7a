-- ===== src/Events/Tests.antt =====
-- Runs of the modules of crates/picloud-events at concrete events.
use picloud.Prelude.{
  ==_iff, ◌==◌, ◌&&◌, arith, Bool, true, ℕ, ◌+◌, ◌≡◌, refl, Option, none, some, [], ◌∷◌, ◌++◌,
  arith, retain,
}
use picloud.Prelude.Equality.{nat_eq, list_eq}
use picloud.Prelude.Texts.{codes}
use picloud.Domain.Error.{ok}
use picloud.Domain.Events.{EventEnvelope, EventFilter, Uuid}
use picloud.Domain.Iri.{IriBuilder}
use picloud.Events.Log
use picloud.Events.Log.{InMemoryEventLog}
use picloud.Events.Filter.{matches_filter, receive, receive-eq-retain, matches_filter_iff}
use picloud.Events.Race.{
  Run, start, then_step, here, IsOrdered, Run-IsOrdered, duplicate_race, at, entered, appended,
  section,
}
use picloud.Events.Router.{
  RegisteredSubscription, SubscriptionEventRoutedPayload, route_event, routed_event,
}
use picloud.Events.Router.Routing.{route_event_lem, route_event_ends, routed_events, reported}
use picloud.Events.Stores.{in_memory}
use picloud.Events.Samples.{key, first, second, keyed, log_of}

abbrev any_event : EventEnvelope ℕ → Bool
any_event e = true

entered-IsOrdered : IsOrdered any_event key (at entered keyed ∷ []) (Log.new {Value = ℕ})
unfolding Log.new
entered-IsOrdered = record { accounted = omega arith; recorded_first = λ h. (refl, refl) }

Run-IsOrdered_example :
    let c = at entered keyed in
    IsOrdered any_event key ((section c Log.new).0 ∷ []) (section c (Log.new {Value = ℕ})).1
Run-IsOrdered_example =
    Run-IsOrdered any_event key (then_step start (here (at entered keyed) [] (Log.new {Value = ℕ})))
      entered-IsOrdered

duplicate_race_example :
    Run
      (at entered keyed ∷ at entered keyed ∷ [])
      (log_of [] [])
      (at appended keyed ∷ at appended keyed ∷ [])
      (record {
        events = keyed ∷ keyed ∷ [];
        sent = keyed ∷ keyed ∷ [];
        seen_keys = key ∷ key ∷ [];
      })
duplicate_race_example = duplicate_race keyed keyed key (log_of [] []) refl refl refl

abbrev paid_only : EventFilter
paid_only = record { correlation_id = none; product = none; event_types = codes "Paid" ∷ [] }

receive-eq-retain_example :
    receive paid_only (first ∷ second ∷ [])
    ≡ retain (λ event. matches_filter event paid_only) (first ∷ second ∷ [])
receive-eq-retain_example =
    receive-eq-retain paid_only (first ∷ second ∷ []) (λ e. matches_filter e paid_only)
      (λ e. matches_filter_iff e paid_only)

abbrev subscription : RegisteredSubscription
subscription = record {
  subscription_iri = codes "https://picloud.local/subscriptions/mail";
  source_product = codes "shop";
  event_type = codes "Paid";
  subscriber_product = codes "mail";
  handler_name = codes "send";
}

abbrev payload_value : SubscriptionEventRoutedPayload ℕ → Option ℕ
payload_value p = some p.original_payload

abbrev builder : IriBuilder
builder = record { domain = codes "picloud.local" }

abbrev fresh : ℕ → Uuid × ℕ
fresh i = (100 + i, 8)

abbrev for_shop : RegisteredSubscription → Bool
for_shop sub = sub.source_product == codes "shop" && sub.event_type == codes "Paid"

route_event_lem_example :
    let s : InMemoryEventLog ℕ = log_of (first ∷ []) [] in
    let new = routed_events builder (λ p. p.original_payload) fresh 0 first (subscription ∷ []) in
    route_event in_memory payload_value builder fresh first (subscription ∷ []) s
    ≡ (ok (reported subscription ∷ []), record s { events = s.events ++ new; sent = s.sent ++ new })
route_event_lem_example =
    route_event_lem builder (λ p. p.original_payload) fresh payload_value (λ p. refl) first
      (codes "shop") (subscription ∷ []) (log_of (first ∷ []) []) for_shop refl
      (λ sub. (
        λ h. (
          (==_iff sub.source_product (codes "shop")).0 (ground arith),
          (==_iff sub.event_type (codes "Paid")).0 (ground arith),
        ),
        λ h. ground (
          arith,
          ==_iff sub.source_product (codes "shop"),
          ==_iff sub.event_type (codes "Paid"),
          h.0,
          h.1,
        ),
      ))

route_event_ends_example :
    let f = fresh 0 in
    let s : InMemoryEventLog ℕ = log_of (first ∷ []) [] in
    let platform = record first { product = none } in
    (route_event in_memory payload_value builder fresh
        (routed_event builder f subscription first b'a')
        (subscription ∷ [])
        s
      ≡ (ok [], s))
    × (route_event in_memory payload_value builder fresh platform (subscription ∷ []) s
        ≡ (ok [], s))
route_event_ends_example =
    route_event_ends in_memory payload_value builder fresh (fresh 0) subscription first
      (record first { product = none }) b'a' (subscription ∷ []) (log_of (first ∷ []) []) refl refl
