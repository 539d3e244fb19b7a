-- ===== src/Events/Router/Laws.antt =====
-- What the router promises: one registration for each subscription, and one routed event for each
-- matching subscription.
use picloud.Prelude.{
  ◌≡◌, refl, false, Option, none, some, List, [], ◌∷◌, ◌++◌, retain, any, any-append, if◌then◌else◌,
  arith,
}
use picloud.Prelude.Equality.{list_eq, nat_eq, list_beq_iff}
use picloud.Prelude.Texts.{Text}
use picloud.Domain.Error.{ok, err, resource_not_found}
use picloud.Domain.Iri.{ResourceIri}
use picloud.Events.Router.{
  EventSubscription, RegisteredSubscription, has_iri, other_iri, registered_of, register_for,
  register_subscription, unregister_subscription,
}

-- No two registrations have one subscription's IRI.
abbrev pub IsDistinct : List RegisteredSubscription → Type 0
IsDistinct [] = Unit
IsDistinct (s ∷ subs) = (any (has_iri s.subscription_iri) subs ≡ false) × IsDistinct subs

IsDistinct-snoc :
    (subs : List RegisteredSubscription) (s : RegisteredSubscription)
    → IsDistinct subs
    → any (has_iri s.subscription_iri) subs ≡ false
    → IsDistinct (subs ++ s ∷ [])
IsDistinct-snoc [] s h new = (refl, tt)
IsDistinct-snoc (r ∷ subs) s h new = ground (
  arith,
  IsDistinct-snoc subs s h.1,
  any-append (has_iri r.subscription_iri) subs (s ∷ []),
  list_beq_iff r.subscription_iri s.subscription_iri,
  list_beq_iff s.subscription_iri r.subscription_iri,
)

register_for-IsDistinct :
    (o : Option Text) (subscription : EventSubscription) (subs : List RegisteredSubscription)
    → IsDistinct subs
    → IsDistinct (register_for o subscription subs).1
register_for-IsDistinct none subscription subs h = h
register_for-IsDistinct (some p) subscription subs h =
    ground (arith, IsDistinct-snoc subs (registered_of subscription p) h)

-- A registration keeps the subscriptions distinct, on every branch.
register_subscription-IsDistinct :
    (subscription : EventSubscription) (subs : List RegisteredSubscription)
    → IsDistinct subs
    → IsDistinct (register_subscription subscription subs).1
unfolding register_subscription
register_subscription-IsDistinct subscription subs h =
    register_for-IsDistinct subscription.product subscription subs h

retain_absent :
    (iri : ResourceIri) (subs : List RegisteredSubscription)
    → any (has_iri iri) subs ≡ false
    → retain (other_iri iri) subs ≡ subs
retain_absent iri [] h = refl
retain_absent iri (s ∷ subs) h = ground (arith, retain_absent iri subs)

any-retain :
    (iri other : ResourceIri) (subs : List RegisteredSubscription)
    → any (has_iri iri) subs ≡ false
    → any (has_iri iri) (retain (other_iri other) subs) ≡ false
any-retain iri other [] h = refl
any-retain iri other (s ∷ subs) h = ground (arith, any-retain iri other subs)

any-retain_self :
    (iri : ResourceIri) (subs : List RegisteredSubscription)
    → any (has_iri iri) (retain (other_iri iri) subs) ≡ false
any-retain_self iri [] = refl
any-retain_self iri (s ∷ subs) = ground (arith, any-retain_self iri subs)

retain-IsDistinct :
    (iri : ResourceIri) (subs : List RegisteredSubscription)
    → IsDistinct subs
    → IsDistinct (retain (other_iri iri) subs)
retain-IsDistinct iri [] h = tt
retain-IsDistinct iri (s ∷ subs) h =
    ground (arith, retain-IsDistinct iri subs, any-retain s.subscription_iri iri subs)

-- After a subscription is unregistered no registration has its IRI, the others stay distinct, and
-- the call fails exactly where there was none.
unregister_subscription_lem :
    (iri : ResourceIri) (subs : List RegisteredSubscription)
    → IsDistinct subs
    → let (r, after) = unregister_subscription iri subs in
      IsDistinct after
      × (any (has_iri iri) after ≡ false)
      × (r ≡ (if any (has_iri iri) subs then ok tt else err (resource_not_found iri)))
unfolding unregister_subscription
unregister_subscription_lem iri subs h =
    ground (arith, retain-IsDistinct iri subs h, any-retain_self iri subs)

retain-snoc :
    (subs : List RegisteredSubscription) (s : RegisteredSubscription)
    → any (has_iri s.subscription_iri) subs ≡ false
    → retain (other_iri s.subscription_iri) (subs ++ s ∷ []) ≡ subs
retain-snoc [] s h = ground (arith, list_beq_iff s.subscription_iri s.subscription_iri)
retain-snoc (r ∷ subs) s h = ground (arith, retain-snoc subs s)

-- A subscription of a product that is not registered yet is registered once, however often it is
-- sent, and unregistering it gives back the subscriptions as they were.
register_unregister :
    (subscription : EventSubscription) (p : Text) (subs : List RegisteredSubscription)
    → subscription.product ≡ some p
    → any (has_iri subscription.iri) subs ≡ false
    → let once = (register_subscription subscription subs).1 in
      (register_subscription subscription once ≡ (ok tt, once))
      × (unregister_subscription subscription.iri once ≡ (ok tt, subs))
unfolding register_subscription unregister_subscription
register_unregister subscription p subs e new =
    let s = registered_of subscription p in
    ground (
      arith,
      retain-snoc subs s,
      any-append (has_iri subscription.iri) subs (s ∷ []),
      list_beq_iff subscription.iri subscription.iri,
    )
