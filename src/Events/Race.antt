-- ===== src/Events/Race.antt =====
-- `InMemoryEventLog::append` (crates/picloud-events/src/implementation.rs) under concurrency. Each
-- of its four locked sections is one step: the check of the key under the read lock of `seen_keys`,
-- the insert under its write lock, the broadcast, and the push. Between two of them any other call
-- may run, so a run of the log is a sequence of such steps of the calls in a pool.
use picloud.Prelude.{
  ℕ, ◌+◌, ◌≡◌, refl, Bool, true, false, ◌&&◌, some, List, [], ◌∷◌, ◌++◌, arith, if◌then◌else◌,
  contains, ◌==◌, subst,
}
use picloud.Prelude.Equality.{list_eq, nat_eq, option_eq, option_beq_iff}
use picloud.Prelude.Texts.{Text}
use picloud.Domain.Events.{EventEnvelope}
use picloud.Events.Log.{InMemoryEventLog, is_seen, record_key, new}
use picloud.Events.Log.Laws.{count_key, count_key-append}

-- Where a call stands: before the check, before the insert, before the broadcast, before the push,
-- or at its end, having appended or skipped.
pub data Phase : Type 0 where
  entered unseen recorded broadcast appended skipped : Phase

pub record Call (Value : Type 0) : Type 0 where
  pub event : EventEnvelope Value
  pub phase : Phase

abbrev is_broadcast : Phase → Bool
is_broadcast broadcast = true
is_broadcast _ = false

abbrev in_flight : Phase → Bool
in_flight recorded = true
in_flight broadcast = true
in_flight _ = false

module _ {Value : Type 0} where
  abbrev advance :
      Phase → EventEnvelope Value → InMemoryEventLog Value → Phase × InMemoryEventLog Value
  advance entered event s =
      (if is_seen s.seen_keys event.idempotency_key then skipped else unseen, s)
  advance unseen event s =
      (recorded, record s { seen_keys = record_key s.seen_keys event.idempotency_key })
  advance recorded event s = (broadcast, record s { sent = s.sent ++ event ∷ [] })
  advance broadcast event s = (appended, record s { events = s.events ++ event ∷ [] })
  advance appended event s = (appended, s)
  advance skipped event s = (skipped, s)

  -- The next section of one call.
  unfoldable pub section : Call Value → InMemoryEventLog Value → Call Value × InMemoryEventLog Value
  section c s = let (p, t) = advance c.phase c.event s in (record c { phase = p }, t)

  -- One call of the pool runs its next section.
  pub data Step
      : List (Call Value)
        → InMemoryEventLog Value
        → List (Call Value)
        → InMemoryEventLog Value
        → Type 0 where
    here :
        (c : Call Value) (cs : List (Call Value)) (s : InMemoryEventLog Value)
        → Step (c ∷ cs) s ((section c s).0 ∷ cs) (section c s).1
    there :
        {cs ds : List (Call Value)} {s t : InMemoryEventLog Value} (c : Call Value)
        → Step cs s ds t
        → Step (c ∷ cs) s (c ∷ ds) t

  pub data Run (cs : List (Call Value)) (s : InMemoryEventLog Value)
      : List (Call Value) → InMemoryEventLog Value → Type 0 where
    start : Run cs s cs s
    then_step :
        {ds es : List (Call Value)} {t u : InMemoryEventLog Value}
        → Run cs s ds t
        → Step ds t es u
        → Run cs s es u

  -- The calls of a pool that carry the key and stand in a phase that passes the test.
  abbrev weight : (Phase → Bool) → Text → Call Value → ℕ
  weight p k c = if p c.phase && c.event.idempotency_key == some k then 1 else 0

  abbrev pub calls : (Phase → Bool) → Text → List (Call Value) → ℕ
  calls p k [] = 0
  calls p k (c ∷ cs) = weight p k c + calls p k cs

  -- How many events pass a test, and how many calls of events that pass it stand before their push.
  abbrev pub count_of : (EventEnvelope Value → Bool) → List (EventEnvelope Value) → ℕ
  count_of q [] = 0
  count_of q (e ∷ es) = (if q e then 1 else 0) + count_of q es

  abbrev waits : (EventEnvelope Value → Bool) → Call Value → ℕ
  waits q c = if is_broadcast c.phase && q c.event then 1 else 0

  abbrev pub waiting : (EventEnvelope Value → Bool) → List (Call Value) → ℕ
  waiting q [] = 0
  waiting q (c ∷ cs) = waits q c + waiting q cs

  count_of-append :
      (q : EventEnvelope Value → Bool) (es ds : List (EventEnvelope Value))
      → count_of q (es ++ ds) ≡ count_of q es + count_of q ds
  count_of-append q [] ds = omega arith
  count_of-append q (e ∷ es) ds = omega (arith, count_of-append q es ds)

  -- The invariant, with `x` more calls before their push and `y` more before their push or
  -- broadcast.
  record IsOrderedBut (q : EventEnvelope Value → Bool) (k : Text) (x y : ℕ) (cs : List (Call Value))
      (s : InMemoryEventLog Value) : Type 0 where
    accounted : count_of q s.sent ≡ count_of q s.events + waiting q cs + x
    recorded_first :
        contains s.seen_keys k ≡ false → (count_key k s.sent ≡ 0) × (calls in_flight k cs + y ≡ 0)

  section-IsOrderedBut :
      (q : EventEnvelope Value → Bool) (k : Text) (x y : ℕ) (c : Call Value)
      (cs : List (Call Value)) (s : InMemoryEventLog Value)
      → IsOrderedBut q k x y (c ∷ cs) s
      → IsOrderedBut q k x y ((section c s).0 ∷ cs) (section c s).1
  unfolding section
  section-IsOrderedBut q k x y c cs s h = record {
    accounted = ground (
      arith,
      h.accounted,
      count_of-append q s.events (c.event ∷ []),
      count_of-append q s.sent (c.event ∷ []),
    );
    recorded_first = ground (
      arith,
      h.recorded_first,
      option_beq_iff c.event.idempotency_key (some k),
      count_key-append k s.sent (c.event ∷ []),
    );
  }

  Step-IsOrderedBut :
      (q : EventEnvelope Value → Bool) (k : Text) (x y : ℕ) {cs ds : List (Call Value)}
      {s t : InMemoryEventLog Value}
      → Step cs s ds t
      → IsOrderedBut q k x y cs s
      → IsOrderedBut q k x y ds t
  Step-IsOrderedBut q k x y (here c cs s) h = section-IsOrderedBut q k x y c cs s h
  Step-IsOrderedBut q k x y (there {cs} {ds} {s} {t} c st) h =
      let rest = Step-IsOrderedBut q k (waits q c + x) (weight in_flight k c + y) st (record {
        accounted = omega (arith, h.accounted);
        recorded_first = λ p. omega (arith, h.recorded_first p);
      }) in
      record {
        accounted = omega (arith, rest.accounted);
        recorded_first = λ p. omega (arith, rest.recorded_first p);
      }

  -- By every test of events: the broadcasts that pass it are the events of the log that do, and those
  -- of the calls between broadcast and push. And a key is recorded before it is broadcast.
  pub record IsOrdered (q : EventEnvelope Value → Bool) (k : Text) (cs : List (Call Value))
      (s : InMemoryEventLog Value) : Type 0 where
    pub accounted : count_of q s.sent ≡ count_of q s.events + waiting q cs
    pub recorded_first :
        contains s.seen_keys k ≡ false → (count_key k s.sent ≡ 0) × (calls in_flight k cs ≡ 0)

  Step-IsOrdered :
      (q : EventEnvelope Value → Bool) (k : Text) {cs ds : List (Call Value)}
      {s t : InMemoryEventLog Value}
      → Step cs s ds t
      → IsOrdered q k cs s
      → IsOrdered q k ds t
  Step-IsOrdered q k st h =
      let out = Step-IsOrderedBut q k 0 0 st (record {
        accounted = omega (arith, h.accounted);
        recorded_first = λ p. omega (arith, h.recorded_first p);
      }) in
      record {
        accounted = omega (arith, out.accounted);
        recorded_first = λ p. omega (arith, out.recorded_first p);
      }

  -- Under every interleaving of concurrent appends, where it held before them: the broadcast events
  -- are, by any test and so in number each, the events of the log and those of the calls between
  -- broadcast and push, whether they have a key or not; and a key that is not recorded was not
  -- broadcast.
  pub Run-IsOrdered :
      (q : EventEnvelope Value → Bool) (k : Text) {cs : List (Call Value)}
      {s : InMemoryEventLog Value} {ds : List (Call Value)} {t : InMemoryEventLog Value}
      → Run cs s ds t
      → IsOrdered q k cs s
      → IsOrdered q k ds t
  Run-IsOrdered q k start h = h
  Run-IsOrdered q k (then_step r st) h = Step-IsOrdered q k st (Run-IsOrdered q k r h)

  abbrev pub at : Phase → EventEnvelope Value → Call Value
  at p e = record { event = e; phase = p }

  Step-first :
      (c d e : Call Value) {s t : InMemoryEventLog Value}
      → section c s ≡ (d, t)
      → Step (c ∷ e ∷ []) s (d ∷ e ∷ []) t
  Step-first c d e {s} {t} p =
      subst (λ q. Step (c ∷ e ∷ []) s (q.0 ∷ e ∷ []) q.1) p (here c (e ∷ []) s)

  Step-second :
      (c e d : Call Value) {s t : InMemoryEventLog Value}
      → section e s ≡ (d, t)
      → Step (c ∷ e ∷ []) s (c ∷ d ∷ []) t
  Step-second c e d {s} {t} p =
      subst (λ q. Step (c ∷ e ∷ []) s (c ∷ q.0 ∷ []) q.1) p (there c (here e [] s))

  -- The check of the key and its insert are not one step: from any log that has not seen their key,
  -- two concurrent appends of events with one idempotency key can both append, and the log then
  -- holds them in the other order than the subscribers saw them.
  pub duplicate_race :
      (a b : EventEnvelope Value) (k : Text) (s : InMemoryEventLog Value)
      → a.idempotency_key ≡ some k
      → b.idempotency_key ≡ some k
      → contains s.seen_keys k ≡ false
      → Run (at entered a ∷ at entered b ∷ []) s (at appended a ∷ at appended b ∷ []) (record {
        events = s.events ++ b ∷ [] ++ a ∷ [];
        sent = s.sent ++ a ∷ [] ++ b ∷ [];
        seen_keys = k ∷ k ∷ s.seen_keys;
      })
  unfolding section
  duplicate_race a b k s p q new =
      then_step
        (then_step
          (then_step
            (then_step
              (then_step
                (then_step
                  (then_step
                    (then_step start (
                      Step-first (at entered a) (at unseen a) (at entered b) {t = s}
                        (ground arith)))
                    (Step-second (at unseen a) (at entered b) (at unseen b) {t = s} (ground arith)))
                  (Step-first (at unseen a) (at recorded a) (at unseen b) {t = one} (ground arith)))
                (Step-second (at recorded a) (at unseen b) (at recorded b) {t = both}
                  (ground arith)))
              (Step-first (at recorded a) (at broadcast a) (at recorded b) {t = sent_a} refl))
            (Step-second (at broadcast a) (at recorded b) (at broadcast b) {t = sent_b} refl))
          (Step-second (at broadcast a) (at broadcast b) (at appended b) {t = pushed_b} refl))
        (Step-first (at broadcast a) (at appended a) (at appended b) refl)
    where
      one : InMemoryEventLog Value
      one = record s { seen_keys = k ∷ s.seen_keys }

      both : InMemoryEventLog Value
      both = record s { seen_keys = k ∷ k ∷ s.seen_keys }

      sent_a : InMemoryEventLog Value
      sent_a = record both { sent = s.sent ++ a ∷ [] }

      sent_b : InMemoryEventLog Value
      sent_b = record both { sent = s.sent ++ a ∷ [] ++ b ∷ [] }

      pushed_b : InMemoryEventLog Value
      pushed_b = record sent_b { events = s.events ++ b ∷ [] }
