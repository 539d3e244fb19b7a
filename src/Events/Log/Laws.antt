-- ===== src/Events/Log/Laws.antt =====
-- What the in-memory log promises: one event for each idempotency key, an append-only list, and
-- a broadcast in the order of the list.
use picloud.Prelude.{
  ℕ, suc, ◌+◌, ◌≤◌, ◌≡◌, refl, sym, true, some, List, [], ◌∷◌, ◌++◌, length, drop, arith,
  if◌then◌else◌, leb→le, drop-all, Bool-cases, contains, ◌==◌, ==_refl, inl, inr, leb,
}
use picloud.Prelude.Equality.{list_eq, nat_eq, option_eq, option_beq_iff}
use picloud.Prelude.Texts.{Text}
use picloud.Domain.Error.{ok}
use picloud.Domain.Events.{EventEnvelope}
use picloud.Events.Log.{InMemoryEventLog, new, append, events_since}

module _ {Value : Type 0} where
  -- How many events carry the key.
  abbrev pub count_key : Text → List (EventEnvelope Value) → ℕ
  count_key k [] = 0
  count_key k (e ∷ es) =
      let rest = count_key k es in if e.idempotency_key == some k then suc rest else rest

  -- A key that is not recorded is on no event, and a recorded key is on at most one.
  pub record HasUniqueKeys (s : InMemoryEventLog Value) : Type 0 where
    pub at_key : (k : Text) → count_key k s.events ≤ (if contains s.seen_keys k then 1 else 0)

  pub count_key-append :
      (k : Text) (xs ys : List (EventEnvelope Value))
      → count_key k (xs ++ ys) ≡ count_key k xs + count_key k ys
  count_key-append k [] ys = omega arith
  count_key-append k (x ∷ xs) ys = ground (arith, count_key-append k xs ys)

  new-HasUniqueKeys : HasUniqueKeys (new {Value = Value})
  unfolding new
  new-HasUniqueKeys = record { at_key = λ k. omega arith }

  -- Every append keeps one event for each idempotency key, whatever event it is given.
  append-HasUniqueKeys :
      (e : EventEnvelope Value) (s : InMemoryEventLog Value)
      → HasUniqueKeys s
      → HasUniqueKeys (append e s).1
  unfolding append
  append-HasUniqueKeys e s h = record {
    at_key = λ k. ground (
      arith,
      h.at_key k,
      count_key-append k s.events (e ∷ []),
      option_beq_iff e.idempotency_key (some k),
    );
  }

  append_again :
      (e : EventEnvelope Value) (k : Text) (t : InMemoryEventLog Value)
      → e.idempotency_key ≡ some k
      → contains t.seen_keys k ≡ true
      → append e t ≡ (ok tt, t)
  unfolding append
  append_again e k t p q = ground arith

  -- The calls of many producers, one after another.
  unfoldable pub append_all :
      List (EventEnvelope Value) → InMemoryEventLog Value → InMemoryEventLog Value
  append_all [] s = s
  append_all (e ∷ es) s = append_all es (append e s).1

  append_seen :
      (e : EventEnvelope Value) (k : Text) (s : InMemoryEventLog Value)
      → e.idempotency_key ≡ some k
      → contains (append e s).1.seen_keys k ≡ true
  unfolding append
  append_seen e k s p = ground (arith, ==_refl k)

  append-keeps_seen :
      (e : EventEnvelope Value) (k : Text) (s : InMemoryEventLog Value)
      → contains s.seen_keys k ≡ true
      → contains (append e s).1.seen_keys k ≡ true
  unfolding append
  append-keeps_seen e k s p = ground arith

  append_all-keeps_seen :
      (es : List (EventEnvelope Value)) (k : Text) (s : InMemoryEventLog Value)
      → contains s.seen_keys k ≡ true
      → contains (append_all es s).seen_keys k ≡ true
  unfolding append_all
  append_all-keeps_seen [] k s p = p
  append_all-keeps_seen (e ∷ es) k s p =
      append_all-keeps_seen es k (append e s).1 (append-keeps_seen e k s p)

  -- An event that carries an idempotency key and was appended may be sent again after any other
  -- appends: the retry is accepted and changes nothing.
  pub append_retry :
      (e : EventEnvelope Value) (k : Text) (between : List (EventEnvelope Value))
      (s : InMemoryEventLog Value)
      → e.idempotency_key ≡ some k
      → let t = append_all between (append e s).1 in append e t ≡ (ok tt, t)
  append_retry e k between s p =
      append_again e k (append_all between (append e s).1) p
        (append_all-keeps_seen between k (append e s).1 (append_seen e k s p))

  append_all-HasUniqueKeys :
      (es : List (EventEnvelope Value)) (s : InMemoryEventLog Value)
      → HasUniqueKeys s
      → HasUniqueKeys (append_all es s)
  unfolding append_all
  append_all-HasUniqueKeys [] s h = h
  append_all-HasUniqueKeys (e ∷ es) s h =
      append_all-HasUniqueKeys es (append e s).1 (append-HasUniqueKeys e s h)

  append-sent :
      (e : EventEnvelope Value) (s : InMemoryEventLog Value)
      → s.sent ≡ s.events
      → (append e s).1.sent ≡ (append e s).1.events
  unfolding append
  append-sent e s h = ground arith

  append_all-sent :
      (es : List (EventEnvelope Value)) (s : InMemoryEventLog Value)
      → s.sent ≡ s.events
      → (append_all es s).sent ≡ (append_all es s).events
  unfolding append_all
  append_all-sent [] s h = h
  append_all-sent (e ∷ es) s h = append_all-sent es (append e s).1 (append-sent e s h)

  -- After any appends to a new log, each idempotency key is on at most one event, and the events
  -- were broadcast in the order in which the log holds them.
  append_all_from_new :
      (es : List (EventEnvelope Value)) (k : Text)
      → let s = append_all es (new {Value = Value}) in
        (count_key k s.events ≤ 1) × (s.sent ≡ s.events)
  append_all_from_new es k = (
    ground (arith, (append_all-HasUniqueKeys es new new-HasUniqueKeys).at_key k),
    append_all-sent es new (unfold new in refl),
  )

  -- A log that catches up from `n` and then from where it stopped has seen all from `n` on: reading
  -- at any offset is the suffix of the log, empty past its end.
  pub events_since-eq-drop :
      (n : ℕ) (s : InMemoryEventLog Value) → events_since n s ≡ drop n s.events
  unfolding events_since
  events_since-eq-drop n s = elim (Bool-cases (leb (length s.events) n)) [
    | inl h ↦ rw h (sym (drop-all n s.events (leb→le _ _ h)))
    | inr h ↦ rw h
  ]
