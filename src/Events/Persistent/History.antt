-- ===== src/Events/Persistent/History.antt =====
-- The abstract view of the persistent log: a history, of which a prefix may be compacted away.
use picloud.Prelude.{
  ℕ, ◌-◌, ◌≤◌, ◌≡◌, sym, ap, ◌∙◌, inl, inr, false, ◌||◌, Option, none, some, List, [], ◌∷◌, ◌++◌,
  length, drop, ltb, if◌then◌else◌, ◌==◌, arith, drop-drop, drop-append, length-drop, length-append,
  Bool-cases,
}
use picloud.Prelude.Equality.{nat_eq, list_eq}
use picloud.Prelude.Texts.{Text}
use picloud.Domain.Events.{EventEnvelope}
use picloud.Events.Log
use picloud.Events.Log.{InMemoryEventLog, is_seen, record_key}
use picloud.Events.Log.Laws.{events_since-eq-drop}
use picloud.Events.Persistent.{
  PersistentEventLog, Codec, written, refused, WriteOutcome, append, events_since,
  total_event_count, append_line,
}
use picloud.Events.Persistent.Compaction.{
  Fault, no_fault, rewrite_fails, sidecar_fails, reopen_fails, compact, serialize_all, discard,
  rewrite,
}

-- What an append that is not a duplicate does to the history.
abbrev extend {ℓ} : {A : Type ℓ} → Option Text → WriteOutcome → A → List A → List A
extend none w e history = history
extend (some line) (refused n) e history = history
extend (some line) written e history = history ++ e ∷ []

module _ {Value : Type 0} where
  -- The log holds the events of `history` from its snapshot offset on.
  pub record Represents (history : List (EventEnvelope Value)) (s : PersistentEventLog Value)
      : Type 0 where
    pub compacted : s.snapshot_offset ≤ length history
    pub rest : s.inner.events ≡ drop s.snapshot_offset history

  snoc-rest :
      (e : EventEnvelope Value) (history es : List (EventEnvelope Value)) (n : ℕ)
      → n ≤ length history
      → es ≡ drop n history
      → es ++ e ∷ [] ≡ drop n (history ++ e ∷ [])
  snoc-rest e history es n h p = ap (λ xs. xs ++ e ∷ []) p ∙ sym (drop-append n history (e ∷ []) h)

  append_line-Represents :
      (o : Option Text) (w : WriteOutcome) (e : EventEnvelope Value)
      (history : List (EventEnvelope Value)) (s : PersistentEventLog Value)
      → Represents history s
      → is_seen s.inner.seen_keys e.idempotency_key ≡ false
      → Represents (extend o w e history) (append_line o w e s).1
  unfolding Log.append
  append_line-Represents none w e history s h new = h
  append_line-Represents (some line) (refused n) e history s h new = record {
    compacted = h.compacted;
    rest = h.rest;
  }
  append_line-Represents (some line) written e history s h new = rw new (record {
    compacted = omega (arith, h.compacted, length-append history (e ∷ []));
    rest = snoc-rest e history s.inner.events s.snapshot_offset h.compacted h.rest;
  })

  -- An append refines the history, on every branch: a duplicate and a failed write leave it alone,
  -- and any other append puts its event at the end.
  pub append-Represents :
      (codec : Codec Value) (w : WriteOutcome) (e : EventEnvelope Value)
      (history : List (EventEnvelope Value)) (s : PersistentEventLog Value)
      → Represents history s
      → Represents
          (if is_seen s.inner.seen_keys e.idempotency_key
            then history
            else extend (codec.to_string e) w e history)
          (append codec w e s).1
  unfolding append
  append-Represents codec w e history s h =
      elim (Bool-cases (is_seen s.inner.seen_keys e.idempotency_key)) [
        | inl seen ↦ rw seen h
        | inr new ↦ rw new (append_line-Represents (codec.to_string e) w e history s h new)
      ]

  discard-Represents :
      (n : ℕ) (history : List (EventEnvelope Value)) (s : PersistentEventLog Value)
      → n ≤ length s.inner.events
      → Represents history s
      → Represents history (discard n s)
  unfolding discard
  discard-Represents n history s h r = record {
    compacted =
        omega (arith, ap length r.rest, length-drop s.snapshot_offset history, r.compacted, h);
    rest = ap (drop n) r.rest ∙ drop-drop n s.snapshot_offset history;
  }

  rewrite-Represents :
      (o : Option (List Text)) (f : Fault) (history : List (EventEnvelope Value))
      (s : PersistentEventLog Value)
      → Represents history s
      → Represents history (rewrite o f s).1
  rewrite-Represents none f history s h = h
  rewrite-Represents (some lines) no_fault history s h = record {
    compacted = h.compacted;
    rest = h.rest;
  }
  rewrite-Represents (some lines) rewrite_fails history s h = h
  rewrite-Represents (some lines) sidecar_fails history s h = record {
    compacted = h.compacted;
    rest = h.rest;
  }
  rewrite-Represents (some lines) reopen_fails history s h = record {
    compacted = h.compacted;
    rest = h.rest;
  }

  -- A compaction keeps the history that the log stands for, wherever the file system refuses.
  pub compact-Represents :
      (codec : Codec Value) (f : Fault) (n : ℕ) (history : List (EventEnvelope Value))
      (s : PersistentEventLog Value)
      → Represents history s
      → Represents history (compact codec f n s).1
  unfolding compact
  compact-Represents codec f n history s h =
      elim (Bool-cases (n == 0 || ltb (length s.inner.events) n)) [
        | inl bad ↦ rw bad h
        | inr good ↦ rw good (
            rewrite-Represents (serialize_all codec (drop n s.inner.events)) f history (discard n s)
              (discard-Represents n history s (ground arith) h))
      ]

  -- Reading from a logical offset gives the history from there on, or from the snapshot offset on
  -- where the reader asks for events that were compacted away.
  pub events_since-Represents :
      (history : List (EventEnvelope Value)) (s : PersistentEventLog Value) (n : ℕ)
      → Represents history s
      → events_since n s ≡ drop (if ltb s.snapshot_offset n then n else s.snapshot_offset) history
  unfolding events_since
  events_since-Represents history s n h = elim (Bool-cases (ltb s.snapshot_offset n)) [
    | inl past ↦ rw past (
        events_since-eq-drop (n - s.snapshot_offset) s.inner
        ∙ ap (drop (n - s.snapshot_offset)) h.rest
        ∙ drop-drop (n - s.snapshot_offset) s.snapshot_offset history
        ∙ ap (λ (k : ℕ). drop k history) (ground arith))
    | inr early ↦ rw early (events_since-eq-drop 0 s.inner ∙ h.rest)
  ]

  -- A reader whose cursor is at or past the snapshot offset before and after a compaction sees the
  -- same events before and after it, wherever the file system refuses.
  compact_keeps_cursors :
      (codec : Codec Value) (f : Fault) (n o : ℕ) (history : List (EventEnvelope Value))
      (s : PersistentEventLog Value)
      → Represents history s
      → (compact codec f n s).1.snapshot_offset ≤ o
      → s.snapshot_offset ≤ o
      → events_since o (compact codec f n s).1 ≡ events_since o s
  compact_keeps_cursors codec f n o history s h after before =
      let t = (compact codec f n s).1 in
      events_since-Represents history t o (compact-Represents codec f n history s h)
      ∙ ap (λ (k : ℕ). drop k history) (ground arith)
      ∙ sym (events_since-Represents history s o h)

  -- The invariant of ADR-060: the snapshot offset and the events kept add up to the logical length.
  total_event_count-Represents :
      (history : List (EventEnvelope Value)) (s : PersistentEventLog Value)
      → Represents history s
      → total_event_count s ≡ length history
  unfolding total_event_count
  total_event_count-Represents history s h =
      omega (arith, ap length h.rest, length-drop s.snapshot_offset history, h.compacted)
