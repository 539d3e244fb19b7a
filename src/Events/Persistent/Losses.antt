-- ===== src/Events/Persistent/Losses.antt =====
-- What the persistent log loses: when a compaction is interrupted, and when a key's event is gone.
use picloud.Prelude.{
  append-nil, ℕ, ◌+◌, ◌-◌, ◌≤◌, ◌<◌, ◌≡◌, refl, ap, ◌∙◌, ◌⊎◌, inl, inr, true, false, ◌||◌, Option,
  none, some, List, [], ◌∷◌, ◌++◌, length, drop, ltb, if◌then◌else◌, ◌==◌, All, arith, length-drop,
  Bool-cases, contains,
}
use picloud.Prelude.Equality.{nat_eq, list_eq, option_beq_iff}
use picloud.Prelude.Texts.{Text}
use picloud.Domain.Error.{Result, ok, err}
use picloud.Domain.Events.{EventEnvelope}
use picloud.Events.Log
use picloud.Events.Log.{InMemoryEventLog, is_seen, record_key}
use picloud.Events.Log.Laws.{count_key}
use picloud.Events.Persistent.{
  PersistentEventLog, Codec, written, WriteOutcome, append, total_event_count, open_log, disk_of,
  load_offset,
}
use picloud.Events.Persistent.Recovery.{
  RoundTrips, IsDurable, serialize_all-Stores, All-drop, keys_of, replayed, replay-Stores,
}
use picloud.Events.Persistent.Compaction.{
  Fault, no_fault, rewrite_fails, sidecar_fails, reopen_fails, compact, compact_if_needed, report,
  discard, rewrite, serialize_all, compaction_threshold, compaction_keep,
}

module _ {Value : Type 0} where
  -- Where a compaction of `n` events stops after the rewritten file is in place and before the
  -- sidecar is, a restart succeeds and counts `n` logical events fewer than there were: every
  -- cursor past the compaction is off by `n`.
  pub sidecar_loss :
      (codec : Codec Value) (n : ℕ) (s : PersistentEventLog Value)
      → All (RoundTrips codec) s.inner.events
      → IsDurable codec s
      → 0 < n
      → n ≤ length s.inner.events
      → (t : PersistentEventLog Value) × (open_log codec
            (disk_of (compact codec sidecar_fails n s).1)
          ≡ ok t)
        × (t.inner.events ≡ drop n s.inner.events)
        × (total_event_count t + n ≡ total_event_count s)
  unfolding compact open_log disk_of replayed total_event_count
  sidecar_loss codec n s r h pos fits =
      let out =
        serialize_all-Stores codec (drop n s.inner.events)
          (All-drop (RoundTrips codec) n s.inner.events r) in
      let good : (n == 0 || ltb (length s.inner.events) n) ≡ false = ground arith in
      (
        record {
          inner = replayed (drop n s.inner.events) Log.new;
          file = out.0;
          tail = [];
          attached = true;
          meta = s.meta;
          snapshot_offset = load_offset s.meta;
        },
        rw (good, out.1)
            (rw (append-nil, replay-Stores codec out.0 (drop n s.inner.events) Log.new out.2)),
        refl,
        omega (arith, h.sidecar, length-drop n s.inner.events),
      )

  -- An append through a handle that a failed compaction left behind writes nothing to the log's
  -- file, whatever it returns.
  detached_append :
      (codec : Codec Value) (w : WriteOutcome) (e : EventEnvelope Value)
      (s : PersistentEventLog Value)
      → s.attached ≡ false
      → disk_of (append codec w e s).1 ≡ disk_of s
  unfolding append disk_of Log.append
  detached_append codec w e s h = ground arith

  -- After a compaction that fails at the sidecar or at the reopening of the file, a new event is
  -- accepted with success, and is not on the disk.
  lost_append :
      (codec : Codec Value) (f : Fault) (n : ℕ) (e : EventEnvelope Value) (line : Text)
      (s : PersistentEventLog Value)
      → (f ≡ sidecar_fails) ⊎ (f ≡ reopen_fails)
      → All (RoundTrips codec) s.inner.events
      → codec.to_string e ≡ some line
      → 0 < n
      → n ≤ length s.inner.events
      → let t = (compact codec f n s).1 in
        ((append codec written e t).0 ≡ ok tt) × (disk_of (append codec written e t).1 ≡ disk_of t)
  lost_append codec f n e line s which r p pos fits =
      (accepted, detached_append codec written e (compact codec f n s).1 detached)
    where
      good : (n == 0 || ltb (length s.inner.events) n) ≡ false
      good = ground arith

      accepted : (append codec written e (compact codec f n s).1).0 ≡ ok tt
      accepted = unfold append Log.append in ground (arith, p)

      detached : (compact codec f n s).1.attached ≡ false
      detached =
          unfold compact in
          ground (
            arith,
            good,
            (serialize_all-Stores codec (drop n s.inner.events)
                (All-drop (RoundTrips codec) n s.inner.events r)).1,
          )

  keys_of-unseen :
      (k : Text) (es : List (EventEnvelope Value)) (seen : List Text)
      → count_key k es ≡ 0
      → contains seen k ≡ false
      → contains (keys_of es seen) k ≡ false
  keys_of-unseen k [] seen c h = h
  keys_of-unseen k (e ∷ es) seen c h =
      keys_of-unseen k es (record_key seen e.idempotency_key) (ground arith)
        (ground (arith, option_beq_iff e.idempotency_key (some k)))

  -- Where the event of a seen key was compacted away, a retry of it is absorbed until the log is
  -- reopened, and then appended once more.
  restart_forgets_keys :
      (codec : Codec Value) (e : EventEnvelope Value) (k : Text) (s : PersistentEventLog Value)
      → IsDurable codec s
      → RoundTrips codec e
      → e.idempotency_key ≡ some k
      → contains s.inner.seen_keys k ≡ true
      → count_key k s.inner.events ≡ 0
      → (append codec written e s ≡ (ok tt, s))
        × (t : PersistentEventLog Value) × (open_log codec (disk_of s) ≡ ok t)
        × ((append codec written e t).1.inner.events ≡ s.inner.events ++ e ∷ [])
  unfolding append open_log disk_of replayed Log.append
  restart_forgets_keys codec e k s h r p seen gone = (
    ground arith,
    record s {
      inner = replayed s.inner.events Log.new;
      attached = true;
      snapshot_offset = load_offset s.meta;
    },
    rw (h.ended, append-nil, replay-Stores codec s.file s.inner.events Log.new h.stored),
    ground (arith, r.1, keys_of-unseen k s.inner.events [] gone refl),
  )

  events-rewrite :
      (o : Option (List Text)) (f : Fault) (s : PersistentEventLog Value)
      → (rewrite o f s).1.inner.events ≡ s.inner.events
  events-rewrite none f s = refl
  events-rewrite (some lines) no_fault s = refl
  events-rewrite (some lines) rewrite_fails s = refl
  events-rewrite (some lines) sidecar_fails s = refl
  events-rewrite (some lines) reopen_fails s = refl

  events-compact :
      (codec : Codec Value) (f : Fault) (n : ℕ) (s : PersistentEventLog Value)
      → 0 < n
      → n ≤ length s.inner.events
      → (compact codec f n s).1.inner.events ≡ drop n s.inner.events
  unfolding compact
  events-compact codec f n s pos fits =
      let good : (n == 0 || ltb (length s.inner.events) n) ≡ false = ground arith in
      rw good (
        events-rewrite (serialize_all codec (drop n s.inner.events)) f (discard n s)
        ∙ unfold discard in refl)

  state-report : (x : Result (Unit {0}) × PersistentEventLog Value) → (report x).1 ≡ x.1
  state-report (ok u, s) = refl
  state-report (err e, s) = refl

  -- The default policy: a log of more than 10000 events keeps its last 1000, and any other is left
  -- alone, wherever the file system refuses.
  events-compact_if_needed :
      (codec : Codec Value) (f : Fault) (s : PersistentEventLog Value)
      → (compact_if_needed codec f s).1.inner.events ≡ (
          if ltb compaction_threshold (length s.inner.events)
          then drop (length s.inner.events - compaction_keep) s.inner.events
          else s.inner.events)
  unfolding compact_if_needed
  events-compact_if_needed codec f s =
      elim (Bool-cases (ltb compaction_threshold (length s.inner.events))) [
        | inl long ↦
            let n = length s.inner.events - compaction_keep in
            rw long (
              ap (λ (t : PersistentEventLog Value). t.inner.events)
                (state-report (compact codec f n s))
              ∙ events-compact codec f n s (ground arith) (omega arith))
        | inr short ↦ rw short
      ]
