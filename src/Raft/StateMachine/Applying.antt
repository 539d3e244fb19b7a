-- ===== src/Raft/StateMachine/Applying.antt =====
-- What `apply` does over any batches of committed entries.
use picloud.Prelude.{
  suc, ◌+◌, ◌^◌, ◌≤◌, ◌<◌, ◌≡◌, refl, sym, ap, ◌∙◌, true, Option, none, some, List, [], ◌∷◌, ◌++◌,
  length, arith, append-nil, append_assoc, length-append,
}
use picloud.Prelude.Texts.{Text}
use picloud.Raft.Types.{LogId, ClientResponse, EntryPayload, blank, normal, membership, Entry}
use picloud.Raft.LogStore.{or_else}
use picloud.Raft.StateMachine.{MemStateMachine, apply, apply_entry, response}

module _ {Membership : Type 0} where
  -- The client requests among the entries, in order.
  abbrev request_of : EntryPayload Membership → List Text
  request_of blank = []
  request_of (normal req) = req.event_json ∷ []
  request_of (membership mem) = []

  abbrev requests : List (Entry Membership) → List Text
  requests [] = []
  requests (e ∷ es) = request_of e.payload ++ requests es

  abbrev pub last_id : List (Entry Membership) → Option LogId
  last_id [] = none
  last_id (e ∷ es) = or_else (last_id es) (some e.log_id)

  -- Applying one batch and then another gives the responses and the state of applying them at once:
  -- how openraft cuts the log into batches makes no difference.
  apply-append :
      (xs ys : List (Entry Membership)) (s : MemStateMachine Membership)
      → let (first, t) = apply xs s in
        let (second, u) = apply ys t in apply (xs ++ ys) s ≡ (first ++ second, u)
  unfolding apply
  apply-append [] ys s = refl
  apply-append (x ∷ xs) ys s =
      ap
        (λ (r : List ClientResponse × MemStateMachine Membership).
          let c = response (apply_entry x s) in
          let out : List ClientResponse × MemStateMachine Membership = (c ∷ r.0, r.1) in out)
        (apply-append xs ys (apply_entry x s))

  entry-delivered :
      (e : Entry Membership) (s : MemStateMachine Membership)
      → s.has_callback ≡ true
      → (apply_entry e s).delivered ≡ s.delivered ++ request_of e.payload
  unfolding apply_entry
  entry-delivered e s h = ground (arith, append-nil s.delivered)

  entry-callback :
      (e : Entry Membership) (s : MemStateMachine Membership)
      → (apply_entry e s).has_callback ≡ s.has_callback
  unfolding apply_entry
  entry-callback e s = ground arith

  entry-count :
      (e : Entry Membership) (s : MemStateMachine Membership)
      → s.applied_count + 1 < 2 ^ 64
      → (apply_entry e s).applied_count ≡ s.applied_count + length (request_of e.payload)
  unfolding apply_entry
  entry-count e s h = ground arith

  entry-last_applied :
      (e : Entry Membership) (s : MemStateMachine Membership)
      → (apply_entry e s).last_applied_log ≡ some e.log_id
  unfolding apply_entry
  entry-last_applied e s = ground arith

  -- What `apply` makes of a machine with a callback, whose count has room for the batch.
  pub record Applies (es : List (Entry Membership)) (s : MemStateMachine Membership)
      (responses : List ClientResponse) (t : MemStateMachine Membership) : Type 0 where
    pub delivered : t.delivered ≡ s.delivered ++ requests es
    pub answered : length responses ≡ length es
    pub counted : t.applied_count ≡ s.applied_count + length (requests es)
    pub last_applied : t.last_applied_log ≡ or_else (last_id es) s.last_applied_log

  length-request_of : (p : EntryPayload Membership) → length (request_of p) ≤ 1
  length-request_of blank = omega arith
  length-request_of (normal req) = omega arith
  length-request_of (membership mem) = omega arith

  -- Each committed client request is handed to the callback once, in log order; every entry gets one
  -- response; the count grows by the number of requests; and the last applied id is that of the
  -- batch's last entry. The count must have room for the batch in its 64 bits.
  pub apply_lem :
      (es : List (Entry Membership)) (s : MemStateMachine Membership)
      → s.has_callback ≡ true
      → s.applied_count + length es < 2 ^ 64
      → Applies es s (apply es s).0 (apply es s).1
  unfolding apply
  apply_lem [] s h fits = record {
    delivered = sym (append-nil s.delivered);
    answered = refl;
    counted = omega arith;
    last_applied = refl;
  }
  apply_lem (e ∷ es) s h fits =
      let small = length-request_of e.payload in
      let count = entry-count e s (omega arith) in
      let rest =
        apply_lem es (apply_entry e s) (entry-callback e s ∙ h)
          (omega (arith, small, count, fits)) in
      record {
        delivered =
            rest.delivered
            ∙ ap (λ (xs : List Text). xs ++ requests es) (entry-delivered e s h)
            ∙ append_assoc s.delivered (request_of e.payload) (requests es);
        answered = ap suc rest.answered;
        counted =
            omega (arith, rest.counted, count, length-append (request_of e.payload) (requests es));
        last_applied = ground (arith, rest.last_applied, entry-last_applied e s);
      }
