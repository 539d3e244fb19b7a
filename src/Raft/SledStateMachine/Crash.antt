-- ===== src/Raft/SledStateMachine/Crash.antt =====
-- What a stop of the process in the middle of `apply` leaves in the tree.
use picloud.Prelude.{ℕ, ◌≡◌, refl, ap, ◌∙◌, some, List, [], ◌∷◌, arith}
use picloud.Prelude.Equality.{nat_eq, list_eq}
use picloud.Prelude.HashMap
use picloud.Prelude.HashMap.{get-insert}
use picloud.Prelude.Texts.{Text}
use picloud.Raft.Types.{Entry, EntryPayload, blank, normal, membership}
use picloud.Raft.StateMachine
use picloud.Raft.StateMachine.{MemStateMachine}
use picloud.Raft.SledStateMachine
use picloud.Raft.SledStateMachine.{
  SledStateMachine, Formats, read_or, store, last_applied_key, membership_key, count_key,
  get_applied_count,
}
use picloud.Raft.SledStateMachine.Refinement.{AllRoundTrip, Holds, apply_loop-HoldsBut}

module _ {Membership : Type 0} (fm : Formats Membership) where
  entry_keeps_count :
      (e : Entry Membership) (n : ℕ) (t : SledStateMachine)
      → get_applied_count fm (SledStateMachine.apply_entry fm e n t).1 ≡ get_applied_count fm t
  unfolding SledStateMachine.apply_entry get_applied_count
  entry_keeps_count e n t = by_payload e.payload
    where
      id : Text
      id = fm.id_json.to_vec e.log_id

      kept :
          HashMap.get (HashMap.insert t.meta_tree last_applied_key id) count_key
          ≡ HashMap.get t.meta_tree count_key
      kept = get-insert t.meta_tree last_applied_key count_key id

      by_payload :
          (p : EntryPayload Membership)
          → get_applied_count fm
              (SledStateMachine.apply_payload fm e.log_id p n (store last_applied_key id t)).1
            ≡ get_applied_count fm t
      by_payload blank = ap (read_or 0 fm.count_json) kept
      by_payload (normal req) = ap (read_or 0 fm.count_json) kept
      by_payload (membership mem) = ap (read_or 0 fm.count_json) (
          get-insert (HashMap.insert t.meta_tree last_applied_key id) membership_key count_key
            (fm.membership_json.to_vec (record { log_id = some e.log_id; membership = mem }))
          ∙ kept)

  loop_keeps_count :
      (es : List (Entry Membership)) (n : ℕ) (t : SledStateMachine)
      → get_applied_count fm (SledStateMachine.apply_loop fm es n t).2 ≡ get_applied_count fm t
  unfolding SledStateMachine.apply_loop
  loop_keeps_count [] n t = refl
  loop_keeps_count (e ∷ es) n t =
      loop_keeps_count es (SledStateMachine.apply_entry fm e n t).0
        (SledStateMachine.apply_entry fm e n t).1
      ∙ entry_keeps_count e n t

  -- Where the process stops after the loop over a batch and before the count is written, the tree
  -- has the last applied id and the membership of the whole batch, its requests were delivered, and
  -- the count is the one before the batch.
  crash_before_count :
      (es : List (Entry Membership)) (t : SledStateMachine) (s : MemStateMachine Membership)
      → AllRoundTrip fm
      → Holds fm t s
      → let u = (SledStateMachine.apply_loop fm es s.applied_count t).2 in
        let whole = (StateMachine.apply es s).1 in
        (SledStateMachine.applied_state fm u ≡ some (StateMachine.applied_state whole))
        × (u.delivered ≡ whole.delivered)
        × (get_applied_count fm u ≡ some s.applied_count)
  unfolding SledStateMachine.applied_state StateMachine.applied_state
  crash_before_count es t s r h =
      let but = (apply_loop-HoldsBut fm es s.applied_count t s r h.rest).1 in
      (
        ground (arith, but.last_applied, but.membership),
        but.delivered,
        loop_keeps_count es s.applied_count t ∙ h.stored,
      )

  -- Where the process stops between the write of an entry's id and the callback, the tree reports
  -- the entry as applied, and its request was not delivered.
  crash_before_callback :
      (e : Entry Membership) (t : SledStateMachine) (s : MemStateMachine Membership)
      → AllRoundTrip fm
      → Holds fm t s
      → let u = store last_applied_key (fm.id_json.to_vec e.log_id) t in
        (SledStateMachine.applied_state fm u ≡ some (some e.log_id, s.last_membership))
        × (u.delivered ≡ s.delivered)
  unfolding SledStateMachine.applied_state
  crash_before_callback e t s r h =
      let id = fm.id_json.to_vec e.log_id in
      (
        ground (
          arith,
          get-insert t.meta_tree last_applied_key last_applied_key id,
          get-insert t.meta_tree last_applied_key membership_key id,
          r.ids e.log_id,
          h.rest.membership,
        ),
        h.rest.delivered,
      )
