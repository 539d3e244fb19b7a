-- ===== src/Raft/StateMachine/Snapshots.antt =====
-- Snapshots of the in-memory state machine: what they carry over to another node, and what not.
use picloud.Prelude.{◌+◌, ◌^◌, ◌<◌, ◌≡◌, refl, ◌≢◌, true, some, List, [], ◌∷◌, arith}
use picloud.Raft.Types.{LogId, ClientRequest, normal, Entry}
use picloud.Raft.StateMachine.{
  MemStateMachine, new, applied_state, apply, apply_entry, install_snapshot, get_current_snapshot,
  build_snapshot,
}

module _ {Membership : Type 0} where
  -- A snapshot that one node builds and another installs carries the last applied id and the
  -- membership over, and the receiver then serves the snapshot that it was given.
  install-build :
      (s t : MemStateMachine Membership)
      → let snap = (build_snapshot s).0 in
        (applied_state (install_snapshot snap t) ≡ applied_state s)
        × (get_current_snapshot (install_snapshot snap t) ≡ some snap)
        × (get_current_snapshot (build_snapshot s).1 ≡ some snap)
        × (applied_state (build_snapshot s).1 ≡ applied_state s)
  unfolding build_snapshot install_snapshot applied_state get_current_snapshot
  install-build s t = (refl, refl, refl, refl)

  entry-data :
      (e : Entry Membership) (s : MemStateMachine Membership)
      → (apply_entry e s).snapshot_data ≡ s.snapshot_data
  unfolding apply_entry
  entry-data e s = ground arith

  apply-data :
      (es : List (Entry Membership)) (s : MemStateMachine Membership)
      → (apply es s).1.snapshot_data ≡ s.snapshot_data
  unfolding apply
  apply-data [] s = refl
  apply-data (e ∷ es) s = ground (arith, apply-data es (apply_entry e s), entry-data e s)

  -- Applied events are not in a snapshot: whatever entries a new machine applied, the snapshot that it
  -- builds is empty, and a new machine that installs it stands at the same applied id with a count of
  -- 0 and with no event delivered.
  snapshot_without_events :
      (default : Membership) (es : List (Entry Membership))
      → let s = (apply es (new default true)).1 in
        let snap = (build_snapshot s).0 in
        let t = install_snapshot snap (new default true) in
        (snap.snapshot ≡ [])
        × (applied_state t ≡ applied_state s)
        × (t.applied_count ≡ 0)
        × (t.delivered ≡ [])
  unfolding build_snapshot install_snapshot applied_state
  snapshot_without_events default es =
      (unfold new in apply-data es (new default true), refl, unfold new in refl, unfold new in refl)

  -- A new node that installs the snapshot of one that applied at least one request, and whose count
  -- has room, answers the next request with index 1, where the other answers with its count and one.
  snapshot_index_gap :
      (default : Membership) (s : MemStateMachine Membership) (id : LogId) (req : ClientRequest)
      → 0 < s.applied_count
      → s.applied_count + 1 < 2 ^ 64
      → let t = install_snapshot (build_snapshot s).0 (new default true) in
        let e : Entry Membership = record { log_id = id; payload = normal req } in
        ((apply (e ∷ []) s).0 ≡ record { index = s.applied_count + 1 } ∷ [])
        × ((apply (e ∷ []) t).0 ≡ record { index = 1 } ∷ [])
        × ((apply (e ∷ []) s).0 ≢ (apply (e ∷ []) t).0)
  unfolding apply build_snapshot install_snapshot new
  snapshot_index_gap default s id req pos fits = (ground arith, ground arith, ground arith)
