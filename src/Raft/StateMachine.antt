-- ===== src/Raft/StateMachine.antt =====
-- `MemStateMachine` of crates/picloud-cluster/src/raft.rs. Its lock is held for the whole of each
-- call. What the apply callback is called with is recorded in `delivered`, in order; a machine with
-- no callback delivers nothing. The snapshot's identifier, a text for the log, is left out.
pub mod Applying
pub mod Snapshots
use picloud.Prelude.{ℕ, ◌+◌, ◌%◌, ◌^◌, Bool, true, false, Option, none, some, List, [], ◌∷◌, ◌++◌}
use picloud.Prelude.Texts.{Text}
use picloud.Raft.Types.{
  LogId, ClientRequest, ClientResponse, EntryPayload, blank, normal, membership, Entry,
  StoredMembership,
}

pub record SnapshotMeta (Membership : Type 0) : Type 0 where
  pub last_log_id : Option LogId
  pub last_membership : StoredMembership Membership

-- A snapshot is its meta and the bytes of its data.
pub record Snapshot (Membership : Type 0) : Type 0 where
  pub meta : SnapshotMeta Membership
  pub snapshot : List ℕ

pub record MemStateMachine (Membership : Type 0) : Type 0 where
  pub last_applied_log : Option LogId
  pub last_membership : StoredMembership Membership
  pub applied_count : ℕ  -- u64
  pub snapshot_data : List ℕ
  pub snapshot_meta : Option (SnapshotMeta Membership)
  pub has_callback : Bool
  pub delivered : List Text

abbrev pub u64 : ℕ → ℕ
u64 n = n % 2 ^ 64

abbrev pub deliver : Bool → List Text → Text → List Text
deliver true delivered event_json = delivered ++ event_json ∷ []
deliver false delivered event_json = delivered

module _ {Membership : Type 0} where
  -- `MemStateMachine::new`, with or without a callback, at openraft's default membership.
  unfoldable pub new : Membership → Bool → MemStateMachine Membership
  new default has_callback = record {
    last_applied_log = none;
    last_membership = record { log_id = none; membership = default };
    applied_count = 0;
    snapshot_data = [];
    snapshot_meta = none;
    has_callback = has_callback;
    delivered = [];
  }

  unfoldable pub applied_state :
      MemStateMachine Membership → Option LogId × StoredMembership Membership
  applied_state s = (s.last_applied_log, s.last_membership)

  abbrev pub apply_payload :
      LogId → EntryPayload Membership → MemStateMachine Membership → MemStateMachine Membership
  apply_payload log_id blank s = s
  apply_payload log_id (normal req) s = record s {
    applied_count = u64 (s.applied_count + 1);
    delivered = deliver s.has_callback s.delivered req.event_json;
  }
  apply_payload log_id (membership mem) s = record s {
    last_membership = record { log_id = some log_id; membership = mem };
  }

  -- The body of the loop of `apply`; the response is the count after the entry.
  unfoldable pub apply_entry :
      Entry Membership → MemStateMachine Membership → MemStateMachine Membership
  apply_entry entry s =
      apply_payload entry.log_id entry.payload (record s { last_applied_log = some entry.log_id })

  abbrev pub response : MemStateMachine Membership → ClientResponse
  response s = record { index = s.applied_count }

  unfoldable pub apply :
      List (Entry Membership)
      → MemStateMachine Membership
      → List ClientResponse × MemStateMachine Membership
  unfolding apply_entry
  apply [] s = ([], s)
  apply (entry ∷ entries) s =
      let t = apply_entry entry s in
      let (responses, u) = apply entries t in (response t ∷ responses, u)

  unfoldable pub install_snapshot :
      Snapshot Membership → MemStateMachine Membership → MemStateMachine Membership
  install_snapshot snap s = record s {
    last_applied_log = snap.meta.last_log_id;
    last_membership = snap.meta.last_membership;
    snapshot_data = snap.snapshot;
    snapshot_meta = some snap.meta;
  }

  abbrev current : Option (SnapshotMeta Membership) → List ℕ → Option (Snapshot Membership)
  current none bytes = none
  current (some meta) bytes = some (record { meta = meta; snapshot = bytes })

  unfoldable pub get_current_snapshot : MemStateMachine Membership → Option (Snapshot Membership)
  get_current_snapshot s = current s.snapshot_meta s.snapshot_data

  unfoldable pub build_snapshot :
      MemStateMachine Membership → Snapshot Membership × MemStateMachine Membership
  build_snapshot s =
      let meta : SnapshotMeta Membership = record {
        last_log_id = s.last_applied_log;
        last_membership = s.last_membership;
      } in
      (record { meta = meta; snapshot = s.snapshot_data }, record s { snapshot_meta = some meta })
