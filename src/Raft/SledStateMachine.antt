-- ===== src/Raft/SledStateMachine.antt =====
-- `SledStateMachine` of crates/picloud-cluster/src/raft.rs, over its one sled tree. serde is a
-- parameter for each stored type; a result is `none` where serde cannot read the bytes. What the
-- callback is called with is recorded in `delivered`. The snapshot's identifier is left out.
pub mod Refinement
pub mod Crash
use picloud.Prelude.{
  ℕ, ◌+◌, Bool, true, false, Option, none, some, List, [], ◌∷◌, ◌++◌, if◌then◌else◌, ◌==◌,
}
use picloud.Prelude.Equality.{nat_eq, list_eq}
use picloud.Prelude.HashMap
use picloud.Prelude.HashMap.{HashMap}
use picloud.Prelude.Texts.{Text, codes}
use picloud.Raft.Types.{
  LogId, ClientResponse, Entry, EntryPayload, blank, normal, membership, StoredMembership,
}
use picloud.Raft.StateMachine.{SnapshotMeta, Snapshot, u64, deliver}
use picloud.Raft.SledLogStore.{Json, read_with}

pub record SledStateMachine : Type 0 where
  pub meta_tree : HashMap Text Text
  pub has_callback : Bool
  pub delivered : List Text

unfoldable pub new : Bool → SledStateMachine
new has_callback = record { meta_tree = []; has_callback = has_callback; delivered = [] }

abbrev pub last_applied_key : Text
last_applied_key = codes "sm_last_applied"

abbrev pub membership_key : Text
membership_key = codes "sm_membership"

abbrev pub count_key : Text
count_key = codes "sm_count"

abbrev pub snapshot_data_key : Text
snapshot_data_key = codes "sm_snapshot_data"

abbrev pub snapshot_meta_key : Text
snapshot_meta_key = codes "sm_snapshot_meta"

-- `opt.map(from_slice).transpose()?.unwrap_or(d)`.
abbrev pub read_or : {A : Type 0} → A → Json A → Option Text → Option A
read_or d json none = some d
read_or d json (some bytes) = json.from_slice bytes

abbrev pub bytes_or_empty : Option Text → Text
bytes_or_empty none = []
bytes_or_empty (some bytes) = bytes

abbrev pub store : Text → Text → SledStateMachine → SledStateMachine
store key bytes s = record s { meta_tree = HashMap.insert s.meta_tree key bytes }

-- What serde reads and writes of the machine, and openraft's default membership.
pub record Formats (Membership : Type 0) : Type 0 where
  pub id_json : Json LogId
  pub membership_json : Json (StoredMembership Membership)
  pub count_json : Json ℕ
  pub meta_json : Json (SnapshotMeta Membership)
  pub default : StoredMembership Membership

module _ {Membership : Type 0} (fm : Formats Membership) where
  unfoldable pub get_applied_count : SledStateMachine → Option ℕ
  get_applied_count s = read_or 0 fm.count_json (HashMap.get s.meta_tree count_key)

  unfoldable pub set_applied_count : ℕ → SledStateMachine → SledStateMachine
  set_applied_count count s = store count_key (fm.count_json.to_vec count) s

  abbrev pair_some : {A B : Type 0} → Option A → Option B → Option (A × B)
  pair_some (some a) (some b) = some (a, b)
  pair_some none b = none
  pair_some (some a) none = none

  unfoldable pub applied_state :
      SledStateMachine → Option (Option LogId × StoredMembership Membership)
  applied_state s =
      pair_some (read_with fm.id_json (HashMap.get s.meta_tree last_applied_key))
        (read_or fm.default fm.membership_json (HashMap.get s.meta_tree membership_key))

  -- The match on the payload; the count is a local variable of `apply`.
  abbrev pub apply_payload :
      LogId → EntryPayload Membership → ℕ → SledStateMachine → ℕ × SledStateMachine
  apply_payload id blank count s = (count, s)
  apply_payload id (normal req) count s =
      (u64 (count + 1), record s { delivered = deliver s.has_callback s.delivered req.event_json })
  apply_payload id (membership mem) count s = (
    count,
    store membership_key (fm.membership_json.to_vec (record { log_id = some id; membership = mem }))
        s,
  )

  unfoldable pub apply_entry : Entry Membership → ℕ → SledStateMachine → ℕ × SledStateMachine
  apply_entry entry count s =
      apply_payload entry.log_id entry.payload count
        (store last_applied_key (fm.id_json.to_vec entry.log_id) s)

  -- The loop of `apply`: the responses, the count and the machine after it.
  unfoldable pub apply_loop :
      List (Entry Membership) → ℕ → SledStateMachine → List ClientResponse × ℕ × SledStateMachine
  unfolding apply_entry
  apply_loop [] count s = ([], count, s)
  apply_loop (entry ∷ entries) count s =
      let (n, t) = apply_entry entry count s in
      let (responses, m, u) = apply_loop entries n t in (record { index = n } ∷ responses, m, u)

  abbrev pub finish :
      List ClientResponse × ℕ × SledStateMachine → List ClientResponse × SledStateMachine
  finish (responses, count, s) = (responses, set_applied_count count s)

  abbrev pub apply_from :
      Option ℕ
      → List (Entry Membership)
      → SledStateMachine
      → Option (List ClientResponse × SledStateMachine)
  apply_from none entries s = none
  apply_from (some count) entries s = some (finish (apply_loop entries count s))

  unfoldable pub apply :
      List (Entry Membership) → SledStateMachine → Option (List ClientResponse × SledStateMachine)
  unfolding get_applied_count set_applied_count apply_loop
  apply entries s = apply_from (get_applied_count s) entries s

  abbrev store_last : Option LogId → SledStateMachine → SledStateMachine
  store_last none s = s
  store_last (some id) s = store last_applied_key (fm.id_json.to_vec id) s

  unfoldable pub install_snapshot : Snapshot Membership → SledStateMachine → SledStateMachine
  install_snapshot snap s = store snapshot_meta_key (fm.meta_json.to_vec snap.meta) (
      store snapshot_data_key snap.snapshot (
        store membership_key (fm.membership_json.to_vec snap.meta.last_membership)
          (store_last snap.meta.last_log_id s)))

  abbrev pub current :
      Option (Option (SnapshotMeta Membership)) → Text → Option (Option (Snapshot Membership))
  current none bytes = none
  current (some none) bytes = some none
  current (some (some meta)) bytes = some (some (record { meta = meta; snapshot = bytes }))

  unfoldable pub get_current_snapshot : SledStateMachine → Option (Option (Snapshot Membership))
  get_current_snapshot s =
      current (read_with fm.meta_json (HashMap.get s.meta_tree snapshot_meta_key))
        (bytes_or_empty (HashMap.get s.meta_tree snapshot_data_key))

  abbrev build_of :
      Option (Option LogId × StoredMembership Membership)
      → SledStateMachine
      → Option (Snapshot Membership × SledStateMachine)
  build_of none s = none
  build_of (some (last_applied, stored)) s =
      let meta : SnapshotMeta Membership = record {
        last_log_id = last_applied;
        last_membership = stored;
      } in
      let snap : Snapshot Membership = record {
        meta = meta;
        snapshot = bytes_or_empty (HashMap.get s.meta_tree snapshot_data_key);
      } in
      some (snap, store snapshot_meta_key (fm.meta_json.to_vec meta) s)

  unfoldable pub build_snapshot : SledStateMachine → Option (Snapshot Membership × SledStateMachine)
  unfolding applied_state
  build_snapshot s = build_of (applied_state s) s
