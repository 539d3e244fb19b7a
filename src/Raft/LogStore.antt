-- ===== src/Raft/LogStore.antt =====
-- `MemLogStore` of crates/picloud-cluster/src/raft.rs. Its lock is held for the whole of each call.
pub mod Laws
use picloud.Prelude.{ℕ, Option, none, some, List, [], ◌∷◌, if◌then◌else◌}
use picloud.Prelude.BTreeMap
use picloud.Prelude.BTreeMap.{BTreeMap, Bound, included, unbounded, is_inverted}
use picloud.Raft.Types.{LogId, Vote, Entry, LogState}

pub record MemLogStore (Membership : Type 0) : Type 0 where
  pub last_purged_log_id : Option LogId
  pub log : BTreeMap (Entry Membership)
  pub vote : Option Vote
  pub committed : Option LogId

abbrev pub or_else {ℓ} : {A : Type ℓ} → Option A → Option A → Option A
or_else none b = b
or_else (some a) b = some a

module _ {Membership : Type 0} where
  unfoldable pub new : MemLogStore Membership
  new = record { last_purged_log_id = none; log = []; vote = none; committed = none }

  -- `none` is the panic of `BTreeMap::range`.
  unfoldable pub try_get_log_entries :
      Bound → Bound → MemLogStore Membership → Option (List (Entry Membership))
  try_get_log_entries lo hi s =
      if is_inverted lo hi then none else some (BTreeMap.values (BTreeMap.range s.log lo hi))

  abbrev pub id_of : Option (ℕ × Entry Membership) → Option LogId
  id_of none = none
  id_of (some (k, e)) = some e.log_id

  unfoldable pub get_log_state : MemLogStore Membership → LogState
  get_log_state s = record {
    last_purged_log_id = s.last_purged_log_id;
    last_log_id = or_else (id_of (BTreeMap.last s.log)) s.last_purged_log_id;
  }

  unfoldable pub save_vote : Vote → MemLogStore Membership → MemLogStore Membership
  save_vote vote s = record s { vote = some vote }

  unfoldable pub read_vote : MemLogStore Membership → Option Vote
  read_vote s = s.vote

  unfoldable pub save_committed : Option LogId → MemLogStore Membership → MemLogStore Membership
  save_committed committed s = record s { committed = committed }

  unfoldable pub read_committed : MemLogStore Membership → Option LogId
  read_committed s = s.committed

  unfoldable pub insert_all :
      List (Entry Membership) → BTreeMap (Entry Membership) → BTreeMap (Entry Membership)
  insert_all [] log = log
  insert_all (entry ∷ entries) log =
      insert_all entries (BTreeMap.insert log entry.log_id.index entry)

  unfoldable pub append : List (Entry Membership) → MemLogStore Membership → MemLogStore Membership
  unfolding insert_all
  append entries s = record s { log = insert_all entries s.log }

  unfoldable pub truncate : LogId → MemLogStore Membership → MemLogStore Membership
  truncate log_id s =
      let keys = BTreeMap.keys (BTreeMap.range s.log (included log_id.index) unbounded) in
      record s { log = BTreeMap.remove_all keys s.log }

  unfoldable pub purge : LogId → MemLogStore Membership → MemLogStore Membership
  purge log_id s =
      let keys = BTreeMap.keys (BTreeMap.range s.log unbounded (included log_id.index)) in
      record s { log = BTreeMap.remove_all keys s.log; last_purged_log_id = some log_id }
