-- ===== src/Raft/SledLogStore.antt =====
-- `SledLogStore` of crates/picloud-cluster/src/raft.rs. The two sled trees are maps from keys to
-- bytes: the log tree by the index, whose big-endian bytes sort as the numbers do, and the meta tree
-- by name. serde is a parameter for each type that is stored. A result is `none` where serde cannot
-- read the bytes; sled itself does not fail here, and what is written is there after a restart.
pub mod Trees
pub mod Refinement
use picloud.Prelude.{
  ℕ, ◌≡◌, Bool, true, false, ◌&&◌, Option, none, some, List, [], ◌∷◌, if◌then◌else◌, ◌==◌,
}
use picloud.Prelude.Equality.{nat_eq, list_eq}
use picloud.Prelude.BTreeMap
use picloud.Prelude.BTreeMap.{BTreeMap, Bound, included, unbounded, above, below}
use picloud.Prelude.HashMap
use picloud.Prelude.HashMap.{HashMap}
use picloud.Prelude.Texts.{Text, codes}
use picloud.Raft.Types.{LogId, Vote, Entry, LogState}
use picloud.Raft.LogStore.{or_else}

-- `serde_json::to_vec` and `serde_json::from_slice` at a type.
pub record Json (A : Type 0) : Type 0 where
  pub to_vec : A → Text
  pub from_slice : Text → Option A

-- What is written is read back.
abbrev pub RoundTrips : {A : Type 0} → Json A → Type 0
RoundTrips {A} json = (a : A) → json.from_slice (json.to_vec a) ≡ some a

pub record SledLogStore : Type 0 where
  pub log_tree : BTreeMap Text
  pub meta_tree : HashMap Text Text

unfoldable pub new : SledLogStore
new = record { log_tree = []; meta_tree = [] }

-- `opt.map(|v| from_slice(&v)).transpose()`.
abbrev pub read_with : {A : Type 0} → Json A → Option Text → Option (Option A)
read_with json none = some none
read_with json (some bytes) = elim (json.from_slice bytes) [ none ↦ none | some a ↦ some (some a) ]

abbrev pub vote_key : Text
vote_key = codes "vote"

abbrev pub committed_key : Text
committed_key = codes "committed"

abbrev pub last_purged_key : Text
last_purged_key = codes "last_purged_log_id"

abbrev pub log_state : Option (Option LogId) → Option (Option LogId) → Option LogState
log_state (some purged) (some last) =
    some (record { last_purged_log_id = purged; last_log_id = or_else last purged })
log_state none last = none
log_state (some purged) none = none

module _ {Membership : Type 0} (entry_json : Json (Entry Membership)) (id_json : Json LogId)
    (vote_json : Json Vote) where
  abbrev pub push_entry :
      Option (Entry Membership)
      → Option (List (Entry Membership))
      → Option (List (Entry Membership))
  push_entry (some e) (some es) = some (e ∷ es)
  push_entry none es = none
  push_entry (some e) none = none

  unfoldable pub collect_range : Bound → Bound → BTreeMap Text → Option (List (Entry Membership))
  collect_range lo hi [] = some []
  collect_range lo hi ((k, bytes) ∷ tree) =
      let rest = collect_range lo hi tree in
      if above lo k && below hi k then push_entry (entry_json.from_slice bytes) rest else rest

  unfoldable pub try_get_log_entries :
      Bound → Bound → SledLogStore → Option (List (Entry Membership))
  unfolding collect_range
  try_get_log_entries lo hi s = collect_range lo hi s.log_tree

  -- The `unwrap` on the last entry panics where serde fails.
  abbrev pub last_id : Option (ℕ × Text) → Option (Option LogId)
  last_id none = some none
  last_id (some (k, bytes)) = elim (entry_json.from_slice bytes) [
    | none ↦ none
    | some e ↦ some (some e.log_id)
  ]

  unfoldable pub get_log_state : SledLogStore → Option LogState
  get_log_state s =
      log_state (read_with id_json (HashMap.get s.meta_tree last_purged_key))
        (last_id (BTreeMap.last s.log_tree))

  unfoldable pub save_vote : Vote → SledLogStore → SledLogStore
  save_vote vote s = record s {
    meta_tree = HashMap.insert s.meta_tree vote_key (vote_json.to_vec vote);
  }

  unfoldable pub read_vote : SledLogStore → Option (Option Vote)
  read_vote s = read_with vote_json (HashMap.get s.meta_tree vote_key)

  unfoldable pub save_committed : Option LogId → SledLogStore → SledLogStore
  save_committed none s = record s { meta_tree = HashMap.remove s.meta_tree committed_key }
  save_committed (some c) s = record s {
    meta_tree = HashMap.insert s.meta_tree committed_key (id_json.to_vec c);
  }

  unfoldable pub read_committed : SledLogStore → Option (Option LogId)
  read_committed s = read_with id_json (HashMap.get s.meta_tree committed_key)

  unfoldable pub insert_all : List (Entry Membership) → BTreeMap Text → BTreeMap Text
  insert_all [] tree = tree
  insert_all (entry ∷ entries) tree =
      insert_all entries (BTreeMap.insert tree entry.log_id.index (entry_json.to_vec entry))

  unfoldable pub append : List (Entry Membership) → SledLogStore → SledLogStore
  unfolding insert_all
  append entries s = record s { log_tree = insert_all entries s.log_tree }

  unfoldable pub truncate : LogId → SledLogStore → SledLogStore
  truncate log_id s =
      let keys = BTreeMap.keys (BTreeMap.range s.log_tree (included log_id.index) unbounded) in
      record s { log_tree = BTreeMap.remove_all keys s.log_tree }

  unfoldable pub purge : LogId → SledLogStore → SledLogStore
  purge log_id s =
      let keys = BTreeMap.keys (BTreeMap.range s.log_tree unbounded (included log_id.index)) in
      record {
        log_tree = BTreeMap.remove_all keys s.log_tree;
        meta_tree = HashMap.insert s.meta_tree last_purged_key (id_json.to_vec log_id);
      }
