-- ===== src/Raft/Tests.antt =====
-- Runs of the storage of crates/picloud-cluster/src/raft.rs at concrete entries.
use picloud.Prelude.{ℕ, ◌≡◌, refl, true, none, List, [], ◌∷◌, arith}
use picloud.Prelude.Texts.{codes}
use picloud.Raft.Types.{LogId, Entry, ClientRequest, normal}
use picloud.Raft.LogStore
use picloud.Raft.LogStore.{MemLogStore, read_vote, read_committed, get_log_state, or_else}
use picloud.Raft.LogStore.Laws.{entry_at, truncate-purge}
use picloud.Raft.StateMachine
use picloud.Raft.StateMachine.{
  MemStateMachine, apply, build_snapshot, install_snapshot, applied_state, get_current_snapshot,
}
use picloud.Raft.StateMachine.Applying.{Applies, apply_lem}

abbrev id_at : ℕ → LogId
id_at i = record { term = 1; node_id = 4; index = i }

abbrev request : ClientRequest
request = record { event_json = codes "{}" }

-- Memberships are numbers here.
abbrev entry : ℕ → Entry ℕ
entry i = record { log_id = id_at i; payload = normal request }

abbrev two_entries : List (Entry ℕ)
two_entries = entry 1 ∷ entry 2 ∷ []

abbrev store : MemLogStore ℕ
store = LogStore.append two_entries LogStore.new

truncate-purge_example :
    (entry_at (LogStore.truncate (id_at 2) store) 1 ≡ entry_at store 1)
    × (entry_at (LogStore.purge (id_at 2) store) 1 ≡ none)
    × (read_vote (LogStore.truncate (id_at 2) store) ≡ read_vote store)
    × (read_vote (LogStore.purge (id_at 2) store) ≡ read_vote store)
    × (read_committed (LogStore.truncate (id_at 2) store) ≡ read_committed store)
    × (read_committed (LogStore.purge (id_at 2) store) ≡ read_committed store)
truncate-purge_example = truncate-purge (id_at 2) store 1

abbrev machine : MemStateMachine ℕ
machine = StateMachine.new 0 true

apply_lem_example :
    Applies two_entries machine (apply two_entries machine).0 (apply two_entries machine).1
unfolding StateMachine.new
apply_lem_example = apply_lem two_entries machine refl (omega arith)
