-- ===== src/Workload/Drain.antt =====
-- `InMemoryDrainCoordinator` of crates/picloud-workload/src/implementation.rs. The deadline is read
-- before each workload, so a drain is given the answers of those readings; durations are left out of
-- the result.
pub mod Migrations
pub mod Dealing
pub mod Outcomes
use picloud.Prelude.{
  ℕ, zero, suc, ◌+◌, ◌%◌, Bool, true, false, Option, none, some, List, [], ◌∷◌, ◌++◌, length,
  if◌then◌else◌, ltb, ◌&&◌,
}
use picloud.Prelude.Equality.{nat_eq}
use picloud.Prelude.HashMap
use picloud.Prelude.HashMap.{HashMap}
use picloud.Prelude.Texts.{Text}
use picloud.Domain.Error.{Result, ok, err, internal, cannot_cordon, cannot_uncordon}
use picloud.Domain.Events.{Uuid}
use picloud.Domain.Iri.{ResourceIri}

pub data NodeDrainState : Type 0 where
  active cordoned draining drained : NodeDrainState

pub record NodeWorkloadInfo : Type 0 where
  pub workload_iri : ResourceIri
  pub workload_type : Text

pub record MigrationRecord : Type 0 where
  pub workload_iri : ResourceIri
  pub workload_type : Text
  pub from_node_id : Uuid
  pub to_node_id : Uuid

pub record InMemoryDrainCoordinator : Type 0 where
  pub drain_states : HashMap Uuid NodeDrainState
  pub node_workloads : HashMap Uuid (List NodeWorkloadInfo)
  pub available_nodes : List Uuid
  pub migrations : List MigrationRecord

abbrev pub new : InMemoryDrainCoordinator
new = record { drain_states = []; node_workloads = []; available_nodes = []; migrations = [] }

abbrev pub set_state : Uuid → NodeDrainState → InMemoryDrainCoordinator → InMemoryDrainCoordinator
set_state node_id s c = record c { drain_states = HashMap.insert c.drain_states node_id s }

unfoldable register_node : Uuid → InMemoryDrainCoordinator → InMemoryDrainCoordinator
register_node node_id c = set_state node_id active c

abbrev pub workloads_or_default : Option (List NodeWorkloadInfo) → List NodeWorkloadInfo
workloads_or_default none = []
workloads_or_default (some ws) = ws

unfoldable pub workloads_of : Uuid → InMemoryDrainCoordinator → List NodeWorkloadInfo
workloads_of node_id c = workloads_or_default (HashMap.get c.node_workloads node_id)

unfoldable pub register_workload :
    Uuid → NodeWorkloadInfo → InMemoryDrainCoordinator → InMemoryDrainCoordinator
unfolding workloads_of
register_workload node_id w c = record c {
  node_workloads = HashMap.insert c.node_workloads node_id (workloads_of node_id c ++ w ∷ []);
}

unfoldable set_available_nodes : List Uuid → InMemoryDrainCoordinator → InMemoryDrainCoordinator
set_available_nodes nodes c = record c { available_nodes = nodes }

unfoldable clear_migration_log : InMemoryDrainCoordinator → InMemoryDrainCoordinator
clear_migration_log c = record c { migrations = [] }

abbrev pub state_or_active : Option NodeDrainState → NodeDrainState
state_or_active none = active
state_or_active (some s) = s

unfoldable pub drain_state : Uuid → InMemoryDrainCoordinator → NodeDrainState
drain_state node_id c = state_or_active (HashMap.get c.drain_states node_id)

abbrev cordon_from :
    Uuid
    → Option NodeDrainState
    → InMemoryDrainCoordinator
    → Result (Unit {0}) × InMemoryDrainCoordinator
cordon_from node_id none c = (ok tt, set_state node_id cordoned c)
cordon_from node_id (some active) c = (ok tt, set_state node_id cordoned c)
cordon_from node_id (some cordoned) c = (err (internal cannot_cordon), c)
cordon_from node_id (some draining) c = (err (internal cannot_cordon), c)
cordon_from node_id (some drained) c = (err (internal cannot_cordon), c)

unfoldable cordon : Uuid → InMemoryDrainCoordinator → Result (Unit {0}) × InMemoryDrainCoordinator
cordon node_id c = cordon_from node_id (HashMap.get c.drain_states node_id) c

abbrev uncordon_from :
    Uuid
    → Option NodeDrainState
    → InMemoryDrainCoordinator
    → Result (Unit {0}) × InMemoryDrainCoordinator
uncordon_from node_id (some cordoned) c = (ok tt, set_state node_id active c)
uncordon_from node_id (some drained) c = (ok tt, set_state node_id active c)
uncordon_from node_id none c = (ok tt, set_state node_id active c)
uncordon_from node_id (some draining) c = (err (internal cannot_uncordon), c)
uncordon_from node_id (some active) c = (err (internal cannot_uncordon), c)

unfoldable uncordon : Uuid → InMemoryDrainCoordinator → Result (Unit {0}) × InMemoryDrainCoordinator
uncordon node_id c = uncordon_from node_id (HashMap.get c.drain_states node_id) c

pub data DrainError : Type 0 where
  no_targets : DrainError
  -- how many of how many were migrated
  timed_out : ℕ → ℕ → DrainError

pub record DrainResult : Type 0 where
  pub node_id : Uuid
  pub workloads_migrated : ℕ
  pub success : Bool
  pub error : Option DrainError

-- The index is in range where there are targets; `migrate` runs only then.
unfoldable pub nth : List Uuid → ℕ → Uuid
nth [] i = 0
nth (t ∷ ts) zero = t
nth (t ∷ ts) (suc i) = nth ts i

abbrev pub target_of : List Uuid → ℕ → Uuid
target_of targets i = nth targets (i % length targets)

abbrev pub migrate_one :
    Uuid → Uuid → NodeWorkloadInfo → InMemoryDrainCoordinator → InMemoryDrainCoordinator
migrate_one node_id target w c = record (register_workload target w c) {
  migrations =
      c.migrations
      ++ record {
        workload_iri = w.workload_iri;
        workload_type = w.workload_type;
        from_node_id = node_id;
        to_node_id = target;
      }
        ∷ [];
}

-- The loop from index `i` on: how many were migrated, whether the deadline had passed, and the state.
-- `late i` is whether it had before workload `i`.
unfoldable pub migrate :
    Uuid
    → List Uuid
    → (ℕ → Bool)
    → ℕ
    → List NodeWorkloadInfo
    → InMemoryDrainCoordinator
    → ℕ × Bool × InMemoryDrainCoordinator
unfolding register_workload nth
migrate node_id targets late i [] c = (i, false, c)
migrate node_id targets late i (w ∷ ws) c =
    let rest =
      migrate node_id targets late (i + 1) ws (migrate_one node_id (target_of targets i) w c) in
    if late i then (i, true, c) else rest

abbrev pub finish :
    Uuid → ℕ → ℕ × Bool × InMemoryDrainCoordinator → DrainResult × InMemoryDrainCoordinator
finish node_id count (migrated, true, c) = (
  record {
    node_id = node_id;
    workloads_migrated = migrated;
    success = false;
    error = some (timed_out migrated count);
  },
  set_state node_id cordoned c,
)
finish node_id count (migrated, false, c) = (
  record { node_id = node_id; workloads_migrated = migrated; success = true; error = none },
  set_state node_id drained (record c { node_workloads = HashMap.remove c.node_workloads node_id }),
)

abbrev pub is_nil {ℓ} : {A : Type ℓ} → List A → Bool
is_nil [] = true
is_nil (x ∷ xs) = false

unfoldable pub drain :
    Uuid → (ℕ → Bool) → InMemoryDrainCoordinator → DrainResult × InMemoryDrainCoordinator
unfolding migrate workloads_of
drain node_id late c =
    let started = set_state node_id draining c in
    let workloads = workloads_of node_id c in
    if is_nil c.available_nodes && ltb 0 (length workloads)
    then (
      record {
        node_id = node_id;
        workloads_migrated = 0;
        success = false;
        error = some no_targets;
      },
      set_state node_id cordoned started,
    )
    else finish node_id (length workloads)
        (migrate node_id c.available_nodes late 0 workloads started)
