-- ===== src/Workload/Tests.antt =====
-- Runs of the scheduler and the drain coordinator.
use picloud.Prelude.{
  ℕ, ◌≤◌, ◌≡◌, refl, true, false, Option, none, some, List, [], ◌∷◌, ◌++◌, length, take,
  if◌then◌else◌, ◌==◌, contains, ltb, arith,
}
use picloud.Prelude.Equality.{nat_eq, list_eq}
use picloud.Prelude.HashMap
use picloud.Prelude.Texts.{Text, codes}
use picloud.Domain.Error.{Result, ok, err, resource_already_exists}
use picloud.Domain.Events.{Uuid}
use picloud.Domain.Iri.{ResourceIri}
use picloud.Workload.Limits.{ResourceLimits, validate}
use picloud.Workload.Spec.{always, on_failure, BinarySpec, WorkloadSpec, binary, resources_of}
use picloud.Workload.Scheduler.{
  running, WorkloadEntry, Workloads, exited, Observation, schedule, stop, is_running, status,
  health_check, check_entry, should_restart,
}
use picloud.Workload.Scheduler.Entries.{Call, run, health_round, status_call}
use picloud.Workload.Scheduler.Stops.{IsSettled, stop_is_final, status_takes_restart}
use picloud.Workload.Scheduler.Counting.{restarts_in}
use picloud.Workload.Scheduler.Restarts.{restarts_bounded}
use picloud.Workload.Drain.{
  NodeWorkloadInfo, InMemoryDrainCoordinator, workloads_of, drain, drain_state, drained, cordoned,
  timed_out,
}
use picloud.Workload.Drain.Dealing.{dealt}
use picloud.Workload.Drain.Migrations.{share}
use picloud.Workload.Drain.Outcomes.{drain_in_time, drain_late}

abbrev limits : ResourceLimits
limits = record { cpu_millicores = some 500; memory_mb = some 64 }

abbrev server : BinarySpec
server = record {
  executable = codes "server";
  args = [];
  identity = codes "id";
  resources = limits;
  mounts = [];
  env = [];
  restart_policy = always;
  product_version = none;
}

abbrev job : BinarySpec
job = record server { restart_policy = on_failure 3 }

abbrev iri : ResourceIri
iri = codes "w"

abbrev entry : WorkloadEntry
entry = record {
  workload_iri = iri;
  spec = binary server;
  status = running;
  node_id = 1;
  pid = some 70;
  started_at = 5;
  child = some 2;
  restart_count = 0;
  explicitly_stopped = false;
  in_container = false;
}

abbrev workloads : Workloads
workloads = (iri, entry) ∷ []

abbrev crashed : Observation
crashed child = exited false

abbrev spawns : BinarySpec → Result (ℕ × ℕ)
spawns s = ok (3, 71)

stop_example :
    let after =
      run (health_round crashed spawns ∷ status_call crashed iri ∷ []) (stop iri workloads).1 in
    ((d : WorkloadEntry) × (HashMap.get after iri ≡ some d) × IsSettled d)
    × ((now : ℕ) (node_id : Uuid) (spec : WorkloadSpec) (spawned : Result (Option ℕ × ℕ))
        → validate (resources_of spec) ≡ []
        → schedule now node_id iri spec spawned after ≡ (err (resource_already_exists iri), after))
unfolding HashMap.get
stop_example =
    stop_is_final iri workloads entry (health_round crashed spawns ∷ status_call crashed iri ∷ [])
      refl

abbrev rounds : List Call
rounds = health_round crashed spawns ∷ health_round crashed spawns ∷ []

restarts_example :
    let start = (schedule 5 1 iri (binary job) (ok (some 2, 70)) []).1 in
    (restarts_in iri rounds start ≤ 3)
    × ((e : WorkloadEntry) × (HashMap.get (run rounds start) iri ≡ some e)
        × (e.spec ≡ binary job)
        × (e.restart_count ≤ 3))
unfolding schedule HashMap.contains_key
restarts_example =
    restarts_bounded 5 1 iri (binary job) (ok (some 2, 70)) []
      (record { workload_iri = iri; node_id = 1; pid = some 70 }) rounds (omega arith) refl

restarts_twice : restarts_in iri rounds (schedule 5 1 iri (binary job) (ok (some 2, 70)) []).1 ≡ 2
unfolding schedule HashMap.contains_key HashMap.get HashMap.insert health_check check_entry
    should_restart
restarts_twice = ground arith

status_example :
    (HashMap.get (health_check crashed spawns workloads) iri
      ≡ some (record entry { child = some 3; pid = some 71; restart_count = 1 }))
    × ((d : WorkloadEntry) × (HashMap.get
            (run (health_round crashed spawns ∷ []) (status crashed iri workloads).1)
            iri
          ≡ some d)
        × (is_running d.status ≡ false))
unfolding HashMap.get
status_example =
    status_takes_restart crashed spawns iri workloads entry server 2 3 71 false
      (health_round crashed spawns ∷ []) refl refl refl refl refl refl refl refl

abbrev shop : Text → NodeWorkloadInfo
shop name = record { workload_iri = name; workload_type = codes "binary" }

abbrev cluster : InMemoryDrainCoordinator
cluster = record {
  drain_states = [];
  node_workloads = (1, shop (codes "a") ∷ shop (codes "b") ∷ []) ∷ [];
  available_nodes = 2 ∷ 3 ∷ [];
  migrations = [];
}

drain_example :
    let (r, after) = drain 1 (λ k. false) cluster in
    let ws = workloads_of 1 cluster in
    (r.success ≡ true)
    × (r.workloads_migrated ≡ length ws)
    × (drain_state 1 after ≡ drained)
    × ((j : Uuid)
        → workloads_of j after
          ≡ (if 1 == j then [] else workloads_of j cluster ++ dealt j cluster.available_nodes ws))
    × (contains cluster.available_nodes 1 ≡ false → dealt 1 cluster.available_nodes ws ≡ [])
drain_example = drain_in_time 1 (λ k. false) cluster refl (λ k. refl)

drain_late_example :
    let (r, after) = drain 1 (λ k. ltb 0 k) cluster in
    let ws = workloads_of 1 cluster in
    (r.success ≡ false)
    × (r.error ≡ some (timed_out 1 (length ws)))
    × (drain_state 1 after ≡ cordoned)
    × (workloads_of 1 after ≡ ws)
    × ((j : Uuid)
        → workloads_of j after
          ≡ workloads_of j cluster ++ share j cluster.available_nodes 0 (take 1 ws))
unfolding workloads_of HashMap.get
drain_late_example =
    drain_late 1 (λ k. ltb 0 k) cluster refl 1 (omega arith) (λ m h. ground arith) refl refl
