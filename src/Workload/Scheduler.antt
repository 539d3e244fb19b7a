-- ===== src/Workload/Scheduler.antt =====
-- `ProcessScheduler` of crates/picloud-workload/src/implementation.rs: `schedule`, `stop`, `status` and
-- one round of the health check loop. Processes are the system's: what spawning one gives and what
-- `try_wait` reports are arguments. Signals and the stop of a container change no state here.
pub mod Entries
pub mod Stops
pub mod Counting
pub mod Restarts
use picloud.Prelude.{
  ℕ, ◌+◌, ◌%◌, ◌^◌, Bool, true, false, not, ◌&&◌, Option, none, some, List, [], ◌∷◌, ltb,
  if◌then◌else◌,
}
use picloud.Prelude.Equality.{nat_eq, list_eq}
use picloud.Prelude.HashMap
use picloud.Prelude.HashMap.{HashMap}
use picloud.Prelude.Texts.{Text}
use picloud.Domain.Error.{
  Result, ok, err, PiCloudError, Reason, resource_not_found, resource_already_exists,
  invalid_resource_limits,
}
use picloud.Domain.Events.{Uuid}
use picloud.Domain.Iri.{ResourceIri}
use picloud.Workload.Limits.{ResourceLimits, validate}
use picloud.Workload.Spec.{
  RestartPolicy, EnvValue, VolumeMount, BinarySpec, ContainerSpec, WorkloadSpec, resources_of,
  restart_policy_of, is_container, always, on_failure, never, literal, secret, binary, container,
}

pub data Failure : Type 0 where
  exited_with_error check_failed restart_failed policy_exhausted : Failure

pub data WorkloadStatus : Type 0 where
  running stopped : WorkloadStatus
  failed : Failure → WorkloadStatus

-- The handle of a child process is a number.
pub record WorkloadEntry : Type 0 where
  pub workload_iri : Text
  pub spec : WorkloadSpec
  pub status : WorkloadStatus
  pub node_id : Uuid
  pub pid : Option ℕ
  pub started_at : ℕ
  pub child : Option ℕ
  pub restart_count : ℕ
  pub explicitly_stopped : Bool
  pub in_container : Bool

abbrev pub Workloads : Type 0
Workloads = HashMap Text WorkloadEntry

-- What `try_wait` reports of a child: it exited, with success or not; it runs; or the call failed.
pub data Wait : Type 0 where
  exited : Bool → Wait
  alive : Wait
  wait_error : Wait

abbrev pub Observation : Type 0
Observation = ℕ → Wait

unfoldable pub should_restart : RestartPolicy → Bool → ℕ → Bool
should_restart always success restart_count = true
should_restart (on_failure max_retries) success restart_count =
    not success && ltb restart_count max_retries
should_restart never success restart_count = false

pub record WorkloadHandle : Type 0 where
  pub workload_iri : ResourceIri
  pub node_id : Uuid
  pub pid : Option ℕ

abbrev pub add_entry :
    ℕ
    → Uuid
    → ResourceIri
    → WorkloadSpec
    → Result (Option ℕ × ℕ)
    → Workloads
    → Result WorkloadHandle × Workloads
add_entry now node_id iri spec (err e) workloads = (err e, workloads)
add_entry now node_id iri spec (ok (child, pid)) workloads =
    let entry : WorkloadEntry = record {
      workload_iri = iri;
      spec = spec;
      status = running;
      node_id = node_id;
      pid = some pid;
      started_at = now;
      child = child;
      restart_count = 0;
      explicitly_stopped = false;
      in_container = is_container spec;
    } in
    (
      ok (record { workload_iri = iri; node_id = node_id; pid = some pid }),
      HashMap.insert workloads iri entry,
    )

abbrev pub is_nil : List Reason → Bool
is_nil [] = true
is_nil (e ∷ es) = false

-- `spawned` is what spawning the process of the workload gives: the child and its process id.
unfoldable pub schedule :
    ℕ
    → Uuid
    → ResourceIri
    → WorkloadSpec
    → Result (Option ℕ × ℕ)
    → Workloads
    → Result WorkloadHandle × Workloads
unfolding validate
schedule now node_id iri spec spawned workloads =
    let violations = validate (resources_of spec) in
    if not (is_nil violations)
    then (err (invalid_resource_limits violations), workloads)
    else if HashMap.contains_key workloads iri
    then (err (resource_already_exists iri), workloads)
    else add_entry now node_id iri spec spawned workloads

abbrev pub stop_entry :
    ResourceIri → Option WorkloadEntry → Workloads → Result (Unit {0}) × Workloads
stop_entry iri none workloads = (err (resource_not_found iri), workloads)
stop_entry iri (some entry) workloads = (
  ok tt,
  HashMap.insert workloads iri (record entry { status = stopped; explicitly_stopped = true }),
)

unfoldable pub stop : ResourceIri → Workloads → Result (Unit {0}) × Workloads
stop iri workloads = stop_entry iri (HashMap.get workloads iri) workloads

abbrev pub is_running : WorkloadStatus → Bool
is_running running = true
is_running stopped = false
is_running (failed f) = false

abbrev status_after : Wait → WorkloadStatus → WorkloadStatus
status_after (exited true) s = stopped
status_after (exited false) s = failed exited_with_error
status_after alive s = s
status_after wait_error s = failed check_failed

abbrev pub polled_status : Observation → Option ℕ → WorkloadStatus → WorkloadStatus
polled_status observe none s = s
polled_status observe (some child) s = if is_running s then status_after (observe child) s else s

abbrev pub status_entry :
    Observation → ResourceIri → Option WorkloadEntry → Workloads → Result WorkloadStatus × Workloads
status_entry observe iri none workloads = (err (resource_not_found iri), workloads)
status_entry observe iri (some entry) workloads =
    let s = polled_status observe entry.child entry.status in
    (ok s, HashMap.insert workloads iri (record entry { status = s }))

unfoldable pub status : Observation → ResourceIri → Workloads → Result WorkloadStatus × Workloads
status observe iri workloads = status_entry observe iri (HashMap.get workloads iri) workloads

abbrev pub exit_with : Wait → Option Bool
exit_with (exited success) = some success
exit_with alive = none
exit_with wait_error = some false

-- Whether the child has exited, and how.
abbrev pub exit_of : Observation → Option ℕ → Option Bool
exit_of observe none = none
exit_of observe (some child) = exit_with (observe child)

-- A `u32` that is incremented.
abbrev pub increment : ℕ → ℕ
increment n = (n + 1) % 2 ^ 32

abbrev pub restarted_with : Result (ℕ × ℕ) → WorkloadEntry → WorkloadEntry
restarted_with (err e) entry = record entry { status = failed restart_failed }
restarted_with (ok (child, pid)) entry = record entry {
  child = some child;
  pid = some pid;
  status = running;
  restart_count = increment entry.restart_count;
}

-- What spawning the binary again gives is the argument; a container is only counted.
abbrev pub restart : (BinarySpec → Result (ℕ × ℕ)) → WorkloadSpec → WorkloadEntry → WorkloadEntry
restart spawn (binary spec) entry = restarted_with (spawn spec) entry
restart spawn (container spec) entry = record entry {
  status = running;
  restart_count = increment entry.restart_count;
}

abbrev pub give_up : Bool → WorkloadEntry → WorkloadEntry
give_up true entry = record entry { status = stopped }
give_up false entry = record entry { status = failed policy_exhausted }

abbrev pub after_exit : (BinarySpec → Result (ℕ × ℕ)) → Option Bool → WorkloadEntry → WorkloadEntry
after_exit spawn none entry = entry
after_exit spawn (some success) entry =
    if should_restart (restart_policy_of entry.spec) success entry.restart_count
    then restart spawn entry.spec entry
    else give_up success entry

unfoldable pub check_entry :
    Observation → (BinarySpec → Result (ℕ × ℕ)) → WorkloadEntry → WorkloadEntry
unfolding should_restart
check_entry observe spawn entry =
    if not (is_running entry.status)
    then entry
    else if entry.explicitly_stopped
    then entry
    else after_exit spawn (exit_of observe entry.child) entry

-- One round of the loop, over every key.
unfoldable pub health_check : Observation → (BinarySpec → Result (ℕ × ℕ)) → Workloads → Workloads
unfolding check_entry
health_check observe spawn [] = []
health_check observe spawn ((iri, entry) ∷ workloads) =
    (iri, check_entry observe spawn entry) ∷ health_check observe spawn workloads
