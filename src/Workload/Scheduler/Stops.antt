-- ===== src/Workload/Scheduler/Stops.antt =====
-- Stopped and exited workloads under any sequence of calls.
use picloud.Prelude.{
  ℕ, ◌≡◌, refl, ap, ◌∙◌, Bool, true, false, Option, none, some, List, [], if◌then◌else◌, arith,
  ==_iff,
}
use picloud.Prelude.Equality.{nat_eq, list_eq}
use picloud.Prelude.HashMap
use picloud.Prelude.HashMap.{HashMap, get-insert, contains_key_of_get}
use picloud.Domain.Error.{Result, ok, err, resource_already_exists}
use picloud.Domain.Events.{Uuid}
use picloud.Domain.Iri.{ResourceIri}
use picloud.Workload.Limits.{validate}
use picloud.Workload.Spec.{
  always, BinarySpec, WorkloadSpec, binary, resources_of, restart_policy_of,
}
use picloud.Workload.Scheduler.{
  WorkloadStatus, running, stopped, WorkloadEntry, Workloads, exited, Observation, should_restart,
  schedule, stop_entry, stop, is_running, polled_status, status_entry, status, exit_of,
  restarted_with, restart, give_up, after_exit, check_entry, health_check, increment,
}
use picloud.Workload.Scheduler.Entries.{Call, run, run-Has, map_entry, get-health_check}

-- A stopped workload, as `stop` leaves it.
abbrev pub IsSettled : WorkloadEntry → Type 0
IsSettled e = (e.status ≡ stopped) × (e.explicitly_stopped ≡ true)

abbrev Rests : WorkloadEntry → Type 0
Rests e = is_running e.status ≡ false

polled_rest :
    (observe : Observation) (o : Option ℕ) (s : WorkloadStatus)
    → is_running s ≡ false
    → polled_status observe o s ≡ s
polled_rest observe none s h = refl
polled_rest observe (some child) s h = ground (arith, h)

pub check_rest :
    (observe : Observation) (spawn : BinarySpec → Result (ℕ × ℕ)) (e : WorkloadEntry)
    → is_running e.status ≡ false
    → check_entry observe spawn e ≡ e
unfolding check_entry
check_rest observe spawn e h = ground (arith, h)

-- A stop is final: whatever calls follow, rounds of the health check and polls included, the workload
-- stays stopped and is never restarted; and its IRI cannot be scheduled again.
pub stop_is_final :
    (iri : ResourceIri) (m : Workloads) (e : WorkloadEntry) (calls : List Call)
    → HashMap.get m iri ≡ some e
    → let after = run calls (stop iri m).1 in
      ((d : WorkloadEntry) × (HashMap.get after iri ≡ some d) × IsSettled d)
      × ((now : ℕ) (node_id : Uuid) (spec : WorkloadSpec) (spawned : Result (Option ℕ × ℕ))
          → validate (resources_of spec) ≡ []
          → schedule now node_id iri spec spawned after
            ≡ (err (resource_already_exists iri), after))
unfolding stop schedule
stop_is_final iri m e calls found =
    let halted : WorkloadEntry = record e { status = stopped; explicitly_stopped = true } in
    let stored : HashMap.get (stop iri m).1 iri ≡ some halted =
      ap (λ o. HashMap.get (stop_entry iri o m).1 iri) found
      ∙ get-insert m iri iri halted
      ∙ ground (arith, ==_iff iri iri) in
    let (d, at, settled) =
      run-Has IsSettled (λ d p. (refl, refl))
        (λ observe d p. (polled_rest observe d.child d.status (ground (arith, p.0)) ∙ p.0, p.1))
        (λ observe spawn d p.
          let same = check_rest observe spawn d (ground (arith, p.0)) in
          (ap (λ x. x.status) same ∙ p.0, ap (λ x. x.explicitly_stopped) same ∙ p.1))
        calls iri (stop iri m).1 (halted, stored, (refl, refl)) in
    let after = run calls (stop iri m).1 in
    (
      (d, at, settled),
      λ now node_id spec spawned valid. ground (arith, valid, contains_key_of_get after iri d at),
    )

exit_rests :
    (observe : Observation) (e : WorkloadEntry) (child : ℕ) (success : Bool)
    → e.status ≡ running
    → e.child ≡ some child
    → observe child ≡ exited success
    → is_running (polled_status observe e.child e.status) ≡ false
exit_rests observe e child true hr hc ho = ground (arith, hr, hc, ho)
exit_rests observe e child false hr hc ho = ground (arith, hr, hc, ho)

restarted :
    (observe : Observation) (spawn : BinarySpec → Result (ℕ × ℕ)) (e : WorkloadEntry)
    → (s : BinarySpec) (child next pid : ℕ) (success : Bool) → e.spec ≡ binary s
    → s.restart_policy ≡ always
    → e.status ≡ running
    → e.explicitly_stopped ≡ false
    → e.child ≡ some child
    → observe child ≡ exited success
    → spawn s ≡ ok (next, pid)
    → check_entry observe spawn e ≡ record e {
      child = some next;
      pid = some pid;
      status = running;
      restart_count = increment e.restart_count;
    }
unfolding check_entry should_restart
restarted observe spawn e s child next pid success hs hp hr hx hc ho hn =
    let exit : exit_of observe e.child ≡ some success = ground (arith, hc, ho) in
    let again : should_restart (restart_policy_of e.spec) success e.restart_count ≡ true =
      ap (λ x. should_restart (restart_policy_of x) success e.restart_count) hs
      ∙ ap (λ x. should_restart x success e.restart_count) hp in
    let checked : check_entry observe spawn e ≡ after_exit spawn (exit_of observe e.child) e =
      ground (arith, hr, hx) in
    checked
    ∙ ap (λ o. after_exit spawn o e) exit
    ∙ ap (λ b. if b then restart spawn e.spec e else give_up success e) again
    ∙ ap (λ x. restart spawn x e) hs
    ∙ ap (λ r. restarted_with r e) hn

-- A poll of the status takes a restart away. Where the process of a binary that is always to be
-- restarted has exited, the next round of the health check restarts it, if it can be spawned; but where
-- its status is read first, it is not running after any further calls.
pub status_takes_restart :
    (observe : Observation) (spawn : BinarySpec → Result (ℕ × ℕ)) (iri : ResourceIri)
    → (m : Workloads) (e : WorkloadEntry) (s : BinarySpec) (child next pid : ℕ) (success : Bool)
    → (calls : List Call) → HashMap.get m iri ≡ some e
    → e.spec ≡ binary s
    → s.restart_policy ≡ always
    → e.status ≡ running
    → e.explicitly_stopped ≡ false
    → e.child ≡ some child
    → observe child ≡ exited success
    → spawn s ≡ ok (next, pid)
    → (HashMap.get (health_check observe spawn m) iri
        ≡ some (record e {
          child = some next;
          pid = some pid;
          status = running;
          restart_count = increment e.restart_count;
        }))
      × ((d : WorkloadEntry) × (HashMap.get (run calls (status observe iri m).1) iri ≡ some d)
          × (is_running d.status ≡ false))
unfolding status
status_takes_restart observe spawn iri m e s child next pid success calls found hs hp hr hx hc ho
      hn =
    let polled : WorkloadEntry = record e { status = polled_status observe e.child e.status } in
    let rests : is_running polled.status ≡ false = exit_rests observe e child success hr hc ho in
    let stored : HashMap.get (status observe iri m).1 iri ≡ some polled =
      ap (λ o. HashMap.get (status_entry observe iri o m).1 iri) found
      ∙ get-insert m iri iri polled
      ∙ ground (arith, ==_iff iri iri) in
    (
      get-health_check observe spawn m iri
          ∙ ap (map_entry (check_entry observe spawn)) found
          ∙ ap (λ x. some x)
              (restarted observe spawn e s child next pid success hs hp hr hx hc ho hn),
      run-Has Rests (λ d p. refl) (λ o d p. ap is_running (polled_rest o d.child d.status p) ∙ p)
          (λ o sp d p. ap (λ x. is_running x.status) (check_rest o sp d p) ∙ p) calls iri
          (status observe iri m).1 (polled, stored, rests),
    )
