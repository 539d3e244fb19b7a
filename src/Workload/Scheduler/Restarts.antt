-- ===== src/Workload/Scheduler/Restarts.antt =====
-- The limit of the restarts of a workload, under any sequence of calls.
use picloud.Prelude.{
  ℕ, ◌+◌, ◌≤◌, ◌≡◌, refl, sym, ap, ◌∙◌, subst, inl, inr, false, Option, some, List, arith, ==_iff,
  Bool-cases,
}
use picloud.Prelude.Equality.{nat_eq, list_eq}
use picloud.Prelude.HashMap
use picloud.Prelude.HashMap.{HashMap, get-insert, contains_key_of_get}
use picloud.Domain.Error.{Result, ok, err}
use picloud.Domain.Events.{Uuid}
use picloud.Domain.Iri.{ResourceIri}
use picloud.Workload.Limits.{validate}
use picloud.Workload.Spec.{
  RestartPolicy, always, on_failure, never, WorkloadSpec, resources_of, restart_policy_of,
  is_container,
}
use picloud.Workload.Scheduler.{
  running, WorkloadEntry, Workloads, WorkloadHandle, add_entry, is_nil, schedule,
}
use picloud.Workload.Scheduler.Entries.{Call, run}
use picloud.Workload.Scheduler.Counting.{Fits, Tally, restarts_in, run-Counted}

-- How often a policy allows restarts.
abbrev pub Within : RestartPolicy → ℕ → Type 0
Within always n = Unit
Within (on_failure max_retries) n = n ≤ max_retries
Within never n = n ≡ 0

added_ok :
    (now : ℕ) (node_id : Uuid) (iri : ResourceIri) (spec : WorkloadSpec)
    → (spawned : Result (Option ℕ × ℕ)) (m : Workloads) (h : WorkloadHandle)
    → (add_entry now node_id iri spec spawned m).0 ≡ ok h
    → (e : WorkloadEntry) × (HashMap.get (add_entry now node_id iri spec spawned m).1 iri ≡ some e)
      × (e.spec ≡ spec)
      × (e.restart_count ≡ 0)
added_ok now node_id iri spec (err x) m h done = absurd (ground arith)
added_ok now node_id iri spec (ok (child, pid)) m h done =
    let entry : WorkloadEntry = record {
      workload_iri = iri;
      spec = spec;
      status = running;
      node_id = node_id;
      pid = some pid;
      started_at = now;
      child = child;
      restart_count = 0;
      explicitly_stopped = false;
      in_container = is_container spec;
    } in
    (entry, get-insert m iri iri entry ∙ ground (arith, ==_iff iri iri), refl, refl)

schedule_ok :
    (now : ℕ) (node_id : Uuid) (iri : ResourceIri) (spec : WorkloadSpec)
    → (spawned : Result (Option ℕ × ℕ)) (m : Workloads) (h : WorkloadHandle)
    → (schedule now node_id iri spec spawned m).0 ≡ ok h
    → schedule now node_id iri spec spawned m ≡ add_entry now node_id iri spec spawned m
unfolding schedule
schedule_ok now node_id iri spec spawned m h done =
    elim (Bool-cases (is_nil (validate (resources_of spec)))) [
      | inr bad ↦ absurd (ground (arith, bad))
      | inl valid ↦ elim (Bool-cases (HashMap.contains_key m iri)) [
        | inl there ↦ absurd (ground (arith, valid, there))
        | inr new ↦ ground (arith, valid, new)
      ]
    ]

Tally-Within :
    (policy : RestartPolicy) (n c : ℕ) → Tally policy n c → Within policy n × Within policy c
Tally-Within always n c t = (tt, tt)
Tally-Within (on_failure k) n c t = (omega (arith, t), t.1)
Tally-Within never n c t = t

Tally-zero : (policy : RestartPolicy) → Tally policy 0 0
Tally-zero always = tt
Tally-zero (on_failure k) = (refl, omega arith)
Tally-zero never = (refl, refl)

-- The restarts of a workload never pass its policy, whose retries are a `u32`: after it was scheduled,
-- whatever calls follow, the rounds of the health check restart it at most as often as the policy
-- allows on failure, and never where the policy is never; and its entry has the specification that it
-- was scheduled with and a count within the policy too.
pub restarts_bounded :
    (now : ℕ) (node_id : Uuid) (iri : ResourceIri) (spec : WorkloadSpec)
    → (spawned : Result (Option ℕ × ℕ)) (m : Workloads) (h : WorkloadHandle) (calls : List Call)
    → Fits (restart_policy_of spec)
    → (schedule now node_id iri spec spawned m).0 ≡ ok h
    → let start = (schedule now node_id iri spec spawned m).1 in
      Within (restart_policy_of spec) (restarts_in iri calls start)
      × ((e : WorkloadEntry) × (HashMap.get (run calls start) iri ≡ some e)
          × (e.spec ≡ spec)
          × Within (restart_policy_of spec) e.restart_count)
restarts_bounded now node_id iri spec spawned m h calls fits done =
    let policy = restart_policy_of spec in
    let start = (schedule now node_id iri spec spawned m).1 in
    let added = schedule_ok now node_id iri spec spawned m h done in
    let (e, at, same, fresh) =
      added_ok now node_id iri spec spawned m h (ap (λ x. x.0) (sym added) ∙ done) in
    let none_yet : Tally policy 0 e.restart_count =
      subst (Tally policy 0) (sym fresh) (Tally-zero policy) in
    let (d, found, counted) =
      run-Counted spec fits calls iri 0 start
        (e, ap (λ x. HashMap.get x.1 iri) added ∙ at, (same, none_yet)) in
    let within = Tally-Within policy (0 + restarts_in iri calls start) d.restart_count counted.1 in
    (subst (Within policy) (omega arith) within.0, (d, found, counted.0, within.1))
