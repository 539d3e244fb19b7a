-- ===== src/Workload/Scheduler/Counting.antt =====
-- How often the health check restarts a workload, and that the entry of the workload counts it.
use picloud.Prelude.{
  ℕ, ◌+◌, ◌≤◌, ◌<◌, ◌^◌, ◌≡◌, refl, sym, ap, ◌∙◌, subst, inl, inr, Bool, true, false, not, ◌&&◌,
  Option, none, some, List, [], ◌∷◌, if◌then◌else◌, arith, Bool-cases,
}
use picloud.Prelude.Equality.{nat_eq, list_eq}
use picloud.Prelude.HashMap
use picloud.Prelude.HashMap.{HashMap}
use picloud.Prelude.Texts.{Text}
use picloud.Domain.Error.{Result, ok, err}
use picloud.Workload.Spec.{
  RestartPolicy, always, on_failure, never, BinarySpec, WorkloadSpec, binary, container,
  restart_policy_of,
}
use picloud.Workload.Scheduler.{
  Wait, exited, alive, wait_error, WorkloadEntry, Workloads, Observation, should_restart,
  is_running, exit_with, exit_of, restarted_with, restart, give_up, after_exit, check_entry,
  increment, schedule, stop, status,
}
use picloud.Workload.Scheduler.Entries.{
  Call, schedule_call, stop_call, status_call, health_round, run_call, run, Has, map_entry,
  get-health_check, get-schedule, stop_entry-Has, status_entry-Has,
}
use picloud.Workload.Scheduler.Stops.{check_rest}

abbrev ended : Wait → Bool
ended (exited success) = true
ended alive = false
ended wait_error = true

abbrev has_exited : Observation → Option ℕ → Bool
has_exited observe none = false
has_exited observe (some child) = ended (observe child)

abbrev tick : Bool → ℕ
tick b = if b then 1 else 0

-- A round of the health check restarts a workload where its child has exited, nobody stopped it, and it
-- runs before the round and after it.
abbrev restarts_at : Observation → (BinarySpec → Result (ℕ × ℕ)) → WorkloadEntry → ℕ
restarts_at observe spawn e =
    if is_running e.status && not e.explicitly_stopped
    then tick (has_exited observe e.child && is_running (check_entry observe spawn e).status)
    else 0

abbrev restarts_of : Observation → (BinarySpec → Result (ℕ × ℕ)) → Option WorkloadEntry → ℕ
restarts_of observe spawn none = 0
restarts_of observe spawn (some e) = restarts_at observe spawn e

abbrev restarts_by : Text → Call → Workloads → ℕ
restarts_by k (health_round observe spawn) m = restarts_of observe spawn (HashMap.get m k)
restarts_by k (schedule_call now node_id iri spec spawned) m = 0
restarts_by k (stop_call iri) m = 0
restarts_by k (status_call observe iri) m = 0

-- The restarts of the workload of a key in a run of calls.
abbrev pub restarts_in : Text → List Call → Workloads → ℕ
restarts_in k [] m = 0
restarts_in k (call ∷ calls) m = restarts_by k call m + restarts_in k calls (run_call call m)

-- The retries that a policy names are a `u32`.
abbrev pub Fits : RestartPolicy → Type 0
Fits always = Unit
Fits (on_failure max_retries) = max_retries < 2 ^ 32
Fits never = Unit

-- After `n` restarts the count of the entry is `c`.
abbrev pub Tally : RestartPolicy → ℕ → ℕ → Type 0
Tally always n c = Unit
Tally (on_failure max_retries) n c = (n ≡ c) × (c ≤ max_retries)
Tally never n c = (n ≡ 0) × (c ≡ 0)

increment-Tally :
    (policy : RestartPolicy) (success : Bool) (n c : ℕ)
    → Fits policy
    → should_restart policy success c ≡ true
    → Tally policy n c
    → Tally policy (n + 1) (increment c)
unfolding should_restart
increment-Tally always success n c f h t = tt
increment-Tally (on_failure k) success n c f h t =
    let below : c < k = ground arith in (omega (arith, below, t), omega (arith, below))
increment-Tally never success n c f h t = absurd (ground arith)

module _ (spec : WorkloadSpec) (fits : Fits (restart_policy_of spec)) where
  abbrev pub Counted : ℕ → WorkloadEntry → Type 0
  Counted n e = (e.spec ≡ spec) × Tally (restart_policy_of spec) n e.restart_count

  Counted-eq : (n l : ℕ) (e : WorkloadEntry) → n ≡ l → Counted n e → Counted l e
  Counted-eq n l e h p = subst (λ x. Counted x e) h p

  -- A step after `n` restarts, which is one more where the workload runs after it.
  abbrev Stepped : ℕ → WorkloadEntry → Type 0
  Stepped n e = Counted (n + tick (is_running e.status)) e

  restarted-Stepped :
      (success : Bool) (r : Result (ℕ × ℕ)) (n : ℕ) (e : WorkloadEntry)
      → should_restart (restart_policy_of spec) success e.restart_count ≡ true
      → Counted n e
      → Stepped n (restarted_with r e)
  restarted-Stepped success (err x) n e h p =
      Counted-eq n (n + 0) (restarted_with (err x) e) (omega arith) p
  restarted-Stepped success (ok (child, pid)) n e h p =
      (p.0, increment-Tally (restart_policy_of spec) success n e.restart_count fits h p.1)

  restart-Stepped :
      (sp : WorkloadSpec) (spawn : BinarySpec → Result (ℕ × ℕ)) (success : Bool) (n : ℕ)
      → (e : WorkloadEntry) → should_restart (restart_policy_of spec) success e.restart_count ≡ true
      → Counted n e
      → Stepped n (restart spawn sp e)
  restart-Stepped (binary s) spawn success n e h p = restarted-Stepped success (spawn s) n e h p
  restart-Stepped (container s) spawn success n e h p =
      (p.0, increment-Tally (restart_policy_of spec) success n e.restart_count fits h p.1)

  give_up-Stepped :
      (success : Bool) (n : ℕ) (e : WorkloadEntry) → Counted n e → Stepped n (give_up success e)
  give_up-Stepped true n e p = Counted-eq n (n + 0) (give_up true e) (omega arith) p
  give_up-Stepped false n e p = Counted-eq n (n + 0) (give_up false e) (omega arith) p

  exited-Stepped :
      (spawn : BinarySpec → Result (ℕ × ℕ)) (success : Bool) (n : ℕ) (e : WorkloadEntry)
      → Counted n e
      → Stepped n (after_exit spawn (some success) e)
  exited-Stepped spawn success n e p =
      elim (Bool-cases (should_restart (restart_policy_of e.spec) success e.restart_count)) [
        | inl yes_again ↦
            subst (Stepped n)
              (sym (ap (λ b. if b then restart spawn e.spec e else give_up success e) yes_again))
              (restart-Stepped e.spec spawn success n e
                (ap (λ s. should_restart (restart_policy_of s) success e.restart_count) (sym p.0)
                  ∙ yes_again)
                p)
        | inr no_more ↦
            subst (Stepped n)
              (sym (ap (λ b. if b then restart spawn e.spec e else give_up success e) no_more))
              (give_up-Stepped success n e p)
      ]

  reported-Counted :
      (spawn : BinarySpec → Result (ℕ × ℕ)) (w : Wait) (n : ℕ) (e : WorkloadEntry)
      → Counted n e
      → let d = after_exit spawn (exit_with w) e in
        Counted (n + tick (ended w && is_running d.status)) d
  reported-Counted spawn (exited success) n e p = exited-Stepped spawn success n e p
  reported-Counted spawn alive n e p = Counted-eq n (n + 0) e (omega arith) p
  reported-Counted spawn wait_error n e p = exited-Stepped spawn false n e p

  -- What the child reports, and the count of the step that follows.
  wait-Counted :
      (observe : Observation) (spawn : BinarySpec → Result (ℕ × ℕ)) (o : Option ℕ) (n : ℕ)
      → (e : WorkloadEntry) → Counted n e
      → let d = after_exit spawn (exit_of observe o) e in
        Counted (n + tick (has_exited observe o && is_running d.status)) d
  wait-Counted observe spawn none n e p = Counted-eq n (n + 0) e (omega arith) p
  wait-Counted observe spawn (some child) n e p = reported-Counted spawn (observe child) n e p

  check_entry-Counted :
      (observe : Observation) (spawn : BinarySpec → Result (ℕ × ℕ)) (n : ℕ) (e : WorkloadEntry)
      → Counted n e
      → Counted (n + restarts_at observe spawn e) (check_entry observe spawn e)
  unfolding check_entry
  check_entry-Counted observe spawn n e p = elim (Bool-cases (is_running e.status)) [
    | inr r ↦
        let none_now : n ≡ n + restarts_at observe spawn e = ground (arith, r) in
        subst (Counted (n + restarts_at observe spawn e)) (sym (check_rest observe spawn e r))
          (Counted-eq n (n + restarts_at observe spawn e) e none_now p)
    | inl r ↦ elim (Bool-cases e.explicitly_stopped) [
      | inl s ↦
          let none_now : n ≡ n + restarts_at observe spawn e = ground (arith, r, s) in
          let same : e ≡ check_entry observe spawn e = ground (arith, r, s) in
          subst (Counted (n + restarts_at observe spawn e)) same
            (Counted-eq n (n + restarts_at observe spawn e) e none_now p)
      | inr s ↦
          let same : after_exit spawn (exit_of observe e.child) e ≡ check_entry observe spawn e =
            ground (arith, r, s) in
          let one_now : n
                + tick
                    (has_exited observe e.child && is_running (check_entry observe spawn e).status)
              ≡ n + restarts_at observe spawn e =
            ground (arith, r, s) in
          Counted-eq _ (n + restarts_at observe spawn e) (check_entry observe spawn e) one_now (
            subst (λ d. Counted (n + tick (has_exited observe e.child && is_running d.status)) d)
              same (wait-Counted observe spawn e.child n e p))
    ]
  ]

  abbrev pub HasCounted : ℕ → Text → Workloads → Type 0
  HasCounted n k m = Has (Counted n) (λ e p. p) (λ observe e p. p) k m

  HasCounted-eq : (n l : ℕ) (k : Text) (m : Workloads) → n ≡ l → HasCounted n k m → HasCounted l k m
  HasCounted-eq n l k m h p = subst (λ x. HasCounted x k m) h p

  call-Counted :
      (call : Call) (k : Text) (n : ℕ) (m : Workloads)
      → HasCounted n k m
      → HasCounted (n + restarts_by k call m) k (run_call call m)
  unfolding stop status
  call-Counted (schedule_call now node_id iri sp spawned) k n m (e, found, p) =
      HasCounted-eq n (n + 0) k (schedule now node_id iri sp spawned m).1 (omega arith)
        (e, get-schedule now node_id iri sp spawned m k e found, p)
  call-Counted (stop_call iri) k n m (e, found, p) =
      HasCounted-eq n (n + 0) k (stop iri m).1 (omega arith) (
        stop_entry-Has (Counted n) (λ x q. q) (λ o x q. q) k iri m e (HashMap.get m iri) refl found
          p)
  call-Counted (status_call observe iri) k n m (e, found, p) =
      HasCounted-eq n (n + 0) k (status observe iri m).1 (omega arith) (
        status_entry-Has (Counted n) (λ x q. q) (λ o x q. q) observe k iri m e (HashMap.get m iri)
          refl found p)
  call-Counted (health_round observe spawn) k n m (e, found, p) = (
    check_entry observe spawn e,
    get-health_check observe spawn m k ∙ ap (map_entry (check_entry observe spawn)) found,
    Counted-eq (n + restarts_at observe spawn e) (n + restarts_of observe spawn (HashMap.get m k))
        (check_entry observe spawn e) (ap (λ o. n + restarts_of observe spawn o) (sym found))
        (check_entry-Counted observe spawn n e p),
  )

  pub run-Counted :
      (calls : List Call) (k : Text) (n : ℕ) (m : Workloads)
      → HasCounted n k m
      → HasCounted (n + restarts_in k calls m) k (run calls m)
  run-Counted [] k n m h = HasCounted-eq n (n + 0) k m (omega arith) h
  run-Counted (call ∷ calls) k n m h =
      HasCounted-eq (n + restarts_by k call m + restarts_in k calls (run_call call m))
        (n + (restarts_by k call m + restarts_in k calls (run_call call m))) k
        (run calls (run_call call m)) (omega arith)
        (run-Counted calls k (n + restarts_by k call m) (run_call call m)
          (call-Counted call k n m h))
