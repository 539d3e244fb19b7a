-- ===== src/Workload/Scheduler/Entries.antt =====
-- The calls on the scheduler as data, and what any sequence of them keeps.
use picloud.Prelude.{
  ℕ, ◌≡◌, refl, sym, ap, ◌∙◌, subst, inl, inr, true, false, Option, none, some, List, [], ◌∷◌, ◌==◌,
  arith, ==_iff, Bool-cases,
}
use picloud.Prelude.Equality.{nat_eq, list_eq}
use picloud.Prelude.HashMap
use picloud.Prelude.HashMap.{HashMap, get-insert, contains_key_of_get}
use picloud.Prelude.Texts.{Text}
use picloud.Domain.Error.{Result, ok, err}
use picloud.Domain.Events.{Uuid}
use picloud.Domain.Iri.{ResourceIri}
use picloud.Workload.Spec.{BinarySpec, WorkloadSpec, is_container}
use picloud.Workload.Scheduler.{
  running, stopped, WorkloadEntry, Workloads, Observation, schedule, stop_entry, stop,
  polled_status, status_entry, status, check_entry, health_check,
}

pub data Call : Type 0 where
  schedule_call : ℕ → Uuid → ResourceIri → WorkloadSpec → Result (Option ℕ × ℕ) → Call
  stop_call : ResourceIri → Call
  status_call : Observation → ResourceIri → Call
  health_round : Observation → (BinarySpec → Result (ℕ × ℕ)) → Call

abbrev pub run_call : Call → Workloads → Workloads
run_call (schedule_call now node_id iri spec spawned) m =
    (schedule now node_id iri spec spawned m).1
run_call (stop_call iri) m = (stop iri m).1
run_call (status_call observe iri) m = (status observe iri m).1
run_call (health_round observe spawn) m = health_check observe spawn m

abbrev pub run : List Call → Workloads → Workloads
run [] m = m
run (call ∷ calls) m = run calls (run_call call m)

abbrev pub map_entry : (WorkloadEntry → WorkloadEntry) → Option WorkloadEntry → Option WorkloadEntry
map_entry f none = none
map_entry f (some e) = some (f e)

pub get-health_check :
    (observe : Observation) (spawn : BinarySpec → Result (ℕ × ℕ)) (m : Workloads) (k : Text)
    → HashMap.get (health_check observe spawn m) k
      ≡ map_entry (check_entry observe spawn) (HashMap.get m k)
unfolding health_check HashMap.get
get-health_check observe spawn [] k = refl
get-health_check observe spawn ((j, e) ∷ m) k = ground (arith, get-health_check observe spawn m k)

some_eq : (e d : WorkloadEntry) → some e ≡ some d → e ≡ d
some_eq e d h = cc

-- Scheduling changes no entry that is there.
pub get-schedule :
    (now : ℕ) (node_id : Uuid) (iri : ResourceIri) (spec : WorkloadSpec)
    → (spawned : Result (Option ℕ × ℕ)) (m : Workloads) (k : Text) (e : WorkloadEntry)
    → HashMap.get m k ≡ some e
    → HashMap.get (schedule now node_id iri spec spawned m).1 k ≡ some e
unfolding schedule
get-schedule now node_id iri spec (err x) m k e found = ground (arith, found)
get-schedule now node_id iri spec (ok (child, pid)) m k e found = ground (
  arith,
  found,
  ==_iff iri k,
  contains_key_of_get m k e found,
  get-insert m iri k (record {
    workload_iri = iri;
    spec = spec;
    status = running;
    node_id = node_id;
    pid = some pid;
    started_at = now;
    child = child;
    restart_count = 0;
    explicitly_stopped = false;
    in_container = is_container spec;
  }),
)

-- What a call does to the entry of a key: nothing, a stop, a poll or a check; or it adds one.
module _ {ℓ} (P : WorkloadEntry → Type ℓ)
    (at_stop : (e : WorkloadEntry)
      → P e
      → P (record e { status = stopped; explicitly_stopped = true }))
    (at_status : (observe : Observation) (e : WorkloadEntry)
      → P e
      → P (record e { status = polled_status observe e.child e.status })) where
  -- The key has an entry, and it satisfies `P`.
  abbrev pub Has : Text → Workloads → Type ℓ
  Has k m = (e : WorkloadEntry) × (HashMap.get m k ≡ some e) × P e

  insert-Has :
      (k j : Text) (m : Workloads) (e d : WorkloadEntry)
      → HashMap.get m k ≡ some e
      → P e
      → (j ≡ k → P d)
      → Has k (HashMap.insert m j d)
  insert-Has k j m e d found p q = elim (Bool-cases (j == k)) [
    | inl same ↦ (d, get-insert m j k d ∙ ground (arith, same), q ((==_iff j k).0 same))
    | inr other ↦ (e, get-insert m j k d ∙ ground (arith, other, found), p)
  ]

  -- The entry at `j` is the one at `k`, where the keys are the same.
  same_entry :
      (k j : Text) (m : Workloads) (e d : WorkloadEntry)
      → HashMap.get m k ≡ some e
      → HashMap.get m j ≡ some d
      → P e
      → j ≡ k
      → P d
  same_entry k j m e d found at p same =
      subst P (some_eq e d (sym found ∙ ap (HashMap.get m) (sym same) ∙ at)) p

  pub stop_entry-Has :
      (k iri : Text) (m : Workloads) (e : WorkloadEntry) (o : Option WorkloadEntry)
      → HashMap.get m iri ≡ o
      → HashMap.get m k ≡ some e
      → P e
      → Has k (stop_entry iri o m).1
  stop_entry-Has k iri m e none at found p = (e, found, p)
  stop_entry-Has k iri m e (some d) at found p =
      insert-Has k iri m e (record d { status = stopped; explicitly_stopped = true }) found p
        (λ same. at_stop d (same_entry k iri m e d found at p same))

  pub status_entry-Has :
      (observe : Observation) (k iri : Text) (m : Workloads) (e : WorkloadEntry)
      → (o : Option WorkloadEntry) → HashMap.get m iri ≡ o
      → HashMap.get m k ≡ some e
      → P e
      → Has k (status_entry observe iri o m).1
  status_entry-Has observe k iri m e none at found p = (e, found, p)
  status_entry-Has observe k iri m e (some d) at found p =
      insert-Has k iri m e (record d { status = polled_status observe d.child d.status }) found p
        (λ same. at_status observe d (same_entry k iri m e d found at p same))

  module _
      (at_check : (observe : Observation) (spawn : BinarySpec → Result (ℕ × ℕ)) (e : WorkloadEntry)
        → P e
        → P (check_entry observe spawn e)) where
    run_call-Has : (call : Call) (k : Text) (m : Workloads) → Has k m → Has k (run_call call m)
    unfolding stop status
    run_call-Has (schedule_call now node_id iri spec spawned) k m (e, found, p) =
        (e, get-schedule now node_id iri spec spawned m k e found, p)
    run_call-Has (stop_call iri) k m (e, found, p) =
        stop_entry-Has k iri m e (HashMap.get m iri) refl found p
    run_call-Has (status_call observe iri) k m (e, found, p) =
        status_entry-Has observe k iri m e (HashMap.get m iri) refl found p
    run_call-Has (health_round observe spawn) k m (e, found, p) = (
      check_entry observe spawn e,
      get-health_check observe spawn m k ∙ ap (map_entry (check_entry observe spawn)) found,
      at_check observe spawn e p,
    )

    pub run-Has : (calls : List Call) (k : Text) (m : Workloads) → Has k m → Has k (run calls m)
    run-Has [] k m h = h
    run-Has (call ∷ calls) k m h = run-Has calls k (run_call call m) (run_call-Has call k m h)
