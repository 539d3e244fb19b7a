-- ===== src/Storage/Snapshots/Scheduling.antt =====
-- When the scheduler takes a snapshot.
use picloud.Prelude.{
  ℕ, ◌+◌, ◌<◌, ◌≡◌, refl, sym, ap, ◌∙◌, inl, inr, true, false, none, some, arith, not-leb,
  Bool-cases,
}
use picloud.Prelude.Equality.{nat_eq, list_eq}
use picloud.Prelude.HashMap
use picloud.Prelude.HashMap.{HashMap, get-insert_self}
use picloud.Prelude.Texts.{Text}
use picloud.Domain.Error.{Result, ok, err}
use picloud.Domain.Iri.{ResourceIri}
use picloud.Storage.Snapshots.{
  VolumeDir, SnapshotInfo, SnapshotConfig, SnapshotScheduler, interval_of, is_due, last_or_listed,
  retained, after_snapshot, create_snapshot_at, enforce_retention, run_once,
}

retained-last_run :
    (info found : SnapshotInfo) (last_run : HashMap Text ℕ) (r : Result ℕ × VolumeDir)
    → (retained info last_run r).0 ≡ ok (some found)
    → ((retained info last_run r).1.last_run ≡ last_run) × (info ≡ found)
retained-last_run info found last_run (err e, d) h = absurd (ground arith)
retained-last_run info found last_run (ok n, d) h = (refl, ground arith)

after_snapshot-last_run :
    (iri : ResourceIri) (config : SnapshotConfig) (last_run : HashMap Text ℕ) (found : SnapshotInfo)
    → (r : Result SnapshotInfo × VolumeDir)
    → (after_snapshot iri config last_run r).0 ≡ ok (some found)
    → HashMap.get (after_snapshot iri config last_run r).1.last_run iri ≡ some found.created_at
after_snapshot-last_run iri config last_run found (err e, d) h = absurd (ground arith)
after_snapshot-last_run iri config last_run found (ok info, d) h =
    let (kept, same) =
      retained-last_run info found (HashMap.insert last_run iri info.created_at)
        (enforce_retention iri config.retention d) h in
    ap (λ m. HashMap.get m iri) kept
    ∙ get-insert_self last_run iri info.created_at
    ∙ ap (λ (i : SnapshotInfo). some i.created_at) same

taken :
    (iri : ResourceIri) (config : SnapshotConfig) (now : ℕ) (s : SnapshotScheduler)
    → (found : SnapshotInfo) → (run_once iri config now s).0 ≡ ok (some found)
    → run_once iri config now s
      ≡ after_snapshot iri config s.last_run (create_snapshot_at iri now s.directory)
unfolding run_once
taken iri config now s found h = elim (Bool-cases config.enabled) [
  | inr off ↦ absurd (ground (arith, off))
  | inl on ↦
      elim (Bool-cases
        (is_due config.schedule (last_or_listed (HashMap.get s.last_run iri) s.directory) now)) [
          | inr early ↦ absurd (ground (arith, on, early))
          | inl due ↦ ground (arith, on, due)
        ]
]

only_enabled :
    (iri : ResourceIri) (config : SnapshotConfig) (now : ℕ) (s : SnapshotScheduler)
    → (found : SnapshotInfo) → (run_once iri config now s).0 ≡ ok (some found)
    → config.enabled ≡ true
unfolding run_once
only_enabled iri config now s found h = elim (Bool-cases config.enabled) [
  | inl on ↦ on
  | inr off ↦ absurd (ground (arith, off))
]

not_due :
    (iri : ResourceIri) (config : SnapshotConfig) (now : ℕ) (s : SnapshotScheduler)
    → is_due config.schedule (last_or_listed (HashMap.get s.last_run iri) s.directory) now ≡ false
    → run_once iri config now s ≡ (ok none, s)
unfolding run_once
not_due iri config now s early = ground (arith, early)

-- Snapshots keep their distance: after a run that took one, every run for that volume before the
-- interval of the schedule has passed, counted from the time of the snapshot, takes none and changes
-- nothing; and a run that takes one is of a schedule that is switched on.
run_once_spacing :
    (iri : ResourceIri) (config : SnapshotConfig) (now : ℕ) (s : SnapshotScheduler)
    → (found : SnapshotInfo) → (run_once iri config now s).0 ≡ ok (some found)
    → let after = (run_once iri config now s).1 in
      (config.enabled ≡ true)
      × ((later : ℕ)
          → later < found.created_at + interval_of config.schedule
          → run_once iri config later after ≡ (ok none, after))
unfolding is_due
run_once_spacing iri config now s found h =
    let after = (run_once iri config now s).1 in
    let e = taken iri config now s found h in
    let last : HashMap.get after.last_run iri ≡ some found.created_at =
      ap (λ x. HashMap.get x.1.last_run iri) e
      ∙ after_snapshot-last_run iri config s.last_run found (create_snapshot_at iri now s.directory)
          (ap (λ x. x.0) (sym e) ∙ h) in
    (
      only_enabled iri config now s found h,
      λ later early.
          let due : is_due config.schedule
                (last_or_listed (HashMap.get after.last_run iri) after.directory) later
              ≡ false =
            ap (λ o. is_due config.schedule (last_or_listed o after.directory) later) last
            ∙ not-leb (found.created_at + interval_of config.schedule) later early in
          not_due iri config later after due,
    )
