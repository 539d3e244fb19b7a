-- ===== src/Workload/Drain/Migrations.antt =====
-- What the migration loop of a drain does: which workloads it moves, and to which node.
use picloud.Prelude.{
  ℕ, zero, suc, ◌+◌, ◌%◌, ◌≤◌, ◌<◌, ◌≡◌, refl, sym, ap, ◌∙◌, inl, inr, Bool, true, false, List, [],
  ◌∷◌, ◌++◌, length, if◌then◌else◌, ◌==◌, contains, arith, ==_iff, ltb, take, Bool-cases,
  append_assoc, append-nil,
}
use picloud.Prelude.Equality.{nat_eq}
use mathlib.Core.Bool.{false≢true}
use picloud.Prelude.HashMap
use picloud.Prelude.HashMap.{HashMap, get-insert, get-remove}
use picloud.Domain.Events.{Uuid}
use picloud.Workload.Drain.{
  NodeWorkloadInfo, InMemoryDrainCoordinator, workloads_or_default, workloads_of, register_workload,
  nth, target_of, migrate_one, migrate, is_nil,
}

-- The workloads that the loop comes to before the deadline.
abbrev pub until : (ℕ → Bool) → ℕ → List NodeWorkloadInfo → List NodeWorkloadInfo
until late i [] = []
until late i (w ∷ ws) = let rest = until late (i + 1) ws in if late i then [] else w ∷ rest

-- Those that fall to a node, round robin.
abbrev pub share : Uuid → List Uuid → ℕ → List NodeWorkloadInfo → List NodeWorkloadInfo
share j targets i [] = []
share j targets i (w ∷ ws) =
    let rest = share j targets (i + 1) ws in if target_of targets i == j then w ∷ rest else rest

workloads_of-register :
    (t j : Uuid) (w : NodeWorkloadInfo) (c : InMemoryDrainCoordinator)
    → workloads_of j (register_workload t w c) ≡ workloads_of j c ++ (if t == j then w ∷ [] else [])
unfolding register_workload workloads_of
workloads_of-register t j w c = elim (Bool-cases (t == j)) [
  | inl same ↦
      ap workloads_or_default (get-insert c.node_workloads t j _) ∙ ground (arith, same, ==_iff t j)
  | inr other ↦
      ap workloads_or_default (get-insert c.node_workloads t j _)
      ∙ ground (arith, other, append-nil (workloads_or_default (HashMap.get c.node_workloads j)))
]

-- What the loop from `i` on has done.
pub record Migrated (targets : List Uuid) (late : ℕ → Bool) (i : ℕ) (ws : List NodeWorkloadInfo)
    (c : InMemoryDrainCoordinator) (r : ℕ × Bool × InMemoryDrainCoordinator) : Type 0 where
  pub count : r.0 ≡ i + length (until late i ws)
  pub expired : r.1 ≡ ltb (length (until late i ws)) (length ws)
  pub placed :
      (j : Uuid) → workloads_of j r.2 ≡ workloads_of j c ++ share j targets i (until late i ws)
  pub states : r.2.drain_states ≡ c.drain_states

pub migrate-Migrated :
    (node_id : Uuid) (targets : List Uuid) (late : ℕ → Bool) (i : ℕ) (ws : List NodeWorkloadInfo)
    → (c : InMemoryDrainCoordinator)
    → Migrated targets late i ws c (migrate node_id targets late i ws c)
unfolding migrate
migrate-Migrated node_id targets late i [] c = record {
  count = omega arith;
  expired = refl;
  placed = λ j. sym (append-nil (workloads_of j c));
  states = refl;
}
migrate-Migrated node_id targets late i (w ∷ ws) c = elim (Bool-cases (late i)) [
  | inl stop ↦ record {
    count = ground (arith, stop);
    expired = ground (arith, stop);
    placed = λ j. ground (arith, stop, append-nil (workloads_of j c));
    states = ground (arith, stop);
  }
  | inr go ↦
      let d = migrate_one node_id (target_of targets i) w c in
      let ih = migrate-Migrated node_id targets late (i + 1) ws d in
      record {
        count = ground (arith, go, ih.count);
        expired = ground (arith, go, ih.expired);
        placed = λ j. ground (
          arith,
          go,
          ih.placed j,
          workloads_of-register (target_of targets i) j w c,
          append_assoc (workloads_of j c) (if target_of targets i == j then w ∷ [] else [])
              (share j targets (i + 1) (until late (i + 1) ws)),
        );
        states = ground (arith, go, ih.states);
      }
]

pub until_all :
    (late : ℕ → Bool) (i : ℕ) (ws : List NodeWorkloadInfo)
    → ((k : ℕ) → late k ≡ false)
    → until late i ws ≡ ws
until_all late i [] h = refl
until_all late i (w ∷ ws) h = ground (arith, h i, until_all late (i + 1) ws h)

pub until-take :
    (late : ℕ → Bool) (i k : ℕ) (ws : List NodeWorkloadInfo)
    → ((m : ℕ) → m < i + k → late m ≡ false)
    → late (i + k) ≡ true
    → k < length ws
    → until late i ws ≡ take k ws
until-take late i k [] h stop short = absurd (omega arith)
until-take late i zero (w ∷ ws) h stop short =
    let now : late i ≡ true = ap late (omega arith) ∙ stop in ground (arith, now)
until-take late i (suc k) (w ∷ ws) h stop short =
    let same : suc i + k ≡ i + suc k = omega arith in
    let more =
      until-take late (i + 1) k ws (λ m lt. h m (omega arith)) (ap late (omega arith) ∙ stop)
        (omega arith) in
    ground (arith, h i (omega arith), more)

pub length-take : (k : ℕ) (ws : List NodeWorkloadInfo) → k ≤ length ws → length (take k ws) ≡ k
length-take zero ws h = refl
length-take (suc k) [] h = absurd (omega arith)
length-take (suc k) (w ∷ ws) h = omega (arith, length-take k ws)

nth-contains :
    (targets : List Uuid) (i : ℕ) → i < length targets → contains targets (nth targets i) ≡ true
unfolding nth
nth-contains [] i h = absurd (omega arith)
nth-contains (t ∷ ts) zero h = ground (arith, ==_iff t t)
nth-contains (t ∷ ts) (suc i) h = ground (arith, nth-contains ts i)

target-ne :
    (targets : List Uuid) (node_id : Uuid) (i : ℕ)
    → is_nil targets ≡ false
    → contains targets node_id ≡ false
    → (target_of targets i == node_id) ≡ false
target-ne [] node_id i n h = absurd (ground arith)
target-ne (t ∷ ts) node_id i n h =
    let found = nth-contains (t ∷ ts) (i % length (t ∷ ts)) (grind arith) in
    elim (Bool-cases (target_of (t ∷ ts) i == node_id)) [
      | inr no_match ↦ no_match
      | inl same ↦
          let e : target_of (t ∷ ts) i ≡ node_id = (==_iff (target_of (t ∷ ts) i) node_id).0 same in
          absurd (false≢true (sym h ∙ ap (contains (t ∷ ts)) (sym e) ∙ found))
    ]

pub share_none :
    (node_id : Uuid) (targets : List Uuid) (i : ℕ) (ws : List NodeWorkloadInfo)
    → is_nil targets ≡ false
    → contains targets node_id ≡ false
    → share node_id targets i ws ≡ []
share_none node_id targets i [] n h = refl
share_none node_id targets i (w ∷ ws) n h =
    ground (arith, target-ne targets node_id i n h, share_none node_id targets (i + 1) ws n h)

pub share_self :
    (node_id j : Uuid) (i : ℕ) (ws : List NodeWorkloadInfo)
    → share j (node_id ∷ []) i ws ≡ (if node_id == j then ws else [])
unfolding nth
share_self node_id j i [] = ground arith
share_self node_id j i (w ∷ ws) =
    let at : i % 1 ≡ 0 = omega arith in ground (arith, at, share_self node_id j (i + 1) ws)
