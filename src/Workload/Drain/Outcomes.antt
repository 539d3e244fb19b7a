-- ===== src/Workload/Drain/Outcomes.antt =====
-- Where the workloads of a node are after a drain of it.
use picloud.Prelude.{
  ℕ, ◌<◌, ◌≡◌, refl, sym, ap, ◌∙◌, Bool, true, false, some, [], ◌∷◌, ◌++◌, length, take,
  if◌then◌else◌, ◌==◌, contains, arith, ==_iff, append-nil,
}
use picloud.Prelude.Equality.{nat_eq}
use picloud.Prelude.HashMap.{get-insert, get-remove}
use picloud.Domain.Events.{Uuid}
use picloud.Workload.Drain.{
  cordoned, draining, drained, InMemoryDrainCoordinator, set_state, workloads_or_default,
  workloads_of, drain_state, state_or_active, timed_out, migrate, finish, is_nil, drain,
}
use picloud.Workload.Drain.Dealing.{dealt, share-dealt}
use picloud.Workload.Drain.Migrations.{
  until, share, Migrated, migrate-Migrated, until_all, until-take, length-take, share_none,
  share_self,
}

module _ (node_id : Uuid) (late : ℕ → Bool) (c : InMemoryDrainCoordinator)
    (some_target : is_nil c.available_nodes ≡ false) where
  drain-finish :
      drain node_id late c
      ≡ finish node_id (length (workloads_of node_id c)) (
          migrate node_id c.available_nodes late 0
            (workloads_of node_id c)
            (set_state node_id draining c))
  unfolding drain
  drain-finish = ground (arith, some_target)

  loop : Migrated c.available_nodes late 0 (workloads_of node_id c) (set_state node_id draining c) (
      migrate node_id c.available_nodes late 0
        (workloads_of node_id c)
        (set_state node_id draining c))
  loop =
      migrate-Migrated node_id c.available_nodes late 0 (workloads_of node_id c)
        (set_state node_id draining c)

  finish_in_time :
      (count : ℕ) (r : ℕ × Bool × InMemoryDrainCoordinator)
      → r.1 ≡ false
      → ((finish node_id count r).0.success ≡ true)
        × ((finish node_id count r).0.workloads_migrated ≡ r.0)
        × (drain_state node_id (finish node_id count r).1 ≡ drained)
        × ((j : Uuid)
            → workloads_of j (finish node_id count r).1
              ≡ (if node_id == j then [] else workloads_of j r.2))
  unfolding drain_state workloads_of
  finish_in_time count (m, true, d) h = absurd (ground arith)
  finish_in_time count (m, false, d) h = (
    refl,
    refl,
    ap state_or_active (get-insert d.drain_states node_id node_id drained)
        ∙ ground (arith, ==_iff node_id node_id),
    λ j. ap workloads_or_default (get-remove d.node_workloads node_id j) ∙ ground arith,
  )

  finish_late :
      (count : ℕ) (r : ℕ × Bool × InMemoryDrainCoordinator)
      → r.1 ≡ true
      → ((finish node_id count r).0.success ≡ false)
        × ((finish node_id count r).0.error ≡ some (timed_out r.0 count))
        × (drain_state node_id (finish node_id count r).1 ≡ cordoned)
        × ((j : Uuid) → workloads_of j (finish node_id count r).1 ≡ workloads_of j r.2)
  unfolding drain_state workloads_of
  finish_late count (m, false, d) h = absurd (ground arith)
  finish_late count (m, true, d) h = (
    refl,
    refl,
    ap state_or_active (get-insert d.drain_states node_id node_id cordoned)
        ∙ ground (arith, ==_iff node_id node_id),
    λ j. refl,
  )

  -- Where there is a target, a drain that meets no deadline succeeds: every workload of the node is
  -- migrated, the node is drained and has none left, and every other node has what it had and then what
  -- is dealt to it, as the workloads go to the targets in turn and to the first again after the last.
  -- Where the node is not among the targets, none is dealt to it, so that none is lost.
  pub drain_in_time :
      ((k : ℕ) → late k ≡ false)
      → let (r, after) = drain node_id late c in
        let workloads = workloads_of node_id c in
        (r.success ≡ true)
        × (r.workloads_migrated ≡ length workloads)
        × (drain_state node_id after ≡ drained)
        × ((j : Uuid)
            → workloads_of j after ≡ (
                if node_id == j
                then []
                else workloads_of j c ++ dealt j c.available_nodes workloads))
        × (contains c.available_nodes node_id ≡ false
            → dealt node_id c.available_nodes workloads ≡ [])
  unfolding workloads_of
  drain_in_time early =
      let ws = workloads_of node_id c in
      let r = migrate node_id c.available_nodes late 0 ws (set_state node_id draining c) in
      let all : until late 0 ws ≡ ws = until_all late 0 ws early in
      let done = loop in
      let in_time : r.1 ≡ false = done.expired ∙ ground (arith, ap length all) in
      let f = finish_in_time (length ws) r in_time in
      let e = drain-finish in
      (
        ap (λ x. x.0.success) e ∙ f.0,
        ap (λ x. x.0.workloads_migrated) e ∙ f.1 ∙ done.count ∙ omega (arith, ap length all),
        ap (λ x. drain_state node_id x.1) e ∙ f.2,
        λ j.
            ap (λ x. workloads_of j x.1) e
            ∙ f.3 j
            ∙ ap (λ ys. if node_id == j then [] else ys)
                (done.placed j
                  ∙ ap (λ ms. workloads_of j c ++ share j c.available_nodes 0 ms) all
                  ∙ ap (λ ms. workloads_of j c ++ ms)
                      (share-dealt j c.available_nodes ws some_target)),
        λ apart.
            sym (share-dealt node_id c.available_nodes ws some_target)
            ∙ share_none node_id c.available_nodes 0 ws some_target apart,
      )

  -- A drain that meets its deadline before workload `k` reports how many it has migrated and leaves
  -- the node cordoned, with all of its workloads still listed on it: the first `k` are then on
  -- their targets too. The node is taken not to be a target.
  pub drain_late :
      (k : ℕ)
      → k < length (workloads_of node_id c)
      → ((m : ℕ) → m < k → late m ≡ false)
      → late k ≡ true
      → contains c.available_nodes node_id ≡ false
      → let (r, after) = drain node_id late c in
        let workloads = workloads_of node_id c in
        (r.success ≡ false)
        × (r.error ≡ some (timed_out k (length workloads)))
        × (drain_state node_id after ≡ cordoned)
        × (workloads_of node_id after ≡ workloads)
        × ((j : Uuid)
            → workloads_of j after
              ≡ workloads_of j c ++ share j c.available_nodes 0 (take k workloads))
  unfolding workloads_of
  drain_late k short before stop apart =
      let ws = workloads_of node_id c in
      let r = migrate node_id c.available_nodes late 0 ws (set_state node_id draining c) in
      let some_of : until late 0 ws ≡ take k ws =
        until-take late 0 k ws (λ m lt. before m (omega arith)) (ap late (omega arith) ∙ stop)
          short in
      let many : length (until late 0 ws) ≡ k =
        ap length some_of ∙ length-take k ws (omega arith) in
      let done = loop in
      let over : r.1 ≡ true = done.expired ∙ ground (arith, many) in
      let f = finish_late (length ws) r over in
      let e = drain-finish in
      let place = λ (j : Uuid).
        ap (λ x. workloads_of j x.1) e
        ∙ f.3 j
        ∙ done.placed j
        ∙ ap (λ ms. workloads_of j c ++ share j c.available_nodes 0 ms) some_of in
      let migrated : r.0 ≡ k = done.count ∙ omega (arith, many) in
      (
        ap (λ x. x.0.success) e ∙ f.0,
        ap (λ x. x.0.error) e ∙ f.1 ∙ ap (λ n. some (timed_out n (length ws))) migrated,
        ap (λ x. drain_state node_id x.1) e ∙ f.2,
        place node_id
            ∙ ap (λ ms. ws ++ ms)
                (share_none node_id c.available_nodes 0 (take k ws) some_target apart)
            ∙ append-nil ws,
        place,
      )

-- A node that is the only target of its own drain loses its workloads: the drain reports success and
-- all of them migrated, and afterwards no node has any of them beyond what it had before.
drain_to_itself :
    (node_id : Uuid) (late : ℕ → Bool) (c : InMemoryDrainCoordinator)
    → c.available_nodes ≡ node_id ∷ []
    → ((k : ℕ) → late k ≡ false)
    → let (r, after) = drain node_id late c in
      (r.success ≡ true)
      × (r.workloads_migrated ≡ length (workloads_of node_id c))
      × ((j : Uuid) → workloads_of j after ≡ (if node_id == j then [] else workloads_of j c))
drain_to_itself node_id late c itself early =
    let ws = workloads_of node_id c in
    let d = drain_in_time node_id late c (ap is_nil itself) early in
    (
      d.0,
      d.1,
      λ j.
          d.3 j
          ∙ ap (λ ts. if node_id == j then [] else workloads_of j c ++ dealt j ts ws) itself
          ∙ ap (λ ys. if node_id == j then [] else workloads_of j c ++ ys)
              (sym (share-dealt j (node_id ∷ []) ws refl))
          ∙ ap (λ ys. if node_id == j then [] else workloads_of j c ++ ys)
              (share_self node_id j 0 ws)
          ∙ ground (arith, append-nil (workloads_of j c)),
    )
