-- ===== src/Workload/Drain/Dealing.antt =====
-- The workloads that fall to each node of a drain, dealt out like cards: to the targets in turn, and
-- from the first again after the last.
use picloud.Prelude.{
  ℕ, suc, ◌+◌, ◌*◌, ◌%◌, ◌<◌, ◌≡◌, refl, sym, ap, ◌∙◌, subst, List, [], ◌∷◌, ◌++◌, length,
  if◌then◌else◌, ◌==◌, false, arith, append_assoc, append-nil,
}
use picloud.Prelude.Equality.{nat_eq}
use native.Mathlib.Nat.{mod-eq_of_lt, mul-add-mod_self_right}
use picloud.Domain.Events.{Uuid}
use picloud.Workload.Drain.{NodeWorkloadInfo, nth, target_of, is_nil}
use picloud.Workload.Drain.Migrations.{share}

-- What falls to `j` of the workloads, where `rest` are the targets whose turn comes before that of the
-- first target `t` again; `ts` are the others.
abbrev deal : Uuid → Uuid → List Uuid → List Uuid → List NodeWorkloadInfo → List NodeWorkloadInfo
deal j t ts rest [] = []
deal j t ts [] (w ∷ ws) = let more = deal j t ts ts ws in if t == j then w ∷ more else more
deal j t ts (u ∷ us) (w ∷ ws) = let more = deal j t ts us ws in if u == j then w ∷ more else more

-- No workload falls to a node where there is no target.
abbrev pub dealt : Uuid → List Uuid → List NodeWorkloadInfo → List NodeWorkloadInfo
dealt j [] ws = []
dealt j (t ∷ ts) ws = deal j t ts (t ∷ ts) ws

length_snoc : (pre : List Uuid) (u : Uuid) → length (pre ++ u ∷ []) ≡ length pre + 1
length_snoc [] u = refl
length_snoc (p ∷ pre) u = omega (arith, length_snoc pre u)

length_before : (pre : List Uuid) (u : Uuid) (us : List Uuid) → length pre < length (pre ++ u ∷ us)
length_before [] u us = omega arith
length_before (p ∷ pre) u us = omega (arith, length_before pre u us)

nth-append : (pre : List Uuid) (u : Uuid) (us : List Uuid) → nth (pre ++ u ∷ us) (length pre) ≡ u
unfolding nth
nth-append [] u us = refl
nth-append (p ∷ pre) u us = nth-append pre u us

-- The turn of `u`, after `q` rounds and the targets `pre`.
target_at :
    (targets pre : List Uuid) (u : Uuid) (us : List Uuid) (q i : ℕ)
    → targets ≡ pre ++ u ∷ us
    → i ≡ q * length targets + length pre
    → target_of targets i ≡ u
target_at targets pre u us q i split count =
    let before : length pre < length targets =
      subst (λ xs. length pre < length xs) (sym split) (length_before pre u us) in
    ap (λ k. nth targets (k % length targets)) count
    ∙ ap (nth targets)
        (mul-add-mod_self_right q (length targets) (length pre) ∙ mod-eq_of_lt before)
    ∙ ap (λ xs. nth xs (length pre)) split
    ∙ nth-append pre u us

share-deal :
    (j t : Uuid) (ts pre rest : List Uuid) (q i : ℕ) (ws : List NodeWorkloadInfo)
    → t ∷ ts ≡ pre ++ rest
    → i ≡ q * length (t ∷ ts) + length pre
    → share j (t ∷ ts) i ws ≡ deal j t ts rest ws
share-deal j t ts pre rest q i [] split count = refl
share-deal j t ts pre [] q i (w ∷ ws) split count =
    let all : length pre ≡ length (t ∷ ts) = ap length (sym (append-nil pre) ∙ sym split) in
    let n = length (t ∷ ts) in
    let round : i ≡ suc q * n + 0 = omega (arith, count, all) in
    let turn = target_at (t ∷ ts) [] t ts (suc q) i refl round in
    let more = share-deal j t ts (t ∷ []) ts (suc q) (i + 1) ws refl (omega (arith, round)) in
    ap (λ x. if x == j then w ∷ share j (t ∷ ts) (i + 1) ws else share j (t ∷ ts) (i + 1) ws) turn
    ∙ ap (λ r. if t == j then w ∷ r else r) more
share-deal j t ts pre (u ∷ us) q i (w ∷ ws) split count =
    let turn = target_at (t ∷ ts) pre u us q i split count in
    let more =
      share-deal j t ts (pre ++ u ∷ []) us q (i + 1) ws (split ∙ sym (append_assoc pre (u ∷ []) us))
        (omega (arith, count, length_snoc pre u)) in
    ap (λ x. if x == j then w ∷ share j (t ∷ ts) (i + 1) ws else share j (t ∷ ts) (i + 1) ws) turn
    ∙ ap (λ r. if u == j then w ∷ r else r) more

-- The index of the loop deals as the turns do.
pub share-dealt :
    (j : Uuid) (targets : List Uuid) (ws : List NodeWorkloadInfo)
    → is_nil targets ≡ false
    → share j targets 0 ws ≡ dealt j targets ws
share-dealt j [] ws h = absurd (ground arith)
share-dealt j (t ∷ ts) ws h = share-deal j t ts [] (t ∷ ts) 0 0 ws refl (omega arith)
