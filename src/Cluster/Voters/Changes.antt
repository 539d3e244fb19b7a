-- ===== src/Cluster/Voters/Changes.antt =====
-- What the voter changes guarantee. Of `change_membership` it is assumed, as openraft documents,
-- that a change that succeeds makes the given set the voters.
use picloud.Prelude.{
  ℕ, ◌^◌, ◌<◌, ◌≡◌, ◌≢◌, refl, ap, sym, ◌∙◌, Bool, true, false, not, Option, none, some, List, [],
  ◌∷◌, map, if◌then◌else◌, arith, retain, nat_beq, nat_beq_iff, any,
}
use picloud.Prelude.Equality.{nat_eq}
use picloud.Domain.Error.{PiCloudError, ok, voter_config_change_failed, last_voter, empty_voter_set}
use picloud.Domain.Events.{Uuid}
use picloud.Cluster.Peers
use picloud.Cluster.Peers.{PeerInfo}
use picloud.Cluster.Membership.{MdnsCluster, RaftMetrics, node_id_from_uuid, find_by_raft_id}
use picloud.Cluster.Voters.{
  set_insert, collect, VoterConfigChangeResult, uuid_from_raft_id, id_or, promote_to_voter,
  demote_to_learner, change_voter_set, promote_in, demote_in, change_in, change_nonempty, changed,
  change_result,
}

unfoldable pub mem : ℕ → List ℕ → Bool
mem n s = any (λ m. nat_beq m n) s

mem-set_insert :
    (n k : ℕ) (s : List ℕ) → mem k (set_insert n s) ≡ (if nat_beq n k then true else mem k s)
unfolding set_insert mem
mem-set_insert n k [] = ground arith
mem-set_insert n k (m ∷ s) = ground (arith, mem-set_insert n k s)

mem-collect : (k : ℕ) (ns : List ℕ) → mem k (collect ns) ≡ mem k ns
unfolding collect mem
mem-collect k [] = refl
mem-collect k (n ∷ ns) = ground (arith, mem-set_insert n k (collect ns), mem-collect k ns)

mem-retain_ne :
    (r k : ℕ) (ns : List ℕ)
    → mem k (retain (λ v. not (nat_beq v r)) ns) ≡ (if nat_beq r k then false else mem k ns)
unfolding mem
mem-retain_ne r k [] = ground arith
mem-retain_ne r k (n ∷ ns) = ground (arith, mem-retain_ne r k ns)

find_by_raft_id_lem :
    (raft_id : ℕ) (ps : List PeerInfo) (p : PeerInfo)
    → find_by_raft_id raft_id ps ≡ some p
    → node_id_from_uuid p.node_id ≡ raft_id
unfolding find_by_raft_id
find_by_raft_id_lem raft_id [] p e = ground arith
find_by_raft_id_lem raft_id (q ∷ ps) p e =
    ground
      (arith, find_by_raft_id_lem raft_id ps p, nat_beq_iff (node_id_from_uuid q.node_id) raft_id)

id_or-found :
    (o : Option PeerInfo) (raft_id : ℕ) (ps : List PeerInfo)
    → raft_id < 2 ^ 64
    → find_by_raft_id raft_id ps ≡ o
    → node_id_from_uuid (id_or o raft_id) ≡ raft_id
unfolding node_id_from_uuid
id_or-found none raft_id ps h e = omega arith
id_or-found (some p) raft_id ps h e = find_by_raft_id_lem raft_id ps p e

-- A 64-bit raft id is reported as a UUID whose raft id it is, so it never stands for another node.
uuid_from_raft_id_lem :
    (c : MdnsCluster) (raft_id : ℕ)
    → raft_id < 2 ^ 64
    → node_id_from_uuid (uuid_from_raft_id c raft_id) ≡ raft_id
unfolding uuid_from_raft_id
uuid_from_raft_id_lem c raft_id h = ground (
  arith,
  nat_beq_iff (node_id_from_uuid c.config.node_id) raft_id,
  id_or-found (find_by_raft_id raft_id (Peers.all c.peers)) raft_id (Peers.all c.peers) h refl,
)

module _ (change_membership : List ℕ → RaftMetrics → Option RaftMetrics)
    (takes_effect : (s : List ℕ) (raft after : RaftMetrics)
      → change_membership s raft ≡ some after
      → after.voter_ids ≡ s) where
  changed_lem :
      (o : Option RaftMetrics) (vs : List ℕ) (raft : RaftMetrics)
      → (c d : MdnsCluster) (r : VoterConfigChangeResult) → change_membership vs raft ≡ o
      → changed change_membership o vs c ≡ (ok r, d)
      → (after : RaftMetrics) × (d.raft ≡ some after)
        × (after.voter_ids ≡ vs)
        × (r ≡ change_result c vs)
  changed_lem none vs raft c d r h e = absurd (ground arith)
  changed_lem (some after) vs raft c d r h e =
      (after, ground arith, takes_effect vs raft after h, ground arith)

  change_nonempty_lem :
      (e : PiCloudError) (vs : List ℕ) (raft : RaftMetrics)
      → (c d : MdnsCluster) (r : VoterConfigChangeResult)
      → change_nonempty change_membership e vs raft c ≡ (ok r, d)
      → (after : RaftMetrics) × (d.raft ≡ some after)
        × (after.voter_ids ≡ vs)
        × (vs ≢ [])
        × (r ≡ change_result c vs)
  change_nonempty_lem e [] raft c d r h = absurd (ground arith)
  change_nonempty_lem e (v ∷ vs) raft c d r h =
      let (after, a, b, g) =
        changed_lem (change_membership (v ∷ vs) raft) (v ∷ vs) raft c d r refl h in
      (after, a, b, (λ q. absurd (ground arith)), g)

  -- After a promotion that succeeds the node is a voter, and the other voters are those before; the
  -- result lists the new voters.
  promote_to_voter_lem :
      (node_id : Uuid) (c d : MdnsCluster) (raft : RaftMetrics) (r : VoterConfigChangeResult)
      → c.raft ≡ some raft
      → promote_to_voter change_membership node_id c ≡ (ok r, d)
      → (after : RaftMetrics) × (d.raft ≡ some after)
        × (r ≡ change_result c after.voter_ids)
        × ((k : ℕ)
            → mem k after.voter_ids
              ≡ (if nat_beq (node_id_from_uuid node_id) k then true else mem k raft.voter_ids))
  unfolding promote_to_voter
  promote_to_voter_lem node_id c d raft r h e =
      let vs = set_insert (node_id_from_uuid node_id) (collect raft.voter_ids) in
      let (after, a, b, g) =
        changed_lem (change_membership vs raft) vs raft c d r refl
          (sym (ap (λ o. promote_in change_membership o (node_id_from_uuid node_id) c) h) ∙ e) in
      (
        after,
        a,
        g ∙ ap (change_result c) (sym b),
        (λ k.
            ap (mem k) b
            ∙ mem-set_insert (node_id_from_uuid node_id) k (collect raft.voter_ids)
            ∙ ap (λ x. if nat_beq (node_id_from_uuid node_id) k then true else x)
                (mem-collect k raft.voter_ids)),
      )

  -- Where a membership change that succeeds makes the given set the voters: after a demotion that
  -- succeeds the node is no voter, the other voters are those before, there is one left, and the
  -- result lists them.
  demote_to_learner_lem :
      (node_id : Uuid) (c d : MdnsCluster) (raft : RaftMetrics) (r : VoterConfigChangeResult)
      → c.raft ≡ some raft
      → demote_to_learner change_membership node_id c ≡ (ok r, d)
      → (after : RaftMetrics) × (d.raft ≡ some after)
        × (after.voter_ids ≢ [])
        × (r ≡ change_result c after.voter_ids)
        × ((k : ℕ)
            → mem k after.voter_ids
              ≡ (if nat_beq (node_id_from_uuid node_id) k then false else mem k raft.voter_ids))
  unfolding demote_to_learner
  demote_to_learner_lem node_id c d raft r h e =
      let id = node_id_from_uuid node_id in
      let kept = retain (λ v. not (nat_beq v id)) raft.voter_ids in
      let (after, a, b, ne, g) =
        change_nonempty_lem (voter_config_change_failed last_voter) (collect kept) raft c d r
          (sym (ap (λ o. demote_in change_membership o id c) h) ∙ e) in
      (
        after,
        a,
        (λ q. ne (sym b ∙ q)),
        g ∙ ap (change_result c) (sym b),
        (λ k. ap (mem k) b ∙ mem-collect k kept ∙ mem-retain_ne id k raft.voter_ids),
      )

  -- After a change of the voter set that succeeds the voters are exactly the given nodes, and there
  -- is at least one.
  change_voter_set_lem :
      (ids : List Uuid) (c d : MdnsCluster) (r : VoterConfigChangeResult)
      → change_voter_set change_membership ids c ≡ (ok r, d)
      → (after : RaftMetrics) × (d.raft ≡ some after)
        × (after.voter_ids ≢ [])
        × (r ≡ change_result c after.voter_ids)
        × ((k : ℕ) → mem k after.voter_ids ≡ mem k (map node_id_from_uuid ids))
  unfolding change_voter_set
  change_voter_set_lem ids c d r e = by_raft c.raft refl e
    where
      by_raft :
          (o : Option RaftMetrics)
          → c.raft ≡ o
          → change_in change_membership o ids c ≡ (ok r, d)
          → (after : RaftMetrics) × (d.raft ≡ some after)
            × (after.voter_ids ≢ [])
            × (r ≡ change_result c after.voter_ids)
            × ((k : ℕ) → mem k after.voter_ids ≡ mem k (map node_id_from_uuid ids))
      by_raft none h q = absurd (ground arith)
      by_raft (some raft) h q =
          let (after, a, b, ne, g) =
            change_nonempty_lem (voter_config_change_failed empty_voter_set)
              (collect (map node_id_from_uuid ids)) raft c d r q in
          (
            after,
            a,
            (λ z. ne (sym b ∙ z)),
            g ∙ ap (change_result c) (sym b),
            (λ k. ap (mem k) b ∙ mem-collect k (map node_id_from_uuid ids)),
          )
