-- ===== src/Cluster/Membership/Leader.antt =====
-- Who the leader is, on the fallback by the lowest UUID and on the answer of Raft.
use picloud.Prelude.{
  ℕ, ◌≤◌, ◌≡◌, ◌≢◌, ◌↔◌, refl, ap, sym, subst, ◌∙◌, Bool, true, false, ◌||◌, Option, none, some,
  List, [], ◌∷◌, arith, any, all, ltb, nat_beq, nat_beq_iff,
}
use picloud.Prelude.Equality.{nat_eq, option_eq}
use picloud.Domain.Error.{ok}
use picloud.Domain.Events.{Uuid}
use picloud.Domain.Iri.{IriBuilder}
use picloud.Cluster.Peers
use picloud.Cluster.Peers.{PeerInfo, PeerList}
use picloud.Cluster.Membership.{
  MdnsCluster, RaftMetrics, NodeInfo, is_leader, below_all, min_by_id, lowest, find_by_raft_id,
  leader_or_lowest, leader_by_raft, leader_id_in, leader_id, members, raft_node_id, peer_infos,
}

unfoldable has_id : Uuid → List PeerInfo → Bool
has_id id ps = any (λ p. nat_beq p.node_id id) ps

-- The node itself and the peers it knows.
unfoldable is_member : Uuid → Uuid → List PeerInfo → Bool
is_member own id ps = nat_beq own id || has_id id ps

min_by_id-is_member :
    (p : PeerInfo) (ps : List PeerInfo) → has_id (min_by_id p ps).node_id (p ∷ ps) ≡ true
unfolding min_by_id has_id
min_by_id-is_member p [] = ground arith
min_by_id-is_member p (q ∷ ps) = ground (arith, min_by_id-is_member p ps, min_by_id-is_member q ps)

min_by_id_le :
    (p : PeerInfo) (ps : List PeerInfo) (id : Uuid)
    → has_id id (p ∷ ps) ≡ true
    → (min_by_id p ps).node_id ≤ id
unfolding min_by_id has_id
min_by_id_le p [] id h = ground arith
min_by_id_le p (q ∷ ps) id h = ground (
  arith,
  min_by_id_le p ps id,
  min_by_id_le q ps id,
  min_by_id_le p ps p.node_id,
  min_by_id_le q ps q.node_id,
)

lowest-is_member : (own : Uuid) (ps : List PeerInfo) → is_member own (lowest own ps) ps ≡ true
unfolding lowest is_member has_id
lowest-is_member own [] = ground arith
lowest-is_member own (p ∷ ps) = ground (arith, min_by_id-is_member p ps)

lowest_le :
    (own : Uuid) (ps : List PeerInfo) (id : Uuid) → is_member own id ps ≡ true → lowest own ps ≤ id
unfolding lowest is_member has_id
lowest_le own [] id h = ground arith
lowest_le own (p ∷ ps) id h =
    ground (arith, min_by_id_le p ps id, min_by_id_le p ps (min_by_id p ps).node_id)

-- Without Raft the leader is the lowest id that the node knows, its own included.
leader_id_fallback :
    (c : MdnsCluster)
    → c.raft ≡ none
    → (leader : Uuid) → leader_id c ≡ ok leader
    → (is_member c.config.node_id leader (Peers.all c.peers) ≡ true)
      × ((id : Uuid) → is_member c.config.node_id id (Peers.all c.peers) ≡ true → leader ≤ id)
unfolding leader_id
leader_id_fallback c h leader e =
    subst (λ o. (ok (leader_id_in o c) ≡ ok leader) → IsLowest leader) (sym h) of_lowest e
  where
    IsLowest : Uuid → Type 0
    IsLowest l =
        (is_member c.config.node_id l (Peers.all c.peers) ≡ true)
        × ((id : Uuid) → is_member c.config.node_id id (Peers.all c.peers) ≡ true → l ≤ id)

    is_lowest : IsLowest (lowest c.config.node_id (Peers.all c.peers))
    is_lowest = (
      lowest-is_member c.config.node_id (Peers.all c.peers),
      lowest_le c.config.node_id (Peers.all c.peers),
    )

    of_lowest : (ok (lowest c.config.node_id (Peers.all c.peers)) ≡ ok leader) → IsLowest leader
    of_lowest q = subst IsLowest (ground arith) is_lowest

-- Two nodes without Raft that know the same nodes, themselves included, name the same leader.
leader_id_agree :
    (c d : MdnsCluster)
    → c.raft ≡ none
    → d.raft ≡ none
    → ((id : Uuid)
        → is_member c.config.node_id id (Peers.all c.peers)
          ≡ is_member d.config.node_id id (Peers.all d.peers))
    → leader_id c ≡ leader_id d
unfolding leader_id
leader_id_agree c d hc hd same =
    let (mc, lc) = leader_id_fallback c hc (leader_id_in c.raft c) (unfold_id c) in
    let (md, ld) = leader_id_fallback d hd (leader_id_in d.raft d) (unfold_id d) in
    unfold_id c
    ∙ ap ok (
        antisym (lc (leader_id_in d.raft d) (same (leader_id_in d.raft d) ∙ md))
          (ld (leader_id_in c.raft c) (sym (same (leader_id_in c.raft c)) ∙ mc)))
    ∙ sym (unfold_id d)
  where
    unfold_id : (c : MdnsCluster) → leader_id c ≡ ok (leader_id_in c.raft c)
    unfold_id c = refl

    antisym : {a b : ℕ} → a ≤ b → b ≤ a → a ≡ b
    antisym h k = omega arith

all_below :
    (own : Uuid) (p : PeerInfo) (ps : List PeerInfo)
    → all (λ p. ltb own p.node_id) (p ∷ ps) ≡ ltb own (min_by_id p ps).node_id
unfolding min_by_id
all_below own p [] = ground arith
all_below own p (q ∷ ps) = ground (arith, all_below own p ps, all_below own q ps)

below_all_iff :
    (own : Uuid) (ps : List PeerInfo)
    → has_id own ps ≡ false
    → (below_all own ps ≡ true) ↔ (lowest own ps ≡ own)
unfolding lowest
below_all_iff own [] h = ground arith
below_all_iff own (p ∷ ps) h =
    ground (arith, all_below own p ps, not_min (min_by_id-is_member p ps))
  where
    not_min : has_id (min_by_id p ps).node_id (p ∷ ps) ≡ true → (min_by_id p ps).node_id ≢ own
    not_min m e = absurd (ground (arith, ap (λ i. has_id i (p ∷ ps)) e))

-- Without Raft a node answers that it is the leader exactly when its leader is itself, if it is not
-- among its own peers.
is_leader_iff :
    (c : MdnsCluster)
    → c.raft ≡ none
    → has_id c.config.node_id (Peers.all c.peers) ≡ false
    → (is_leader c ≡ true) ↔ (leader_id c ≡ ok c.config.node_id)
unfolding is_leader leader_id
is_leader_iff c h own = ground (arith, h, below_all_iff c.config.node_id (Peers.all c.peers) own)

-- With Raft, a node that is the current leader says so and names itself.
leader_id_raft :
    (c : MdnsCluster) (raft : RaftMetrics)
    → c.raft ≡ some raft
    → raft.current_leader ≡ some (raft_node_id c)
    → (is_leader c ≡ true) × (leader_id c ≡ ok c.config.node_id)
unfolding is_leader leader_id
leader_id_raft c raft h e = ground (arith, h, e)

-- With Raft, when the current leader is neither the node nor a known peer, a node with the lowest
-- id names itself as the leader, and answers that it is not the leader.
leader_id_unknown :
    (c : MdnsCluster) (raft : RaftMetrics) (l : ℕ)
    → c.raft ≡ some raft
    → raft.current_leader ≡ some l
    → l ≢ raft_node_id c
    → find_by_raft_id l (Peers.all c.peers) ≡ none
    → below_all c.config.node_id (Peers.all c.peers) ≡ true
    → has_id c.config.node_id (Peers.all c.peers) ≡ false
    → (leader_id c ≡ ok c.config.node_id) × (is_leader c ≡ false)
unfolding is_leader leader_id
leader_id_unknown c raft l h e n f b own =
    ground (arith, h, e, n, f, b, below_all_iff c.config.node_id (Peers.all c.peers) own)

unfoldable marked : List NodeInfo → Bool
marked ns = any (λ n. n.is_leader) ns

marked-peer_infos :
    (b : IriBuilder) (leader : Uuid) (ps : List PeerInfo)
    → marked (peer_infos b leader ps) ≡ has_id leader ps
unfolding marked has_id
marked-peer_infos b leader [] = refl
marked-peer_infos b leader (p ∷ ps) = ground (arith, marked-peer_infos b leader ps)

has_id-find :
    (l : ℕ) (ps : List PeerInfo) (p : PeerInfo)
    → find_by_raft_id l ps ≡ some p
    → has_id p.node_id ps ≡ true
unfolding find_by_raft_id has_id
has_id-find l [] p h = ground arith
has_id-find l (q ∷ ps) p h = ground (arith, has_id-find l ps p)

leader_or_lowest-is_member :
    (o : Option PeerInfo) (l : ℕ) (c : MdnsCluster)
    → find_by_raft_id l (Peers.all c.peers) ≡ o
    → is_member c.config.node_id (leader_or_lowest o c) (Peers.all c.peers) ≡ true
unfolding is_member
leader_or_lowest-is_member none l c h = lowest-is_member c.config.node_id (Peers.all c.peers)
leader_or_lowest-is_member (some p) l c h = ground (arith, has_id-find l (Peers.all c.peers) p h)

leader_by_raft-is_member :
    (o : Option ℕ) (c : MdnsCluster)
    → is_member c.config.node_id (leader_by_raft o c) (Peers.all c.peers) ≡ true
unfolding is_member
leader_by_raft-is_member none c = lowest-is_member c.config.node_id (Peers.all c.peers)
leader_by_raft-is_member (some l) c = ground (
  arith,
  leader_or_lowest-is_member (find_by_raft_id l (Peers.all c.peers)) l c refl,
  nat_beq_iff c.config.node_id c.config.node_id,
)

leader_id_in-is_member :
    (o : Option RaftMetrics) (c : MdnsCluster)
    → is_member c.config.node_id (leader_id_in o c) (Peers.all c.peers) ≡ true
leader_id_in-is_member none c = lowest-is_member c.config.node_id (Peers.all c.peers)
leader_id_in-is_member (some raft) c = leader_by_raft-is_member raft.current_leader c

-- Whatever Raft says, the member list marks some member as the leader, the one that `leader_id`
-- names.
members-marked : (c : MdnsCluster) → (ns : List NodeInfo) × (members c ≡ ok ns) × (marked ns ≡ true)
unfolding members marked is_member
members-marked c = (
  _,
  refl,
  ground (
    arith,
    marked-peer_infos c.iri_builder (leader_id_in c.raft c) (Peers.all c.peers),
    leader_id_in-is_member c.raft c,
  ),
)
