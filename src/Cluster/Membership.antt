-- ===== src/Cluster/Membership.antt =====
-- `ClusterMembership for MdnsCluster` of crates/picloud-cluster/src/implementation.rs. Of openraft
-- it reads the current leader and the membership that the metrics give; the sets are in ascending
-- order.
pub mod Leader
use picloud.Prelude.{
  ℕ, ◌%◌, ◌^◌, Bool, true, false, Option, none, some, List, [], ◌∷◌, ◌==◌, ltb, all, find,
  if◌then◌else◌, map,
}
use picloud.Prelude.Equality.{nat_eq, option_eq}
use picloud.Prelude.Texts.{Text}
use picloud.Domain.Error.{Result, ok, err, ◌>>=◌}
use picloud.Domain.Events.{Uuid}
use picloud.Domain.Iri.{ResourceIri, IriBuilder, node}
use picloud.Cluster.Peers
use picloud.Cluster.Peers.{PeerInfo, PeerList}

-- `address` is the text `bind_addr:http_port`.
pub record ClusterConfig : Type 0 where
  pub node_id : Uuid
  pub node_name : Text
  pub address : Text

pub record RaftMetrics : Type 0 where
  pub current_leader : Option ℕ
  pub voter_ids : List ℕ
  pub learner_ids : List ℕ

pub record MdnsCluster : Type 0 where
  pub config : ClusterConfig
  pub peers : PeerList
  pub raft : Option RaftMetrics
  pub iri_builder : IriBuilder

pub record NodeInfo : Type 0 where
  pub node_id : Uuid
  pub node_iri : ResourceIri
  pub address : Text
  pub is_leader : Bool

-- The lower 64 bits.
unfoldable pub node_id_from_uuid : Uuid → ℕ
node_id_from_uuid uuid = uuid % 2 ^ 64

unfoldable pub raft_node_id : MdnsCluster → ℕ
unfolding node_id_from_uuid
raft_node_id c = node_id_from_uuid c.config.node_id

abbrev pub below_all : Uuid → List PeerInfo → Bool
below_all node_id [] = true
below_all node_id peers = all (λ p. ltb node_id p.node_id) peers

abbrev is_leader_in : Option RaftMetrics → MdnsCluster → Bool
is_leader_in (some raft) c = raft.current_leader == some (raft_node_id c)
is_leader_in none c = below_all c.config.node_id (Peers.all c.peers)

unfoldable pub is_leader : MdnsCluster → Bool
is_leader c = is_leader_in c.raft c

-- `min_by_key`: the first of the items with the least key.
unfoldable pub min_by_id : PeerInfo → List PeerInfo → PeerInfo
min_by_id p [] = p
min_by_id p (q ∷ ps) = if ltb q.node_id p.node_id then min_by_id q ps else min_by_id p ps

-- The fallback: the lowest UUID.
unfoldable pub lowest : Uuid → List PeerInfo → Uuid
unfolding min_by_id
lowest own [] = own
lowest own (p ∷ ps) =
    let min_peer = min_by_id p ps in if ltb own min_peer.node_id then own else min_peer.node_id

unfoldable pub find_by_raft_id : ℕ → List PeerInfo → Option PeerInfo
unfolding node_id_from_uuid
find_by_raft_id raft_id peers = find (λ p. node_id_from_uuid p.node_id == raft_id) peers

abbrev pub leader_or_lowest : Option PeerInfo → MdnsCluster → Uuid
leader_or_lowest (some peer) c = peer.node_id
leader_or_lowest none c = lowest c.config.node_id (Peers.all c.peers)

abbrev pub leader_by_raft : Option ℕ → MdnsCluster → Uuid
leader_by_raft none c = lowest c.config.node_id (Peers.all c.peers)
leader_by_raft (some leader_raft_id) c =
    if leader_raft_id == raft_node_id c
    then c.config.node_id
    else leader_or_lowest (find_by_raft_id leader_raft_id (Peers.all c.peers)) c

abbrev pub leader_id_in : Option RaftMetrics → MdnsCluster → Uuid
leader_id_in none c = lowest c.config.node_id (Peers.all c.peers)
leader_id_in (some raft) c = leader_by_raft raft.current_leader c

-- It never fails.
unfoldable pub leader_id : MdnsCluster → Result Uuid
leader_id c = ok (leader_id_in c.raft c)

abbrev self_info : MdnsCluster → Uuid → NodeInfo
self_info c leader = record {
  node_id = c.config.node_id;
  node_iri = node c.iri_builder c.config.node_name;
  address = c.config.address;
  is_leader = c.config.node_id == leader;
}

abbrev pub peer_infos : IriBuilder → Uuid → List PeerInfo → List NodeInfo
peer_infos b leader [] = []
peer_infos b leader (p ∷ ps) =
    (record {
      node_id = p.node_id;
      node_iri = node b p.node_name;
      address = p.address;
      is_leader = p.node_id == leader;
    })
    ∷ peer_infos b leader ps

unfoldable pub members : MdnsCluster → Result (List NodeInfo)
unfolding leader_id
members c = leader_id c >>= λ leader.
    ok (self_info c leader ∷ peer_infos c.iri_builder leader (Peers.all c.peers))
