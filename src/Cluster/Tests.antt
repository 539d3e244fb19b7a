-- ===== src/Cluster/Tests.antt =====
-- Runs of the modules of crates/picloud-cluster at concrete nodes.
use picloud.Prelude.{ℕ, Option, some, List, [], ◌∷◌}
use picloud.Prelude.Equality.{nat_eq, list_eq}
use picloud.Prelude.Texts.{Text, codes}
use picloud.Cluster.Peers.{PeerInfo, PeerList}
use picloud.Cluster.Identity.{ClusterIdentity, auto}
use picloud.Cluster.Membership.{MdnsCluster, RaftMetrics}

abbrev peer : ℕ → PeerInfo
peer id = record {
  node_id = id;
  node_name = codes "pi";
  address = codes "10.0.0.2:7443";
  ip = codes "10.0.0.2";
  port = 7443;
  last_seen = 5;
}

abbrev peers_of : List PeerInfo → PeerList
peers_of [] = record { peers = []; removed = [] }
peers_of (p ∷ ps) = record { peers = (p.node_id, p) ∷ (peers_of ps).peers; removed = [] }

abbrev format : Text → ℕ → Text
format addr port = addr

abbrev cluster : ℕ → List PeerInfo → Option RaftMetrics → MdnsCluster
cluster id ps raft = record {
  config = record { node_id = id; node_name = codes "pi"; address = codes "10.0.0.1:7443" };
  peers = peers_of ps;
  raft = raft;
  iri_builder = record { domain = codes "picloud.local" };
}

abbrev metrics : List ℕ → RaftMetrics
metrics voters = record { current_leader = some 2; voter_ids = voters; learner_ids = [] }

abbrev identity : ClusterIdentity
identity = record {
  cluster_id = 77;
  domain = codes "picloud.local";
  created_at = 1;
  ca_fingerprint = codes "ab:cd";
  enrollment_mode = auto;
}
