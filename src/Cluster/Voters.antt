-- ===== src/Cluster/Voters.antt =====
-- `VoterConfigurationManager for MdnsCluster` of crates/picloud-cluster/src/implementation.rs. The
-- membership change of openraft is a parameter: given the new voter set and the state it gives the
-- state after the change, or nothing when it fails. So is the text of a UUID.
pub mod Changes
use picloud.Prelude.{
  ℕ, ◌+◌, ◌*◌, ◌^◌, Bool, true, false, Option, none, some, List, [], ◌∷◌, ◌++◌, map, length, take,
  find, ltb, nat_beq, retain, not, if◌then◌else◌, ◌==◌,
}
use picloud.Prelude.Equality.{nat_eq}
use picloud.Prelude.Texts.{Text, codes}
use picloud.Domain.Error.{
  Result, ok, err, ◌>>=◌, PiCloudError, not_leader, voter_config_change_failed, raft_rejected,
  last_voter, empty_voter_set,
}
use picloud.Domain.Events.{Uuid}
use picloud.Domain.Iri.{ResourceIri, node}
use picloud.Cluster.Peers
use picloud.Cluster.Peers.{PeerInfo}
use picloud.Cluster.Membership.{MdnsCluster, RaftMetrics, node_id_from_uuid, find_by_raft_id}

-- `BTreeSet<u64>`: ascending, each once.
unfoldable pub set_insert : ℕ → List ℕ → List ℕ
set_insert n [] = n ∷ []
set_insert n (m ∷ s) =
    if ltb n m then n ∷ m ∷ s else if nat_beq n m then m ∷ s else m ∷ set_insert n s

unfoldable pub collect : List ℕ → List ℕ
unfolding set_insert
collect [] = []
collect (n ∷ ns) = set_insert n (collect ns)

pub record VoterConfigChangeResult : Type 0 where
  pub voter_count : ℕ
  pub new_voters : List Uuid

pub data VoterRole : Type 0 where
  voter learner : VoterRole

pub record VoterInfo : Type 0 where
  pub node_id : Uuid
  pub node_iri : ResourceIri
  pub role : VoterRole

abbrev pub id_or : Option PeerInfo → Uuid → Uuid
id_or none id = id
id_or (some p) id = p.node_id

-- `Uuid::from_u64_pair(0, raft_id)` is the number itself.
unfoldable pub uuid_from_raft_id : MdnsCluster → ℕ → Uuid
unfolding node_id_from_uuid find_by_raft_id
uuid_from_raft_id c raft_id =
    if node_id_from_uuid c.config.node_id == raft_id
    then c.config.node_id
    else id_or (find_by_raft_id raft_id (Peers.all c.peers)) raft_id

abbrev name_or : Option PeerInfo → Text → Text
name_or none name = name
name_or (some p) name = p.node_name

unfoldable node_name_from_uuid : (Uuid → Text) → MdnsCluster → Uuid → Text
node_name_from_uuid to_string c uuid =
    if uuid == c.config.node_id
    then c.config.node_name
    else name_or (find (λ p. p.node_id == uuid) (Peers.all c.peers))
        (codes "node-" ++ take 8 (to_string uuid))

abbrev pub change_result : MdnsCluster → List ℕ → VoterConfigChangeResult
change_result c new_voter_set = record {
  voter_count = length (map (uuid_from_raft_id c) new_voter_set);
  new_voters = map (uuid_from_raft_id c) new_voter_set;
}

module _ (change_membership : List ℕ → RaftMetrics → Option RaftMetrics) where
  abbrev pub changed :
      Option RaftMetrics → List ℕ → MdnsCluster → Result VoterConfigChangeResult × MdnsCluster
  changed none new_voter_set c = (err (voter_config_change_failed raft_rejected), c)
  changed (some raft) new_voter_set c =
      (ok (change_result c new_voter_set), record c { raft = some raft })

  abbrev pub promote_in :
      Option RaftMetrics → ℕ → MdnsCluster → Result VoterConfigChangeResult × MdnsCluster
  promote_in none raft_id c = (err not_leader, c)
  promote_in (some raft) raft_id c =
      let new_voter_set = set_insert raft_id (collect raft.voter_ids) in
      changed (change_membership new_voter_set raft) new_voter_set c

  unfoldable pub promote_to_voter :
      Uuid → MdnsCluster → Result VoterConfigChangeResult × MdnsCluster
  unfolding node_id_from_uuid set_insert collect uuid_from_raft_id
  promote_to_voter node_id c = promote_in c.raft (node_id_from_uuid node_id) c

  -- The change to a set that must not be empty.
  abbrev pub change_nonempty :
      PiCloudError
      → List ℕ
      → RaftMetrics
      → MdnsCluster
      → Result VoterConfigChangeResult × MdnsCluster
  change_nonempty e [] raft c = (err e, c)
  change_nonempty e (v ∷ vs) raft c = changed (change_membership (v ∷ vs) raft) (v ∷ vs) c

  abbrev pub demote_in :
      Option RaftMetrics → ℕ → MdnsCluster → Result VoterConfigChangeResult × MdnsCluster
  demote_in none raft_id c = (err not_leader, c)
  demote_in (some raft) raft_id c =
      change_nonempty (voter_config_change_failed last_voter)
        (collect (retain (λ v. not (nat_beq v raft_id)) raft.voter_ids)) raft c

  unfoldable pub demote_to_learner :
      Uuid → MdnsCluster → Result VoterConfigChangeResult × MdnsCluster
  unfolding node_id_from_uuid collect uuid_from_raft_id
  demote_to_learner node_id c = demote_in c.raft (node_id_from_uuid node_id) c

  abbrev pub change_in :
      Option RaftMetrics → List Uuid → MdnsCluster → Result VoterConfigChangeResult × MdnsCluster
  change_in none ids c = (err not_leader, c)
  change_in (some raft) ids c =
      change_nonempty (voter_config_change_failed empty_voter_set)
        (collect (map node_id_from_uuid ids)) raft c

  unfoldable pub change_voter_set :
      List Uuid → MdnsCluster → Result VoterConfigChangeResult × MdnsCluster
  unfolding node_id_from_uuid collect uuid_from_raft_id
  change_voter_set new_voter_ids c = change_in c.raft new_voter_ids c

abbrev voter_info : (Uuid → Text) → MdnsCluster → VoterRole → ℕ → VoterInfo
voter_info to_string c role raft_id = record {
  node_id = uuid_from_raft_id c raft_id;
  node_iri = node c.iri_builder (node_name_from_uuid to_string c (uuid_from_raft_id c raft_id));
  role = role;
}

abbrev list_in : (Uuid → Text) → Option RaftMetrics → MdnsCluster → Result (List VoterInfo)
list_in to_string none c = err not_leader
list_in to_string (some raft) c = ok (
    map (voter_info to_string c voter) raft.voter_ids
    ++ map (voter_info to_string c learner) raft.learner_ids)

unfoldable list_voters : (Uuid → Text) → MdnsCluster → Result (List VoterInfo)
unfolding uuid_from_raft_id node_name_from_uuid
list_voters to_string c = list_in to_string c.raft c
