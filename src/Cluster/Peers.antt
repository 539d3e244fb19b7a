-- ===== src/Cluster/Peers.antt =====
-- `PeerList` of crates/picloud-cluster/src/peers.rs. The lock is held for the whole of each call.
-- `removed` is what the removal channel was given, in order. Times are of the monotonic clock.
pub mod Laws
use picloud.Prelude.{
  ℕ, ◌+◌, ◌-◌, Bool, true, false, not, Option, none, some, List, [], ◌∷◌, ◌++◌, ltb, if◌then◌else◌,
  ◌==◌,
}
use picloud.Prelude.Equality.{nat_eq, list_eq}
use picloud.Prelude.HashMap
use picloud.Prelude.HashMap.{HashMap}
use picloud.Prelude.Texts.{Text, split_head}
use picloud.Domain.Events.{Uuid}

pub record PeerInfo : Type 0 where
  pub node_id : Uuid
  pub node_name : Text
  pub address : Text
  pub ip : Text
  pub port : ℕ
  pub last_seen : ℕ

pub record PeerList : Type 0 where
  pub peers : HashMap Uuid PeerInfo
  pub removed : List PeerInfo

unfoldable pub new : PeerList
new = record { peers = []; removed = [] }

-- A new peer is stamped with the time; an update keeps the stamp that it comes with.
unfoldable pub add : ℕ → PeerInfo → PeerList → Bool × PeerList
add now peer s =
    if HashMap.contains_key s.peers peer.node_id
    then (false, record s { peers = HashMap.insert s.peers peer.node_id peer })
    else (
      true,
      record s { peers = HashMap.insert s.peers peer.node_id (record peer { last_seen = now }) },
    )

abbrev pub touch_in : Option PeerInfo → ℕ → Uuid → PeerList → PeerList
touch_in none now node_id s = s
touch_in (some peer) now node_id s = record s {
  peers = HashMap.insert s.peers node_id (record peer { last_seen = now });
}

unfoldable pub touch : ℕ → Uuid → PeerList → PeerList
touch now node_id s = touch_in (HashMap.get s.peers node_id) now node_id s

-- The ids of the entries that pass the test, and the loop that removes and reports them.
unfoldable pub ids_where : (PeerInfo → Bool) → HashMap Uuid PeerInfo → List Uuid
ids_where p [] = []
ids_where p ((id, peer) ∷ m) = let rest = ids_where p m in if p peer then id ∷ rest else rest

abbrev pub removed_one : Option PeerInfo → Uuid → PeerList → PeerList
removed_one none id s = s
removed_one (some p) id s = record {
  peers = HashMap.remove s.peers id;
  removed = s.removed ++ p ∷ [];
}

unfoldable pub remove_ids : List Uuid → PeerList → PeerList
remove_ids [] s = s
remove_ids (id ∷ ids) s = remove_ids ids (removed_one (HashMap.get s.peers id) id s)

-- `now.duration_since(p.last_seen) > max_age`; a duration stops at 0.
abbrev pub is_stale : ℕ → ℕ → PeerInfo → Bool
is_stale now max_age p = ltb max_age (now - p.last_seen)

unfoldable pub sweep_stale : ℕ → ℕ → PeerList → PeerList
unfolding ids_where remove_ids
sweep_stale now max_age s = remove_ids (ids_where (is_stale now max_age) s.peers) s

unfoldable pub remove : Uuid → PeerList → Option PeerInfo × PeerList
remove node_id s =
    (HashMap.get s.peers node_id, removed_one (HashMap.get s.peers node_id) node_id s)

abbrev pub is_named : Text → PeerInfo → Bool
is_named instance_name p = p.node_name == instance_name

-- The instance name is the text before the first dot.
unfoldable pub remove_by_fullname : Text → PeerList → PeerList
unfolding ids_where remove_ids
remove_by_fullname fullname s =
    remove_ids (ids_where (is_named (split_head b'.' fullname)) s.peers) s

unfoldable pub all : PeerList → List PeerInfo
all s = HashMap.values s.peers

unfoldable pub get : Uuid → PeerList → Option PeerInfo
get node_id s = HashMap.get s.peers node_id

unfoldable pub contains : Uuid → PeerList → Bool
contains node_id s = HashMap.contains_key s.peers node_id
