-- ===== src/Cluster/Peers/Laws.antt =====
-- What the peer list promises.
use picloud.Prelude.{
  ℕ, ◌≡◌, refl, ◌∙◌, Bool, true, false, not, Option, none, some, List, [], ◌∷◌, if◌then◌else◌, ◌==◌,
  arith, nat_beq,
}
use picloud.Prelude.Equality.{nat_eq, list_eq}
use picloud.Prelude.HashMap
use picloud.Prelude.HashMap.{
  HashMap, IsMap, get-insert, get-remove, insert-IsMap, contains_key_of_get, get_of_contains_key,
}
use picloud.Prelude.Texts.{Text, split_head}
use picloud.Domain.Events.{Uuid}
use picloud.Cluster.Peers.{
  PeerInfo, PeerList, add, touch, sweep_stale, remove_by_fullname, ids_where, remove_ids,
  removed_one, is_stale, is_named, get, contains, touch_in,
}

-- Each id once, and each peer under its own id.
pub record IsWellFormed (s : PeerList) : Type 0 where
  pub unique : IsMap s.peers
  pub keyed : (id : Uuid) (p : PeerInfo) → get id s ≡ some p → p.node_id ≡ id

-- After an add the peer is there with its data, stamped with the time if it was unknown, which is
-- what the result says; the other peers stay.
get-add :
    (now : ℕ) (peer : PeerInfo) (id : Uuid) (s : PeerList)
    → let (is_new, t) = add now peer s in
      (is_new ≡ not (contains peer.node_id s))
      × (get id t ≡ (
          if peer.node_id == id
          then some (record peer { last_seen = if is_new then now else peer.last_seen })
          else get id s))
unfolding add get contains
get-add now peer id s = ground (
  arith,
  get-insert s.peers peer.node_id id peer,
  get-insert s.peers peer.node_id id (record peer { last_seen = now }),
)

mem_ids : (ids : List Uuid) → Uuid → Bool
mem_ids [] id = false
mem_ids (i ∷ ids) id = elim (nat_beq i id) [ true ↦ true | false ↦ mem_ids ids id ]

get-removed_one :
    (i id : Uuid) (s : PeerList)
    → get id (removed_one (HashMap.get s.peers i) i s) ≡ (if nat_beq i id then none else get id s)
unfolding get
get-removed_one i id s = ground (arith, get-remove s.peers i id)

get-remove_ids :
    (ids : List Uuid) (id : Uuid) (s : PeerList)
    → get id (remove_ids ids s) ≡ (if mem_ids ids id then none else get id s)
unfolding remove_ids mem_ids
get-remove_ids [] id s = refl
get-remove_ids (i ∷ ids) id s =
    ground (
      arith,
      get-remove_ids ids id (removed_one (HashMap.get s.peers i) i s),
      get-removed_one i id s,
    )

mem-ids_where-absent :
    (p : PeerInfo → Bool) (m : HashMap Uuid PeerInfo) (id : Uuid)
    → HashMap.contains_key m id ≡ false
    → mem_ids (ids_where p m) id ≡ false
unfolding ids_where mem_ids HashMap.contains_key
mem-ids_where-absent p [] id h = refl
mem-ids_where-absent p ((i, peer) ∷ m) id h = ground (arith, mem-ids_where-absent p m id)

abbrev pub passes : (PeerInfo → Bool) → Option PeerInfo → Bool
passes p none = false
passes p (some peer) = p peer

mem-ids_where :
    (p : PeerInfo → Bool) (m : HashMap Uuid PeerInfo) (id : Uuid)
    → IsMap m
    → mem_ids (ids_where p m) id ≡ passes p (HashMap.get m id)
unfolding ids_where mem_ids HashMap.get
mem-ids_where p [] id u = refl
mem-ids_where p ((i, peer) ∷ m) id u =
    ground
      (arith, mem-ids_where p m id u.1, mem-ids_where-absent p m i u.0, get_of_contains_key m i u.0)

-- In a list that holds each id once, a sweep drops exactly the peers that were not seen for longer
-- than the limit, and keeps the others as they were.
get-sweep_stale :
    (now max_age : ℕ) (id : Uuid) (s : PeerList)
    → IsMap s.peers
    → get id (sweep_stale now max_age s)
      ≡ (if passes (is_stale now max_age) (get id s) then none else get id s)
unfolding sweep_stale get
get-sweep_stale now max_age id s u =
    ground (arith, unfold_get, mem-ids_where (is_stale now max_age) s.peers id u)
  where
    unfold_get : HashMap.get (remove_ids (ids_where (is_stale now max_age) s.peers) s).peers id ≡ (
        if mem_ids (ids_where (is_stale now max_age) s.peers) id
        then none
        else HashMap.get s.peers id)
    unfold_get = get-remove_ids (ids_where (is_stale now max_age) s.peers) id s

-- A removal by full name drops exactly the peers whose node name is the instance name in it.
pub get-remove_by_fullname :
    (fullname : Text) (id : Uuid) (s : PeerList)
    → IsMap s.peers
    → get id (remove_by_fullname fullname s)
      ≡ (if passes (is_named (split_head b'.' fullname)) (get id s) then none else get id s)
unfolding remove_by_fullname get
get-remove_by_fullname fullname id s u =
    ground (arith, unfold_get, mem-ids_where (is_named (split_head b'.' fullname)) s.peers id u)
  where
    ids : List Uuid
    ids = ids_where (is_named (split_head b'.' fullname)) s.peers

    unfold_get :
        HashMap.get (remove_ids ids s).peers id
        ≡ (if mem_ids ids id then none else HashMap.get s.peers id)
    unfold_get = get-remove_ids ids id s

add-IsMap :
    (now : ℕ) (peer : PeerInfo) (s : PeerList) → IsMap s.peers → IsMap (add now peer s).1.peers
unfolding add
add-IsMap now peer s u = ground (
  arith,
  insert-IsMap s.peers peer.node_id peer u,
  insert-IsMap s.peers peer.node_id (record peer { last_seen = now }) u,
)

touch_in-IsMap :
    (o : Option PeerInfo) (now : ℕ) (id : Uuid) (s : PeerList)
    → IsMap s.peers
    → IsMap (touch_in o now id s).peers
touch_in-IsMap none now id s u = u
touch_in-IsMap (some p) now id s u = insert-IsMap s.peers id (record p { last_seen = now }) u

-- Adding and touching keep one entry for each id.
pub add-touch-IsMap :
    (now later : ℕ) (peer : PeerInfo) (id : Uuid) (s : PeerList)
    → IsMap s.peers
    → IsMap (touch later id (add now peer s).1).peers
unfolding touch
add-touch-IsMap now later peer id s u =
    touch_in-IsMap (HashMap.get (add now peer s).1.peers id) later id (add now peer s).1
      (add-IsMap now peer s u)

touch_in-get :
    (o : Option PeerInfo) (now : ℕ) (id : Uuid) (s : PeerList)
    → get id s ≡ o
    → get id (touch_in o now id s)
      ≡ (elim o [ none ↦ none | some p ↦ some (record p { last_seen = now }) ])
unfolding get
touch_in-get none now id s h = h
touch_in-get (some p) now id s h =
    ground (arith, get-insert s.peers id id (record p { last_seen = now }))

-- After an add and a touch, as discovery makes them, the peer is there with its data, seen at the
-- time of the touch.
pub get-touch-add :
    (now later : ℕ) (peer : PeerInfo) (s : PeerList)
    → get peer.node_id (touch later peer.node_id (add now peer s).1)
      ≡ some (record peer { last_seen = later })
unfolding touch get
get-touch-add now later peer s =
    let t = (add now peer s).1 in
    touch_in-get (get peer.node_id t) later peer.node_id t refl
    ∙ ground (arith, get-add now peer peer.node_id s)
