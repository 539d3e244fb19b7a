-- ===== src/Cluster/Discovery/Names.antt =====
-- What becomes of the name of a discovered peer: the resolution of its service keeps it up to date,
-- and the removal of its service does not find it.
use picloud.Prelude.{
  ℕ, ◌≡◌, ◌≢◌, refl, ap, sym, ◌∙◌, Bool, true, false, Option, none, some, List, [], ◌∷◌, ◌++◌,
  if◌then◌else◌, ◌==◌, arith, any, ==_refl, nat_beq, any-append,
}
use picloud.Prelude.Equality.{nat_eq, list_eq, ==_ne}
use picloud.Prelude.HashMap.{IsMap}
use picloud.Prelude.Texts.{Text, codes, split_head, split_head-free}
use picloud.Domain.Events.{Uuid}
use picloud.Cluster.Peers
use picloud.Cluster.Peers.{PeerInfo, PeerList, is_named}
use picloud.Cluster.Peers.Laws.{get-touch-add, get-remove_by_fullname, passes, add-touch-IsMap}
use picloud.Cluster.Discovery.{
  ServiceInfo, service_resolved, service_removed, handle_event, host_of, peer_of, trim_dots,
  resolve, add_first,
}

-- A host name that `register_self` makes keeps its `.local` when the trailing dots go.
trim_dots-host_of : (name : Text) → trim_dots (host_of name) ≡ name ++ codes ".local"
unfolding trim_dots host_of
trim_dots-host_of [] = refl
trim_dots-host_of (c ∷ []) = refl
trim_dots-host_of (c ∷ d ∷ s) = ground (arith, trim_dots-host_of (d ∷ s))

has_dot : Text → Bool
has_dot s = any (λ x. nat_beq x b'.') s

has_dot-host : (name : Text) → has_dot (name ++ codes ".local") ≡ true
unfolding has_dot
has_dot-host name = any-append (λ x. nat_beq x b'.') name (codes ".local") ∙ ground arith

never_named : (name fullname : Text) → (name ++ codes ".local" == split_head b'.' fullname) ≡ false
unfolding has_dot
never_named name fullname =
    ==_ne (name ++ codes ".local") (split_head b'.' fullname)
      (λ e. absurd (ground (arith, has_dot-host name, split_head-free b'.' fullname, ap has_dot e)))

not_removed :
    (name : Text) (id : Uuid) (fullname : Text) (t : PeerList) (p : PeerInfo)
    → Peers.get id t ≡ some p
    → p.node_name ≡ name ++ codes ".local"
    → IsMap t.peers
    → Peers.get id (Peers.remove_by_fullname fullname t) ≡ Peers.get id t
not_removed name id fullname t p h hn u =
    get-remove_by_fullname fullname id t u
    ∙ ap (λ o. if passes (is_named (split_head b'.' fullname)) o then none else o) h
    ∙ ap (λ n. if n == split_head b'.' fullname then none else some p) hn
    ∙ ap (λ b. if b then none else some p) (never_named name fullname)
    ∙ sym h

module _ (format : Text → ℕ → Text) where
  resolve-IsMap :
      (now later : ℕ) (local : Uuid) (o : Option Uuid) (info : ServiceInfo) (s : PeerList)
      → IsMap s.peers
      → IsMap (resolve format now later local o info s).peers
  resolve-IsMap now later local none info s u = u
  resolve-IsMap now later local (some id) info s u = ground (arith, first_IsMap info.addresses)
    where
      first_IsMap : (addrs : List Text) → IsMap (add_first format now later id addrs info s).peers
      first_IsMap [] = u
      first_IsMap (addr ∷ rest) = add-touch-IsMap now later (peer_of format now id addr info) id s u

  -- A resolved service of another node with an address leaves that node in the list, under the data
  -- of the service, seen now.
  get-handle_event :
      (now later : ℕ) (local node_id : Uuid) (addr : Text) (rest : List Text)
      → (info : ServiceInfo) (s : PeerList) → info.node_id ≡ some node_id
      → info.addresses ≡ addr ∷ rest
      → node_id ≢ local
      → Peers.get node_id (handle_event format now later local (service_resolved info) s)
        ≡ some (record (peer_of format now node_id addr info) { last_seen = later })
  unfolding handle_event peer_of
  get-handle_event now later local node_id addr rest info s hi ha hn = ground (
    arith,
    hi,
    ha,
    ==_ne node_id local hn,
    get-touch-add now later (peer_of format now node_id addr info) s,
  )

  -- The local node is never added to its own peer list.
  handle_event_self :
      (now later : ℕ) (local : Uuid) (info : ServiceInfo) (s : PeerList)
      → info.node_id ≡ some local
      → handle_event format now later local (service_resolved info) s ≡ s
  unfolding handle_event
  handle_event_self now later local info s h = ground (arith, h, ==_refl local)

  -- A peer whose service was resolved, with an address, under the host name which `register_self`
  -- announces is not removed by the removal of any service, its own included, from a list that held
  -- each id once.
  handle_event_removal_misses :
      (now later before after : ℕ) (local node_id : Uuid) (name addr fullname : Text)
      (rest : List Text)
      → (info : ServiceInfo) (s : PeerList) → info.node_id ≡ some node_id
      → info.addresses ≡ addr ∷ rest
      → info.hostname ≡ host_of name
      → node_id ≢ local
      → IsMap s.peers
      → let t = handle_event format now later local (service_resolved info) s in
        Peers.get node_id (handle_event format before after local (service_removed fullname) t)
        ≡ Peers.get node_id t
  unfolding handle_event peer_of
  handle_event_removal_misses now later before after local node_id name addr fullname rest info s hi
        ha hh hn u =
      let t = handle_event format now later local (service_resolved info) s in
      not_removed name node_id fullname t
        (record (peer_of format now node_id addr info) { last_seen = later })
        (get-handle_event now later local node_id addr rest info s hi ha hn)
        (ap trim_dots hh ∙ trim_dots-host_of name)
        (resolve-IsMap now later local info.node_id info s u)
