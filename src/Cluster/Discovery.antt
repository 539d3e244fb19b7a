-- ===== src/Cluster/Discovery.antt =====
-- `handle_event` and `service_type_for_domain` of crates/picloud-cluster/src/discovery.rs. What
-- mdns-sd reports of a service is a record of the values that the code reads: the node id and the
-- port are those of its properties, `none` where a property is missing or does not parse.
pub mod Names
pub mod Scoping
use picloud.Prelude.{
  take, ℕ, ◌+◌, ◌*◌, ◌/◌, ◌%◌, ◌^◌, ◌-◌, Bool, true, false, ◌||◌, Option, none, some, List, [], ◌∷◌,
  ◌++◌, if◌then◌else◌, ◌==◌, ltb, nat_beq,
}
use picloud.Prelude.Equality.{nat_eq, list_eq}
use picloud.Prelude.Texts.{Text, codes, is_empty}
use picloud.Domain.Events.{Uuid}
use picloud.Cluster.Peers
use picloud.Cluster.Peers.{PeerInfo, PeerList}

pub record ServiceInfo : Type 0 where
  pub node_id : Option Uuid
  pub http_port : Option ℕ
  pub port : ℕ
  pub addresses : List Text
  pub hostname : Text

pub data ServiceEvent : Type 0 where
  service_resolved : ServiceInfo → ServiceEvent
  service_removed : Text → ServiceEvent
  search_started search_stopped other : ServiceEvent

-- `trim_end_matches('.')`.
unfoldable pub trim_dots : Text → Text
trim_dots [] = []
trim_dots (c ∷ s) = elim (trim_dots s) [
  | [] ↦ if nat_beq c b'.' then [] else c ∷ []
  | d ∷ t ↦ c ∷ d ∷ t
]

abbrev port_or : Option ℕ → ℕ → ℕ
port_or none d = d
port_or (some p) d = p

-- The peer of a resolved service; the text of `ip:port` is made by `format`.
unfoldable pub peer_of : (Text → ℕ → Text) → ℕ → Uuid → Text → ServiceInfo → PeerInfo
unfolding trim_dots
peer_of format now node_id addr info = record {
  node_id = node_id;
  node_name = trim_dots info.hostname;
  address = format addr (port_or info.http_port info.port);
  ip = addr;
  port = port_or info.http_port info.port;
  last_seen = now;
}

abbrev pub add_first :
    (Text → ℕ → Text) → ℕ → ℕ → Uuid → List Text → ServiceInfo → PeerList → PeerList
add_first format now later node_id [] info s = s
add_first format now later node_id (addr ∷ rest) info s =
    Peers.touch later node_id (Peers.add now (peer_of format now node_id addr info) s).1

abbrev pub resolve :
    (Text → ℕ → Text) → ℕ → ℕ → Uuid → Option Uuid → ServiceInfo → PeerList → PeerList
resolve format now later local_node_id none info s = s
resolve format now later local_node_id (some node_id) info s =
    if node_id == local_node_id then s else add_first format now later node_id info.addresses info s

-- `now` and `later` are the times read by the add and by the touch.
unfoldable pub handle_event : (Text → ℕ → Text) → ℕ → ℕ → Uuid → ServiceEvent → PeerList → PeerList
handle_event format now later local_node_id (service_resolved info) s =
    resolve format now later local_node_id info.node_id info s
handle_event format now later local_node_id (service_removed fullname) s =
    Peers.remove_by_fullname fullname s
handle_event format now later local_node_id _ s = s

-- What `register_self` announces: the host name of a node, and the full name of its service.
unfoldable pub host_of : Text → Text
host_of node_name = node_name ++ codes ".local."

abbrev default_service_type : Text
default_service_type = codes "_picloud._tcp.local."

-- `h = h * 33 + b` over the bytes, in 64 bits.
unfoldable pub hash_bytes : ℕ → Text → ℕ
hash_bytes h [] = h
hash_bytes h (b ∷ s) = hash_bytes ((h * 33 + b) % 2 ^ 64) s

unfoldable pub hex_digit : ℕ → ℕ
hex_digit n = if ltb n 10 then b'0' + n else b'a' + (n - 10)

-- The last `k` hexadecimal digits of a number: `{:016x}` at 16.
unfoldable pub hex_fixed : ℕ → ℕ → Text
unfolding hex_digit
hex_fixed ℕ.zero n = []
hex_fixed (ℕ.suc k) n = hex_fixed k (n / 16) ++ hex_digit (n % 16) ∷ []

unfoldable pub service_type_for_domain : Text → Text
unfolding hash_bytes hex_fixed
service_type_for_domain domain =
    if domain == codes "picloud.local" || is_empty domain
    then default_service_type
    else codes "_pc-" ++ (take 8 (hex_fixed 16 (hash_bytes 5381 domain)) ++ codes "._tcp.local.")
