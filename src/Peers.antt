-- ===== src/Peers.antt =====
-- pkg/peers/types.go and manager.go: the peers that a daemon knows. Each method holds the
-- manager's lock from its first statement to its last, so a call is one step. A registered peer
-- belongs to the manager; readers get copies. The times that a method reads are its arguments.
mod Samples
pub mod Registry
use buildozer.Common.{
  ℕ, ℤ, zero, suc, String, Bool, true, false, Option, none, some, List, [], ◌∷◌, ◌++◌, map,
  if◌then◌else◌, is_some, length, lookup, insert, delete,
}
use buildozer.Proto.Runtime.{Runtime}

pub record PeerInfo : Type 0 where
  pub id : String
  pub host : String
  pub port : ℤ
  pub runtimes : List Runtime
  pub is_alive : Bool
  pub discovered_at : ℕ
  pub last_seen_at : ℕ
  pub endpoint : String
  pub is_local : Bool

-- A call of one of the two callbacks.
pub data Notice : Type 0 where
  peer_discovered peer_offline : PeerInfo → Notice

-- The callbacks are set or not.
pub record Manager : Type 0 where
  pub peers : List (String × PeerInfo)
  pub local_peer : Option PeerInfo
  pub on_peer_discovered : Bool
  pub on_peer_offline : Bool

abbrev pub new_manager : Manager
new_manager = record {
  peers = [];
  local_peer = none;
  on_peer_discovered = false;
  on_peer_offline = false;
}

unfoldable pub set_local_peer : ℕ → ℕ → Option PeerInfo → Manager → Manager
set_local_peer now later none m = record m { local_peer = none }
set_local_peer now later (some peer) m = record m {
  local_peer =
      some (record peer {
        is_local = true;
        is_alive = true;
        discovered_at = now;
        last_seen_at = later;
      });
}

-- What the update of a known peer writes.
abbrev pub refreshed : ℕ → PeerInfo → PeerInfo → PeerInfo
refreshed now peer existing = record existing {
  host = peer.host;
  port = peer.port;
  runtimes = peer.runtimes;
  is_alive = true;
  last_seen_at = now;
  endpoint = peer.endpoint;
  is_local = peer.is_local;
}

abbrev pub discovered : ℕ → ℕ → PeerInfo → PeerInfo
discovered now later peer = record peer {
  discovered_at = now;
  last_seen_at = later;
  is_alive = true;
}

abbrev notify : Bool → Notice → List Notice
notify set notice = if set then notice ∷ [] else []

-- `RegisterPeer`: the manager, the answer and the callback's call.
unfoldable pub register_peer : ℕ → ℕ → Option PeerInfo → Manager → Manager × Bool × List Notice
unfolding lookup insert
register_peer now later none m = (m, false, [])
register_peer now later (some peer) m = elim (lookup peer.id m.peers) [
  | some existing ↦
      (record m { peers = insert peer.id (refreshed now peer existing) m.peers }, false, [])
  | none ↦ (
    record m { peers = insert peer.id (discovered now later peer) m.peers },
    true,
    notify m.on_peer_discovered (peer_discovered (discovered now later peer)),
  )
]

unfoldable pub get_peer : String → Manager → Option PeerInfo
unfolding lookup
get_peer id m = lookup id m.peers

-- The order is the map's, which Go does not promise.
unfoldable pub get_all_peers : Manager → List PeerInfo
get_all_peers m = map (λ entry. entry.1) m.peers

unfoldable pub get_all_peers_including_local : Manager → List PeerInfo
get_all_peers_including_local m = elim m.local_peer [
  | some peer ↦ peer ∷ map (λ entry. entry.1) m.peers
  | none ↦ map (λ entry. entry.1) m.peers
]

unfoldable pub remove_peer : String → Manager → Manager × List Notice
unfolding lookup delete
remove_peer id m = elim (lookup id m.peers) [
  | some peer ↦
      (record m { peers = delete id m.peers }, notify m.on_peer_offline (peer_offline peer))
  | none ↦ (m, [])
]

unfoldable pub mark_peer_offline : String → Manager → Manager × List Notice
unfolding lookup insert
mark_peer_offline id m = elim (lookup id m.peers) [
  | some peer ↦ (
    record m { peers = insert id (record peer { is_alive = false }) m.peers },
    notify m.on_peer_offline (peer_offline (record peer { is_alive = false })),
  )
  | none ↦ (m, [])
]

unfoldable pub peer_count : Manager → ℕ
peer_count m = length m.peers

unfoldable pub total_peer_count : Manager → ℕ
total_peer_count m = if is_some m.local_peer then suc (length m.peers) else length m.peers

unfoldable pub has_peer : String → Manager → Bool
unfolding lookup
has_peer id m = is_some (lookup id m.peers)

unfoldable pub clear : Manager → Manager
clear m = record m { peers = [] }

-- A call that changes the peers, at the times that it reads.
pub data Call : Type 0 where
  set_local register : Option PeerInfo → Call
  remove mark_offline : String → Call
  clear_all : Call

unfoldable pub step : ℕ → ℕ → Call → Manager → Manager × List Notice
unfolding set_local_peer register_peer remove_peer mark_peer_offline clear
step now later (set_local peer) m = (set_local_peer now later peer m, [])
step now later (register peer) m = let r = register_peer now later peer m in (r.0, r.2)
step now later (remove id) m = remove_peer id m
step now later (mark_offline id) m = mark_peer_offline id m
step now later clear_all m = (clear m, [])
