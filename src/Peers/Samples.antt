-- ===== src/Peers/Samples.antt =====
-- A manager with one peer, on which the theorems about it are applied.
use buildozer.Common.{pos, true, false, none, some, [], ◌∷◌, ◌≡◌, refl, arith}
use buildozer.Peers.{
  PeerInfo, Manager, discovered, register_peer, get_peer, register, mark_offline, step,
}
use buildozer.Peers.Registry.{peer_step, get_peer-step, IsWellFormed, step-IsWellFormed}

abbrev builder : PeerInfo
builder = record {
  id = "builder";
  host = "10.0.0.2";
  port = pos 6789;
  runtimes = [];
  is_alive = false;
  discovered_at = 0;
  last_seen_at = 0;
  endpoint = "10.0.0.2:6789";
  is_local = false;
}

abbrev manager : Manager
manager = record {
  peers = ("builder", discovered 3 4 builder) ∷ [];
  local_peer = none;
  on_peer_discovered = true;
  on_peer_offline = true;
}

get_peer-step_example :
    get_peer "builder" (step 5 6 (mark_offline "builder") manager).0
    ≡ peer_step 5 6 (mark_offline "builder") "builder" (get_peer "builder" manager)
get_peer-step_example = get_peer-step 5 6 (mark_offline "builder") "builder" manager

abbrev registered : Manager
registered = (register_peer 5 6 (some builder) manager).0

step-IsWellFormed_example : IsWellFormed 8 (step 7 8 (register (some builder)) manager).0
step-IsWellFormed_example =
    step-IsWellFormed 5 7 8 (register (some builder)) manager (omega arith) (omega arith)
      ((refl, omega arith, omega arith), tt)
