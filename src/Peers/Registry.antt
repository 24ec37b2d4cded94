-- ===== src/Peers/Registry.antt =====
-- What the peers' manager keeps of a peer: each peer's entry evolves on its own, and the times
-- and counts agree with the calls.
use buildozer.Common.{
  map, ap, sym, ℕ, suc, ◌≤◌, String, true, false, Option, none, some, List, [], ◌∷◌, ◌≡◌, refl,
  arith, if◌then◌else◌, length, lookup, str_eq, str_eq_iff, lookup-insert, lookup-delete, All, inl,
  inr, Option-cases, length-insert, insert-All, delete-All, lookup-All, ◌&&◌, not,
}
use buildozer.Peers.{
  get_all_peers, get_all_peers_including_local, total_peer_count, PeerInfo, Manager, refreshed,
  discovered, register_peer, get_peer, remove_peer, mark_peer_offline, peer_count, has_peer, Call,
  set_local, register, remove, mark_offline, clear_all, step,
}

-- One peer's entry, by the calls.
pub peer_step : ℕ → ℕ → Call → String → Option PeerInfo → Option PeerInfo
peer_step now later (register (some peer)) id none =
    if str_eq peer.id id then some (discovered now later peer) else none
peer_step now later (register (some peer)) id (some old) =
    if str_eq peer.id id then some (refreshed now peer old) else some old
peer_step now later (remove gone) id old = if str_eq gone id then none else old
peer_step now later (mark_offline gone) id (some old) =
    if str_eq gone id then some (record old { is_alive = false }) else some old
peer_step now later clear_all id old = none
peer_step now later _ id old = old

-- After any call, the entry of every ID is the one that this ID's own history gives: a call
-- about another peer leaves it alone.
pub get_peer-step :
    (now later : ℕ) (call : Call) (id : String) (m : Manager)
    → get_peer id (step now later call m).0 ≡ peer_step now later call id (get_peer id m)
unfolding get_peer step peer_step
get_peer-step now later (set_local none) id m = refl
get_peer-step now later (set_local (some peer)) id m = refl
get_peer-step now later (register none) id m = refl
get_peer-step now later (register (some peer)) id m = elim (Option-cases (lookup peer.id m.peers)) [
  | inl unknown ↦
      ground
        (arith, str_eq_iff peer.id id, lookup-insert peer.id id (discovered now later peer) m.peers)
  | inr (old, known) ↦
      ground
        (arith, str_eq_iff peer.id id, lookup-insert peer.id id (refreshed now peer old) m.peers)
]
get_peer-step now later (remove gone) id m =
    ground (arith, str_eq_iff gone id, lookup-delete gone id m.peers)
get_peer-step now later (mark_offline gone) id m = elim (Option-cases (lookup gone m.peers)) [
  | inl unknown ↦ ground (arith, str_eq_iff gone id)
  | inr (old, known) ↦
      ground
        (arith, str_eq_iff gone id, lookup-insert gone id (record old { is_alive = false }) m.peers)
]
get_peer-step now later clear_all id m = refl

-- What `RegisterPeer` answers, counts and announces: the answer is true exactly for an ID that
-- was not known, the count grows exactly then, the ID is known afterwards, and the discovery
-- callback runs once exactly for a new peer and a callback that is set.
register_peer-answer :
    (now later : ℕ) (peer : PeerInfo) (m : Manager)
    → let r = register_peer now later (some peer) m in
      (r.1 ≡ not (has_peer peer.id m))
      × (peer_count r.0 ≡ (if r.1 then suc (peer_count m) else peer_count m))
      × (has_peer peer.id r.0 ≡ true)
      × (length r.2 ≡ (if r.1 && m.on_peer_discovered then 1 else 0))
unfolding register_peer has_peer peer_count
register_peer-answer now later peer m = elim (Option-cases (lookup peer.id m.peers)) [
  | inl unknown ↦
      let x = discovered now later peer in
      ground (
        arith,
        str_eq_iff peer.id peer.id,
        length-insert peer.id x m.peers,
        lookup-insert peer.id peer.id x m.peers,
      )
  | inr (old, known) ↦
      let x = refreshed now peer old in
      ground (
        arith,
        str_eq_iff peer.id peer.id,
        length-insert peer.id x m.peers,
        lookup-insert peer.id peer.id x m.peers,
      )
]

-- An entry stands under its own ID, and was seen last between its discovery and `t`.
abbrev Known : ℕ → String × PeerInfo → Type 0
Known t (id, peer) =
    (id ≡ peer.id) × (peer.discovered_at ≤ peer.last_seen_at) × (peer.last_seen_at ≤ t)

-- The state of the manager by the time `t`.
abbrev pub IsWellFormed : ℕ → Manager → Type 0
IsWellFormed t m = All (Known t) m.peers

Known-later :
    (t u : ℕ) (ps : List (String × PeerInfo)) → t ≤ u → All (Known t) ps → All (Known u) ps
Known-later t u [] h k = k
Known-later t u ((id, p) ∷ ps) h (k, ks) = ((k.0, k.1, omega (arith, k.2)), Known-later t u ps h ks)

-- Every call keeps the manager well-formed, if the clock does not run backwards: entries stay
-- under their own IDs, and no peer was seen last before it was discovered.
pub step-IsWellFormed :
    (t now later : ℕ) (call : Call) (m : Manager)
    → t ≤ now
    → now ≤ later
    → IsWellFormed t m
    → IsWellFormed later (step now later call m).0
unfolding step
step-IsWellFormed t now later (set_local none) m a b h = Known-later t later m.peers (omega arith) h
step-IsWellFormed t now later (set_local (some peer)) m a b h =
    Known-later t later m.peers (omega arith) h
step-IsWellFormed t now later (register none) m a b h = Known-later t later m.peers (omega arith) h
step-IsWellFormed t now later (register (some peer)) m a b h =
    let kept = Known-later t later m.peers (omega arith) h in
    elim (Option-cases (lookup peer.id m.peers)) [
      | inl unknown ↦
          rw (unknown, register_peer)
            (insert-All (Known later) peer.id (discovered now later peer) m.peers kept
              (refl, omega arith, omega arith))
      | inr (old, known) ↦
          let own = lookup-All (Known t) peer.id m.peers old h known in
          rw (known, register_peer)
            (insert-All (Known later) peer.id (refreshed now peer old) m.peers kept
              (own.0, omega (arith, own.1, own.2), omega arith))
    ]
step-IsWellFormed t now later (remove id) m a b h =
    let kept = Known-later t later m.peers (omega arith) h in
    elim (Option-cases (lookup id m.peers)) [
      | inl unknown ↦ rw (unknown, remove_peer) kept
      | inr (old, known) ↦ rw (known, remove_peer) (delete-All (Known later) id m.peers kept)
    ]
step-IsWellFormed t now later (mark_offline id) m a b h =
    let kept = Known-later t later m.peers (omega arith) h in
    elim (Option-cases (lookup id m.peers)) [
      | inl unknown ↦ rw (unknown, mark_peer_offline) kept
      | inr (old, known) ↦
          rw (known, mark_peer_offline)
            (insert-All (Known later) id (record old { is_alive = false }) m.peers kept
              (lookup-All (Known later) id m.peers old kept known))
    ]
step-IsWellFormed t now later clear_all m a b h = _

length-map : (m : List (String × PeerInfo)) → length (map (λ entry. entry.1) m) ≡ length m
length-map [] = refl
length-map (entry ∷ m) = ap suc (length-map m)

-- `PeerCount` is the number of peers that `GetAllPeers` returns, and `TotalPeerCount` that of
-- `GetAllPeersIncludingLocal`.
pub peer_count-get_all_peers :
    (m : Manager)
    → (peer_count m ≡ length (get_all_peers m))
      × (total_peer_count m ≡ length (get_all_peers_including_local m))
unfolding peer_count get_all_peers total_peer_count get_all_peers_including_local
peer_count-get_all_peers m = elim (Option-cases m.local_peer) [
  | inl absent ↦ (sym (length-map m.peers), rw absent (sym (length-map m.peers)))
  | inr (peer, here) ↦ (sym (length-map m.peers), rw here (ap suc (sym (length-map m.peers))))
]
