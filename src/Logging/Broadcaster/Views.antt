-- ===== src/Logging/Broadcaster/Views.antt =====
-- What a step of the broadcaster is to do, and what it does to one channel.
use buildozer.Common.{
  ℕ, ltb, leb, ◌==◌, Bool, true, false, ◌≡◌, ap, subst, arith, inl, inr, Bool-cases, List, [], ◌∷◌,
  if◌then◌else◌, length,
}
use buildozer.Errors.{Outcome, done}
use buildozer.Logging.Broadcaster.{
  LogEntry, EntryChannel, Store, set_channel, LogBroadcaster, capacity, pushed, is_subscribed,
  rest_of, taken, BroadcasterStep,
}
use buildozer.Logging.Broadcaster.Subscriptions.{AreOpen, AreUsable, view_of, own_step, length-snoc}

-- What a step comes to returns, leaves the broadcaster usable, and does its own step to each
-- channel.
abbrev pub StepsWell : Bool → BroadcasterStep → Outcome LogBroadcaster → LogBroadcaster → Type 0
StepsWell locked s r b =
    (after : LogBroadcaster) × (r ≡ done after)
    × AreUsable after
    × ((id : ℕ) → view_of id after ≡ own_step locked s b.next_sub_id id (view_of id b))

pub pushed-closed : (entry : LogEntry) (c : EntryChannel) → (pushed entry c).closed ≡ c.closed
pushed-closed entry c = ground (arith, Bool-cases (ltb (length c.buffer) capacity))

pub pushed-fits :
    (entry : LogEntry) (c : EntryChannel)
    → leb (length c.buffer) capacity ≡ true
    → leb (length (pushed entry c).buffer) capacity ≡ true
pushed-fits entry c h = elim (Bool-cases (ltb (length c.buffer) capacity)) [
  | inl room ↦ ground (arith, room, length-snoc entry c.buffer)
  | inr full ↦ rw full h
]

pub set_channel-at :
    (f : EntryChannel → EntryChannel) (other : ℕ) (store : Store) (id : ℕ)
    → set_channel other (f (store other)) store id
      ≡ (if id == other then f (store id) else store id)
set_channel-at f other store id = elim (Bool-cases (id == other)) [
  | inl same ↦
      let e : other ≡ id = ground (arith, same) in ground (arith, same, ap (λ n. f (store n)) e)
  | inr differ ↦ ground (arith, differ)
]

pub is_subscribed-same :
    (id other : ℕ) (ids : List ℕ)
    → (id == other) ≡ true
    → is_subscribed id ids ≡ is_subscribed other ids
is_subscribed-same id other ids same =
    let e : id ≡ other = ground (arith, same) in ap (λ n. is_subscribed n ids) e

pub taken-fits :
    (c : EntryChannel)
    → leb (length c.buffer) capacity ≡ true
    → leb (length (taken c).buffer) capacity ≡ true
taken-fits c h = go c.buffer h
  where
    go :
        (xs : List LogEntry)
        → leb (length xs) capacity ≡ true
        → leb (length (rest_of xs)) capacity ≡ true
    go [] k = k
    go (x ∷ xs) k = ground (arith, k)

pub AreOpen-at :
    (store : Store) (id : ℕ) (ids : List ℕ)
    → is_subscribed id ids ≡ true
    → AreOpen store ids
    → (store id).closed ≡ false
AreOpen-at store id [] listed o = absurd (ground (arith, listed))
AreOpen-at store id (first ∷ ids) listed o = elim (Bool-cases (id == first)) [
  | inl same ↦
      let e : first ≡ id = ground (arith, same) in subst (λ (n : ℕ). (store n).closed ≡ false) e o.0
  | inr differ ↦ AreOpen-at store id ids (ground (arith, listed, differ)) o.1
]
