-- ===== src/Logging/Broadcaster/Subscriptions.antt =====
-- What the broadcaster does to each of its channels, and that it never panics.
use buildozer.Common.{
  ℕ, suc, ltb, leb, ◌==◌, Bool, true, false, ◌≡◌, refl, ◌∙◌, ap, subst, arith, inl, inr, Bool-cases,
  List, [], ◌∷◌, ◌++◌, if◌then◌else◌, length, All, map, Option, some, get_elem?, set_elem,
}
use buildozer.Errors.{Outcome, done, panic, ◌>>=◌}
use buildozer.Logging.Broadcaster.{
  LogEntry, EntryChannel, Store, set_channel, LogBroadcaster, new_channel, capacity, pushed,
  on_open, on_each, shut, is_subscribed, without_id, taken, Broadcasting, BroadcasterStep, begins,
  sends, subscribes, unsubscribes, closes_all, takes,
}

abbrev pub AreDistinctIds : List ℕ → Type 0
AreDistinctIds [] = Unit
AreDistinctIds (id ∷ ids) = (is_subscribed id ids ≡ false) × AreDistinctIds ids

abbrev pub AreOpen : Store → List ℕ → Type 0
AreOpen store ids = All (λ id. (store id).closed ≡ false) ids

-- The channels of others are changed.
pub AreOpen-set :
    (store : Store) (id : ℕ) (c : EntryChannel) (ids : List ℕ)
    → is_subscribed id ids ≡ false
    → AreOpen store ids
    → AreOpen (set_channel id c store) ids
AreOpen-set store id c [] h o = tt
AreOpen-set store id c (other ∷ ids) h o = elim (Bool-cases (id == other)) [
  | inl same ↦ absurd (ground (arith, h, same))
  | inr differ ↦
      (ground (arith, differ, o.0), AreOpen-set store id c ids (ground (arith, h, differ)) o.1)
]

abbrev pub on_subscribed : (EntryChannel → EntryChannel) → List ℕ → Store → Store
on_subscribed f ids store = λ id. if is_subscribed id ids then f (store id) else store id

-- The first channel is changed before the others.
on_subscribed-cons :
    (f : EntryChannel → EntryChannel) (first : ℕ) (ids : List ℕ) (store : Store) (id : ℕ)
    → is_subscribed first ids ≡ false
    → on_subscribed f ids (set_channel first (f (store first)) store) id
      ≡ on_subscribed f (first ∷ ids) store id
on_subscribed-cons f first ids store id h = elim (Bool-cases (id == first)) [
  | inl same ↦
      let e : first ≡ id = ground (arith, same) in
      let absent : is_subscribed id ids ≡ false =
        subst (λ (n : ℕ). is_subscribed n ids ≡ false) e h in
      ground (arith, same, absent, ap (λ n. f (store n)) e)
  | inr differ ↦ ground (arith, differ)
]

pub on_open-open :
    (f : EntryChannel → EntryChannel) (id : ℕ) (store : Store)
    → (store id).closed ≡ false
    → on_open f id store ≡ done (set_channel id (f (store id)) store)
unfolding on_open
on_open-open f id store h =
    ap (λ (b : Bool). if b then panic else done (set_channel id (f (store id)) store)) h

pub on_each_lem :
    (f : EntryChannel → EntryChannel) (ids : List ℕ) (store : Store)
    → AreDistinctIds ids
    → AreOpen store ids
    → (after : Store) × (on_each f ids store ≡ done after)
      × ((id : ℕ) → after id ≡ on_subscribed f ids store id)
unfolding on_each
on_each_lem f [] store distinct open_ = (store, refl, λ id. refl)
on_each_lem f (first ∷ ids) store distinct open_ =
    let changed = set_channel first (f (store first)) store in
    let later =
      on_each_lem f ids changed distinct.1
        (AreOpen-set store first (f (store first)) ids distinct.0 open_.1) in
    (
      later.0,
      ap (λ (r : Outcome Store). r >>= (λ c. on_each f ids c)) (on_open-open f first store open_.0)
          ∙ later.1,
      λ id. later.2 id ∙ on_subscribed-cons f first ids store id distinct.0,
    )

-- Every one of the IDs that are left is subscribed.
abbrev pub AreAmong : List ℕ → Broadcasting → Type 0
AreAmong ids r = (id : ℕ) → is_subscribed id r.left ≡ true → is_subscribed id ids ≡ true

-- The subscribed channels are distinct and open, their IDs were given already, no channel holds
-- more entries than it has room for, and what a broadcast has not come to is subscribed.
abbrev pub AreUsable : LogBroadcaster → Type 0
AreUsable b =
    AreDistinctIds b.subscribers
    × AreOpen b.channels b.subscribers
    × All (λ id. ltb id b.next_sub_id ≡ true) b.subscribers
    × ((id : ℕ) → leb (length (b.channels id).buffer) capacity ≡ true)
    × All (AreAmong b.subscribers) b.readers

-- What one channel's machine knows: the channel, whether it is subscribed, and the broadcasts that
-- have begun, each with whether its entry is still to be sent to this channel.
abbrev pub EntryView : Type 0
EntryView = EntryChannel × Bool × List (LogEntry × Bool)

abbrev pub owed_by : ℕ → Broadcasting → LogEntry × Bool
owed_by id r = (r.entry, is_subscribed id r.left)

abbrev pub view_of : ℕ → LogBroadcaster → EntryView
view_of id b = (b.channels id, is_subscribed id b.subscribers, map (owed_by id) b.readers)

abbrev pub closed_if : EntryView → EntryView
closed_if (c, true, owed) = (shut c, false, owed)
closed_if (c, false, owed) = (c, false, owed)

abbrev pub sent_if : ℕ → Option (LogEntry × Bool) → EntryView → EntryView
sent_if reader (some (entry, true)) (c, subscribed, owed) =
    (pushed entry c, subscribed, set_elem owed reader (entry, false))
sent_if reader _ v = v

-- The steps of one channel, which knows of the others whether the lock is free.
abbrev pub own_step : Bool → BroadcasterStep → ℕ → ℕ → EntryView → EntryView
own_step locked (begins entry) next id (c, subscribed, owed) =
    (c, subscribed, owed ++ (entry, subscribed) ∷ [])
own_step locked (sends reader other) next id (c, subscribed, owed) =
    if id == other
    then sent_if reader (get_elem? owed reader) (c, subscribed, owed)
    else (c, subscribed, owed)
own_step locked subscribes next id (c, subscribed, owed) =
    if locked
    then (c, subscribed, owed)
    else if id == next
    then (new_channel, true, owed)
    else (c, subscribed, owed)
own_step locked (unsubscribes other) next id v =
    if locked then v else if id == other then closed_if v else v
own_step locked closes_all next id v = if locked then v else closed_if v
own_step locked (takes other) next id (c, subscribed, owed) =
    if id == other then (taken c, subscribed, owed) else (c, subscribed, owed)

pub is_subscribed-without_id :
    (id other : ℕ) (ids : List ℕ)
    → is_subscribed id (without_id other ids)
      ≡ (if id == other then false else is_subscribed id ids)
is_subscribed-without_id id other [] = ground arith
is_subscribed-without_id id other (first ∷ ids) =
    ground (arith, is_subscribed-without_id id other ids)

pub without_id-AreDistinctIds :
    (other : ℕ) (ids : List ℕ) → AreDistinctIds ids → AreDistinctIds (without_id other ids)
without_id-AreDistinctIds other [] h = tt
without_id-AreDistinctIds other (first ∷ ids) h = elim (Bool-cases (other == first)) [
  | inl same ↦ rw same (without_id-AreDistinctIds other ids h.1)
  | inr differ ↦ rw differ (
    ground (arith, is_subscribed-without_id first other ids, h.0),
    without_id-AreDistinctIds other ids h.1,
  )
]

pub without_id-All :
    (P : ℕ → Type 0) (other : ℕ) (ids : List ℕ) → All P ids → All P (without_id other ids)
without_id-All P other [] h = tt
without_id-All P other (first ∷ ids) h = elim (Bool-cases (other == first)) [
  | inl same ↦ rw same (without_id-All P other ids h.1)
  | inr differ ↦ rw differ (h.0, without_id-All P other ids h.1)
]

-- An ID that was not given yet is no subscriber's.
pub fresh-is_subscribed :
    (next : ℕ) (ids : List ℕ) → All (λ id. ltb id next ≡ true) ids → is_subscribed next ids ≡ false
fresh-is_subscribed next [] h = refl
fresh-is_subscribed next (first ∷ ids) h = ground (arith, h.0, fresh-is_subscribed next ids h.1)

pub given-All :
    (next : ℕ) (ids : List ℕ)
    → All (λ id. ltb id next ≡ true) ids
    → All (λ id. ltb id (suc next) ≡ true) ids
given-All next [] h = tt
given-All next (first ∷ ids) h = (ground (arith, h.0), given-All next ids h.1)

-- Channels that stay as they are.
pub AreOpen-of :
    (store after : Store) (ids : List ℕ)
    → ((id : ℕ) → is_subscribed id ids ≡ true → (after id).closed ≡ (store id).closed)
    → AreOpen store ids
    → AreOpen after ids
AreOpen-of store after [] h o = tt
AreOpen-of store after (first ∷ ids) h o = (
  h first (ground arith) ∙ o.0,
  AreOpen-of store after ids (λ id listed. h id (ground (arith, listed))) o.1,
)

pub length-snoc :
    (entry : LogEntry) (xs : List LogEntry) → length (xs ++ entry ∷ []) ≡ suc (length xs)
length-snoc entry [] = refl
length-snoc entry (x ∷ xs) = ap (λ (n : ℕ). suc n) (length-snoc entry xs)
