-- ===== src/Daemon/Channels/Effects.antt =====
-- What the operations on channels do to the store: which channels they close, and that no buffer
-- outgrows its channel.
use buildozer.Common.{
  ℕ, ◌≤◌, Bool, true, false, List, [], ◌∷◌, ◌++◌, ◌≡◌, refl, ◌∙◌, ◌||◌, ltb, length, All, arith,
  inl, inr, Bool-cases, suc, ap,
}
use buildozer.Errors.{Outcome, done}
use buildozer.Daemon.Channels.{
  Update, live, Channel, Channels, capacity, set, pushed, try_send, wait_send, behind_first, close,
  notify, close_all, is_among,
}

-- No channel holds more values than its capacity.
abbrev pub IsBounded : Channels → Type 0
IsBounded chs = (c : ℕ) → length (chs.at c).buffer ≤ capacity

-- The second store has the same channels as the first, open and closed alike.
abbrev pub HasSameChannels : Channels → Channels → Type 0
HasSameChannels chs new = (new.next ≡ chs.next) × ((c : ℕ) → (new.at c).closed ≡ (chs.at c).closed)

abbrev pub IsOpen : Channels → ℕ → Type 0
IsOpen chs c = (chs.at c).closed ≡ false

pub HasSameChannels-trans :
    (a b c : Channels) → HasSameChannels a b → HasSameChannels b c → HasSameChannels a c
HasSameChannels-trans a b c h k = (k.0 ∙ h.0, λ d. k.1 d ∙ h.1 d)

length-snoc : (xs : List Update) (u : Update) → length (xs ++ u ∷ []) ≡ suc (length xs)
length-snoc [] u = refl
length-snoc (x ∷ xs) u = ap suc (length-snoc xs u)

length-behind_first :
    (xs : List Update) (u : Update)
    → length xs ≤ capacity
    → length (behind_first xs ++ u ∷ []) ≤ capacity
length-behind_first [] u h = ground arith
length-behind_first (x ∷ xs) u h = omega (arith, length-snoc xs u)

length-pushed :
    (u : Update) (x : Channel)
    → ltb (length x.buffer) capacity ≡ true
    → length (pushed u x).buffer ≤ capacity
length-pushed u x room = ground (arith, length-snoc x.buffer u, room)

pub set-IsBounded :
    (c : ℕ) (x : Channel) (chs : Channels)
    → IsBounded chs
    → length x.buffer ≤ capacity
    → IsBounded (set c x chs)
unfolding set
set-IsBounded c x chs h k d = ground (arith, h d)

pub set-HasSameChannels :
    (c : ℕ) (x : Channel) (chs : Channels)
    → x.closed ≡ (chs.at c).closed
    → HasSameChannels chs (set c x chs)
unfolding set
set-HasSameChannels c x chs same = (refl, λ d. ground (arith, same))

-- What a send on an open channel leaves, one that waits or not.
Sent : Channels → Outcome Channels → Type 0
Sent chs r = (new : Channels) × (r ≡ done new) × HasSameChannels chs new × IsBounded new

pub Sent-pushed :
    (u : Update) (c : ℕ) (chs : Channels)
    → IsBounded chs
    → ltb (length (chs.at c).buffer) capacity ≡ true
    → HasSameChannels chs (set c (pushed u (chs.at c)) chs)
      × IsBounded (set c (pushed u (chs.at c)) chs)
Sent-pushed u c chs h room =
    (set-HasSameChannels c _ chs refl, set-IsBounded c _ chs h (length-pushed u (chs.at c) room))

try_send-Sent :
    (c : ℕ) (chs : Channels) → IsOpen chs c → IsBounded chs → Sent chs (try_send live c chs)
unfolding try_send Sent
try_send-Sent c chs o h = elim (Bool-cases (ltb (length (chs.at c).buffer) capacity)) [
  | inl room ↦
      let (s, b) = Sent-pushed live c chs h room in
      (set c (pushed live (chs.at c)) chs, rw (o, room) refl, s, b)
  | inr full ↦ (chs, rw (o, full) refl, (refl, λ d. refl), h)
]

wait_send-Sent :
    (drained : Bool) (c : ℕ) (chs : Channels)
    → IsOpen chs c
    → IsBounded chs
    → Sent chs (wait_send drained live c chs)
unfolding wait_send Sent
wait_send-Sent drained c chs o h = elim (Bool-cases (ltb (length (chs.at c).buffer) capacity)) [
  | inl room ↦
      let (s, b) = Sent-pushed live c chs h room in
      (set c (pushed live (chs.at c)) chs, rw (o, room) refl, s, b)
  | inr full ↦ elim (Bool-cases drained) [
    | inl received ↦ (
      set c (record (chs.at c) { buffer = behind_first (chs.at c).buffer ++ live ∷ [] }) chs,
      rw (o, full, received) refl,
      set-HasSameChannels c _ chs refl,
      set-IsBounded c _ chs h (length-behind_first (chs.at c).buffer live (h c)),
    )
    | inr late ↦ (chs, rw (o, full, late) refl, (refl, λ d. refl), h)
  ]
]

-- Open channels stay open in a store that has the same.
All-IsOpen :
    (chs new : Channels) (cs : List ℕ)
    → HasSameChannels chs new
    → All (IsOpen chs) cs
    → All (IsOpen new) cs
All-IsOpen chs new [] s h = h
All-IsOpen chs new (c ∷ cs) s (o, os) = (s.1 c ∙ o, All-IsOpen chs new cs s os)

-- A notification of open channels does not panic, opens and closes none, and fills no buffer
-- above its capacity.
pub notify-open :
    (cs : List ℕ) (chs : Channels)
    → All (IsOpen chs) cs
    → IsBounded chs
    → (new : Channels) × (notify cs chs ≡ done new) × HasSameChannels chs new × IsBounded new
unfolding notify Sent
notify-open [] chs os h = (chs, refl, (refl, λ d. refl), h)
notify-open (c ∷ cs) chs (o, os) h =
    let (sent, e, s, k) = try_send-Sent c chs o h in
    let (new, e', s', k') = notify-open cs sent (All-IsOpen chs sent cs s os) k in
    (new, rw e e', HasSameChannels-trans chs sent new s s', k')

-- The store after the channels of the list were closed.
abbrev pub HasClosed : List ℕ → Channels → Channels → Type 0
HasClosed cs chs new =
    (new.next ≡ chs.next) × ((d : ℕ) → (new.at d).closed ≡ (is_among d cs || (chs.at d).closed))

-- Each channel is listed once.
abbrev pub AreDistinct : List ℕ → Type 0
AreDistinct [] = Unit
AreDistinct (c ∷ cs) = (is_among c cs ≡ false) × AreDistinct cs

pub close-open :
    (c : ℕ) (chs : Channels)
    → IsOpen chs c
    → IsBounded chs
    → (new : Channels) × (close c chs ≡ done new) × HasClosed (c ∷ []) chs new × IsBounded new
unfolding close set is_among
close-open c chs o h = (
  set c (record (chs.at c) { closed = true }) chs,
  rw o refl,
  (refl, λ d. ground arith),
  λ d. ground (arith, h d, h c),
)

-- Those that the first close leaves open.
All-IsOpen-rest :
    (c : ℕ) (chs new : Channels) (cs : List ℕ)
    → HasClosed (c ∷ []) chs new
    → is_among c cs ≡ false
    → All (IsOpen chs) cs
    → All (IsOpen new) cs
unfolding is_among
All-IsOpen-rest c chs new [] s a h = h
All-IsOpen-rest c chs new (d ∷ cs) s a (o, os) =
    (ground (arith, s.1 d, a, o), All-IsOpen-rest c chs new cs s (ground (arith, a)) os)

HasClosed-cons :
    (c : ℕ) (cs : List ℕ) (chs sent shut new : Channels)
    → HasSameChannels chs sent
    → HasClosed (c ∷ []) sent shut
    → HasClosed cs shut new
    → HasClosed (c ∷ cs) chs new
unfolding is_among
HasClosed-cons c cs chs sent shut new a b e =
    (e.0 ∙ (b.0 ∙ a.0), λ d. ground (arith, a.1 d, b.1 d, e.1 d))

-- `CloseWatchers` on distinct open channels does not panic, and closes these and no other.
pub close_all-open :
    (drained : ℕ → Bool) (cs : List ℕ) (chs : Channels)
    → All (IsOpen chs) cs
    → AreDistinct cs
    → IsBounded chs
    → (new : Channels) × (close_all drained cs chs ≡ done new)
      × HasClosed cs chs new
      × IsBounded new
unfolding close_all Sent is_among
close_all-open drained [] chs os u h = (chs, refl, (refl, λ d. refl), h)
close_all-open drained (c ∷ cs) chs (o, os) (fresh, u) h =
    let (sent, e₁, s₁, h₁) = wait_send-Sent (drained c) c chs o h in
    let (shut, e₂, s₂, h₂) = close-open c sent (s₁.1 c ∙ o) h₁ in
    let (new, e₃, s₃, h₃) =
      close_all-open drained cs shut
        (All-IsOpen-rest c sent shut cs s₂ fresh (All-IsOpen chs sent cs s₁ os)) u h₂ in
    (new, rw (e₁, e₂) e₃, HasClosed-cons c cs chs sent shut new s₁ s₂ s₃, h₃)
