-- ===== src/Daemon/Channels.antt =====
-- The channels that pkg/daemon/job_manager.go makes for watchers. A channel is shared by the
-- job's state and the watcher's handle, so it lives in a store and is named by its address.
pub mod Effects
use buildozer.Common.{
  ℕ, suc, Bool, true, false, List, [], ◌∷◌, ◌++◌, if◌then◌else◌, ltb, ◌==◌, length,
}
use buildozer.Proto.Job.{JobProgress}
use buildozer.Errors.{Outcome, done, panic, ◌>>=◌}

-- A pointer to a progress message: that of a copy, or that of the job's own message, which its
-- owner goes on changing.
pub data Update : Type 0 where
  copy : JobProgress → Update
  live : Update

pub record Channel : Type 0 where
  pub buffer : List Update
  pub closed : Bool

-- The store: what stands at each address, and the next address that `make` gives.
pub record Channels : Type 0 where
  pub at : ℕ → Channel
  pub next : ℕ

-- `make(chan *v1.JobProgress, 10)`
abbrev pub capacity : ℕ
capacity = 10

abbrev pub no_channels : Channels
no_channels = record { at = λ c. record { buffer = []; closed = false }; next = 0 }

unfoldable pub set : ℕ → Channel → Channels → Channels
set c x chs = record chs { at = λ d. if d == c then x else chs.at d }

-- A new channel stands at the old `next`.
unfoldable pub make : Channels → Channels
unfolding set
make chs = record (set chs.next (record { buffer = []; closed = false }) chs) {
  next = suc chs.next;
}

abbrev pub pushed : Update → Channel → Channel
pushed u x = record x { buffer = x.buffer ++ u ∷ [] }

-- `ch <- u` in a `select` with a default: a full channel drops it, a closed one panics.
unfoldable pub try_send : Update → ℕ → Channels → Outcome Channels
try_send u c chs =
    if (chs.at c).closed
    then panic
    else if ltb (length (chs.at c).buffer) capacity
    then done (set c (pushed u (chs.at c)) chs)
    else done chs

-- The buffer without its oldest value.
abbrev pub behind_first : List Update → List Update
behind_first [] = []
behind_first (u ∷ rest) = rest

-- `ch <- u` in a `select` with a timeout: `drained` says that a full channel is received from
-- in time.
unfoldable pub wait_send : Bool → Update → ℕ → Channels → Outcome Channels
wait_send drained u c chs =
    if (chs.at c).closed
    then panic
    else if ltb (length (chs.at c).buffer) capacity
    then done (set c (pushed u (chs.at c)) chs)
    else if drained
    then done (set c (record (chs.at c) { buffer = behind_first (chs.at c).buffer ++ u ∷ [] }) chs)
    else done chs

unfoldable pub close : ℕ → Channels → Outcome Channels
close c chs =
    if (chs.at c).closed then panic else done (set c (record (chs.at c) { closed = true }) chs)

-- A call that may block, with what it leaves where it does not.
pub data Attempt {ℓ} (A : Type ℓ) : Type ℓ where
  finished : A → Attempt A
  blocked : Attempt A

-- The plain `ch <- u`: a full channel blocks.
unfoldable pub send : Update → ℕ → Channels → Outcome (Attempt Channels)
send u c chs =
    if (chs.at c).closed
    then panic
    else if ltb (length (chs.at c).buffer) capacity
    then done (finished (set c (pushed u (chs.at c)) chs))
    else done blocked

-- What `u, ok := <-ch` gives: a value, or that the channel is closed and empty.
pub data Received : Type 0 where
  value : Update → Received
  no_more : Received

unfoldable pub receive : ℕ → Channels → Attempt (Channels × Received)
receive c chs = elim (chs.at c).buffer [
  | [] ↦ if (chs.at c).closed then finished (chs, no_more) else blocked
  | u ∷ rest ↦ finished (set c (record (chs.at c) { buffer = rest }) chs, value u)
]

-- The loop of a notification.
unfoldable pub notify : List ℕ → Channels → Outcome Channels
unfolding try_send
notify [] chs = done chs
notify (c ∷ cs) chs = try_send live c chs >>= notify cs

-- The loop of `CloseWatchers`; `drained` tells of each channel whether it is received from
-- within the 100 ms.
unfoldable pub close_all : (ℕ → Bool) → List ℕ → Channels → Outcome Channels
unfolding wait_send close
close_all drained [] chs = done chs
close_all drained (c ∷ cs) chs =
    wait_send (drained c) live c chs >>= close c >>= close_all drained cs

-- Whether a channel is listed.
unfoldable pub is_among : ℕ → List ℕ → Bool
is_among target [] = false
is_among target (c ∷ cs) = let later = is_among target cs in if c == target then true else later
