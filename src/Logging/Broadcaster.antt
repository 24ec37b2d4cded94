-- ===== src/Logging/Broadcaster.antt =====
-- The broadcaster of log entries, pkg/logging/log_buffer.go. `Subscribe`, the function that it
-- returns, and `CloseAllSubscribers` hold the lock alone, and are one step each; a step that has to
-- wait for the lock leaves everything as it is, and its goroutine tries it again. `Broadcast` holds
-- the lock for reading, which others may do at the same time, so each of its sends is a step. A
-- subscriber takes entries from its channel at any time. The channels stand in a store under the
-- IDs of their subscriptions, and outlive these. `subscribers` is the map's keys.
pub mod Subscriptions
pub mod Readers
pub mod Views
pub mod Sends
pub mod Steps
use buildozer.Common.{
  ℕ, suc, ◌+◌, ltb, ◌==◌, ℤ, String, Bool, true, false, not, List, [], ◌∷◌, ◌++◌, if◌then◌else◌,
  length, Option, none, some, ◌||◌, get_elem?, set_elem, is_empty_list,
}
use buildozer.Errors.{Outcome, done, panic, ◌>>=◌}
use buildozer.Logging.Registry.{Level}

pub record LogEntry : Type 0 where
  pub timestamp : ℤ
  pub logger_name : String
  pub level : Level
  pub message : String
  pub attributes : List (String × String)

pub record EntryChannel : Type 0 where
  pub buffer : List LogEntry
  pub closed : Bool

abbrev pub Store : Type 0
Store = ℕ → EntryChannel

abbrev pub set_channel : ℕ → EntryChannel → Store → Store
set_channel id c store = λ other. if other == id then c else store other

-- A broadcast under way: the subscribers that it has not come to.
pub record Broadcasting : Type 0 where
  pub entry : LogEntry
  pub left : List ℕ

-- `readers` are the broadcasts that have begun; one that has come to every subscriber has given
-- the lock back.
pub record LogBroadcaster : Type 0 where
  pub readers : List Broadcasting
  pub channels : Store
  pub subscribers : List ℕ
  pub next_sub_id : ℕ

abbrev pub new_channel : EntryChannel
new_channel = record { buffer = []; closed = false }

-- Under the IDs that are not given yet, the store holds what a subscription makes anew.
abbrev pub new_log_broadcaster : LogBroadcaster
new_log_broadcaster = record {
  readers = [];
  channels = λ id. new_channel;
  subscribers = [];
  next_sub_id = 0;
}

abbrev pub capacity : ℕ
capacity = 100

-- A channel that has no room leaves the entry out.
abbrev pub pushed : LogEntry → EntryChannel → EntryChannel
pushed entry c =
    if ltb (length c.buffer) capacity then record c { buffer = c.buffer ++ entry ∷ [] } else c

-- A send in a select with a default, or a close: both panic on a closed channel.
unfoldable pub on_open : (EntryChannel → EntryChannel) → ℕ → Store → Outcome Store
on_open f id store = if (store id).closed then panic else done (set_channel id (f (store id)) store)

-- The loop of `CloseAllSubscribers`.
unfoldable pub on_each : (EntryChannel → EntryChannel) → List ℕ → Store → Outcome Store
on_each f [] store = done store
on_each f (id ∷ ids) store = do changed ← on_open f id store; on_each f ids changed

-- The ID of the new subscription, which its channel and its `unsubscribe` go by, is
-- `next_sub_id` before the call.
unfoldable pub subscribe_entries : LogBroadcaster → LogBroadcaster
subscribe_entries b = record b {
  channels = set_channel b.next_sub_id new_channel b.channels;
  subscribers = b.next_sub_id ∷ b.subscribers;
  next_sub_id = suc b.next_sub_id;
}

abbrev pub shut : EntryChannel → EntryChannel
shut c = record c { closed = true }

abbrev pub is_subscribed : ℕ → List ℕ → Bool
is_subscribed id [] = false
is_subscribed id (other ∷ ids) = if id == other then true else is_subscribed id ids

abbrev pub without_id : ℕ → List ℕ → List ℕ
without_id id [] = []
without_id id (other ∷ ids) = if id == other then without_id id ids else other ∷ without_id id ids

-- `Broadcast` gets the lock, and its loop starts.
unfoldable pub begin_broadcast : LogEntry → LogBroadcaster → LogBroadcaster
begin_broadcast entry b = record b {
  readers = b.readers ++ record { entry = entry; left = b.subscribers } ∷ [];
}

-- The round of a broadcast for one subscriber, if it has not come to it yet. A walk over a map may
-- take any order.
unfoldable pub send_entry : ℕ → ℕ → LogBroadcaster → Outcome LogBroadcaster
send_entry reader id b = elim (get_elem? b.readers reader) [
  | none ↦ done b
  | some r ↦
      if is_subscribed id r.left
      then (do
        sent ← on_open (pushed r.entry) id b.channels
        done (record b {
          channels = sent;
          readers = set_elem b.readers reader (record r { left = without_id id r.left });
        }))
      else done b
]

-- Whether some broadcast holds the lock.
unfoldable pub is_read_locked : List Broadcasting → Bool
is_read_locked [] = false
is_read_locked (r ∷ rs) = not (is_empty_list r.left) || is_read_locked rs

unfoldable pub unsubscribe : ℕ → LogBroadcaster → Outcome LogBroadcaster
unsubscribe id b =
    if is_subscribed id b.subscribers
    then (do
      closed ← on_open shut id b.channels
      done (record b { channels = closed; subscribers = without_id id b.subscribers }))
    else done b

unfoldable pub close_all_subscribers : LogBroadcaster → Outcome LogBroadcaster
close_all_subscribers b = do
  closed ← on_each shut b.subscribers b.channels
  done (record b { channels = closed; subscribers = [] })

abbrev pub rest_of : List LogEntry → List LogEntry
rest_of [] = []
rest_of (entry ∷ entries) = entries

-- A subscriber takes the first entry of its channel, if there is one.
abbrev pub taken : EntryChannel → EntryChannel
taken c = record c { buffer = rest_of c.buffer }

pub data BroadcasterStep : Type 0 where
  begins : LogEntry → BroadcasterStep
  sends : (reader : ℕ) → (id : ℕ) → BroadcasterStep
  subscribes : BroadcasterStep
  unsubscribes : ℕ → BroadcasterStep
  closes_all : BroadcasterStep
  takes : ℕ → BroadcasterStep

abbrev pub unless_locked : Outcome LogBroadcaster → LogBroadcaster → Outcome LogBroadcaster
unless_locked changed b = if is_read_locked b.readers then done b else changed

unfoldable pub broadcaster_step : BroadcasterStep → LogBroadcaster → Outcome LogBroadcaster
broadcaster_step (begins entry) b = done (begin_broadcast entry b)
broadcaster_step (sends reader id) b = send_entry reader id b
broadcaster_step subscribes b = unless_locked (done (subscribe_entries b)) b
broadcaster_step (unsubscribes id) b = unless_locked (unsubscribe id b) b
broadcaster_step closes_all b = unless_locked (close_all_subscribers b) b
broadcaster_step (takes id) b =
    done (record b { channels = set_channel id (taken (b.channels id)) b.channels })

-- Steps of whichever goroutines, one after the other.
unfoldable pub run_broadcaster : List BroadcasterStep → LogBroadcaster → Outcome LogBroadcaster
run_broadcaster [] b = done b
run_broadcaster (s ∷ steps) b = do next ← broadcaster_step s b; run_broadcaster steps next
