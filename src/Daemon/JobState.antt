-- ===== src/Daemon/JobState.antt =====
-- `JobState` of pkg/daemon/job_manager.go: one job with its progress, its result and its
-- watchers. Each method holds the job's lock, so it is one step. `now` is the clock's reading
-- in milliseconds.
use Prim.Native.String.{◌++◌ as append}
use buildozer.Common.{
  ℕ, String, Bool, true, false, Option, List, [], ◌∷◌, ◌++◌, if◌then◌else◌, ◌==◌, str_eq,
}
use buildozer.Proto.Job.{Job, JobProgress, JobResult, JobStatus}
use buildozer.Errors.{Outcome, done, ◌>>=◌}
use buildozer.Daemon.Channels.{Channels, notify, close, close_all, is_among}

-- The watchers are the addresses of their channels.
pub record JobState : Type 0 where
  pub job : Job
  pub progress : JobProgress
  pub result : Option JobResult
  pub watchers : List ℕ
  pub created_at : ℕ

-- A job's state, with the store of the channels.
abbrev pub Shared : Type 0
Shared = JobState × Channels

abbrev pub is_terminal : JobStatus → Bool
is_terminal JobStatus.completed = true
is_terminal JobStatus.failed = true
is_terminal JobStatus.cancelled = true
is_terminal _ = false

-- The message that `UpdateProgress` leaves.
abbrev pub progressed : ℕ → JobStatus → String → JobState → JobProgress
progressed now status message js = record js.progress {
  status = status;
  updated_at = now;
  log_output =
      if str_eq message ""
      then js.progress.log_output
      else append js.progress.log_output (append message "\n");
  result = if is_terminal status then js.result else js.progress.result;
}

unfoldable pub update_progress : ℕ → JobStatus → String → Shared → Outcome Shared
unfolding notify
update_progress now status message (js, chs) =
    let changed = record js { progress = progressed now status message js } in
    notify js.watchers chs >>= λ told. done (changed, told)

-- A shallow copy: what the message points at is replaced, never changed.
unfoldable pub get_progress : JobState → JobProgress
get_progress js = js.progress

unfoldable pub add_watcher : ℕ → JobState → JobState
add_watcher c js = record js { watchers = js.watchers ++ c ∷ [] }

-- `append(js.Watchers[:i], js.Watchers[i+1:]...)` at the first such channel.
unfoldable pub remove_channel : ℕ → List ℕ → List ℕ
remove_channel target [] = []
remove_channel target (c ∷ cs) =
    let later = remove_channel target cs in if c == target then cs else c ∷ later

unfoldable pub remove_watcher : ℕ → Shared → Outcome Shared
unfolding remove_channel is_among close
remove_watcher target (js, chs) =
    if is_among target js.watchers
    then (close target chs >>= λ shut.
        done (record js { watchers = remove_channel target js.watchers }, shut))
    else done (js, chs)

unfoldable pub close_watchers : (ℕ → Bool) → Shared → Outcome Shared
unfolding close_all
close_watchers drained (js, chs) =
    close_all drained js.watchers chs >>= λ shut. done (record js { watchers = [] }, shut)
