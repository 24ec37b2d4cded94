-- ===== src/Daemon/JobManager/Steps.antt =====
-- The steps of the job manager's goroutines: what a call does between taking a lock and leaving
-- it, a watcher's send without a lock, and a receive. A step that would block leaves everything
-- as it is, and its goroutine tries it again.
pub mod Kept
pub mod Methods
pub mod Entering
pub mod Sound
pub mod Views
pub mod Machine
pub mod Over
pub mod Runs
use buildozer.Common.{ℕ, String, Bool, Option, none, some, List, [], ◌∷◌}
use buildozer.Proto.Job.{Job, JobProgress, JobResult, JobStatus}
use buildozer.Errors.{Outcome, done, panic, ◌>>=◌}
use buildozer.Scheduler.Dispatch.{Scheduler}
use buildozer.Daemon.Channels.{Channels, Attempt, finished, blocked, Received, receive}
use buildozer.Daemon.JobState.{update_progress, remove_watcher, close_watchers}
use buildozer.Daemon.JobManager.{
  JobManager, WatchHandle, OutputProgress, set_scheduler, on_job, register_job, subscribe,
  send_snapshot, progress_callback, set_result,
}

pub data Step : Type 0 where
  registers : ℕ → ℕ → Job → Step
  subscribes : String → Step
  sends_snapshot : WatchHandle → JobProgress → Step
  progresses : ℕ → String → JobStatus → String → Step
  outputs : String → OutputProgress → Step
  sets_result : String → JobResult → Step
  closes : (ℕ → Bool) → String → Step
  stops : WatchHandle → Step
  receives : ℕ → Step
  gets_scheduler : Option Scheduler → Step

abbrev pub after_send : JobManager → Attempt JobManager → JobManager
after_send jm (finished new) = new
after_send jm blocked = jm

abbrev pub after_receive : JobManager → Attempt (Channels × Received) → JobManager
after_receive jm (finished (chs, r)) = record jm { channels = chs }
after_receive jm blocked = jm

unfoldable pub step : Step → JobManager → Outcome JobManager
unfolding register_job subscribe set_scheduler
step (registers now later job) jm = done (register_job now later job jm).0
step (subscribes id) jm = done (subscribe id jm).0
step (sends_snapshot h p) jm = send_snapshot h p jm >>= λ r. done (after_send jm r)
step (progresses now id status message) jm = on_job id (update_progress now status message) jm
step (outputs id o) jm = on_job id (progress_callback o) jm
step (sets_result id r) jm = on_job id (set_result r) jm
step (closes drained id) jm = on_job id (close_watchers drained) jm
step (stops h) jm = on_job h.job_id (remove_watcher h.channel) jm
step (receives c) jm = done (after_receive jm (receive c jm.channels))
step (gets_scheduler s) jm = done (set_scheduler s jm)

-- Steps one after the other, of whichever goroutines.
unfoldable pub run : List Step → JobManager → Outcome JobManager
unfolding step
run [] jm = done jm
run (s ∷ rest) jm = step s jm >>= run rest
