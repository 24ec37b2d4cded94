-- ===== src/Daemon/JobManager/Submit.antt =====
-- `SubmitJob` of pkg/daemon/job_manager.go and the completion callback that it hands to the
-- scheduler. `clock` gives the successive readings of the clock.
pub mod Solo
pub mod Outcomes
pub mod Scheduled
use Prim.Native.String.{◌++◌ as append}
use buildozer.Common.{
  ℕ, ◌-◌, ◌%◌, ◌^◌, ltb, ℤ, pos, negsuc, String, Bool, true, false, Option, none, some, [],
  if◌then◌else◌,
}
use buildozer.Proto.Job.{Job, JobResult, JobStatus, ResultStatus}
use buildozer.Errors.{Err, text, wrapped, Result, ok, err, Outcome, done, panic, ◌>>=◌}
use buildozer.Scheduler.Queue.{ExecutionRequest}
use buildozer.Scheduler.Heuristic.{SchedulingDecision}
use buildozer.Scheduler.Dispatch.{SchedulerConfig, Scheduler, enqueue_job, ExecutionResult}
use buildozer.Scheduler.Dispatch.Finalize.{Stager, finalize, is_zero}
use buildozer.Daemon.Channels.{Attempt, finished, blocked}
use buildozer.Daemon.JobState.{update_progress, close_watchers}
use buildozer.Daemon.JobManager.{
  JobManager, WatchHandle, on_job, register_job, watch_job_status, set_result,
}

-- The request for the scheduler: both callbacks are set.
abbrev pub request : Job → ExecutionRequest
request job = record {
  full_job = some job;
  has_progress_callback = true;
  has_completion_callback = true;
}

-- The result of a job for which there is no scheduler.
abbrev pub unavailable : Job → JobManager → JobResult
unavailable job jm = record {
  job_id = job.id;
  status = ResultStatus.failed;
  exit_code = pos 1;
  error_message = "Scheduler not available";
  executing_peer_id = jm.daemon_id;
  outputs = [];
}

-- What `SubmitJob` does where there is no scheduler: the message becomes FAILED, then the result
-- is set, then the watchers' channels are closed.
unfoldable pub fail_submission :
    ℕ → (ℕ → Bool) → Job → JobManager → Outcome (JobManager × Result WatchHandle)
fail_submission now drained job jm = do
  told ← on_job job.id (update_progress now JobStatus.failed "Scheduler not available") jm
  kept ← on_job job.id (set_result (unavailable job told)) told
  shut ← on_job job.id (close_watchers drained) kept
  done (shut, err (text "scheduler not available"))

-- What `SubmitJob` makes of the scheduler's answer.
abbrev pub answered :
    WatchHandle
    → JobManager
    → Scheduler × Result SchedulingDecision
    → JobManager × Result WatchHandle
answered h jm (s, ok d) = (record jm { scheduler = some s }, ok h)
answered h jm (s, err e) = (record jm { scheduler = some s }, err (wrapped "scheduler error" e))

-- The scheduler's call of `SubmitJob`.
unfoldable pub ask_scheduler :
    SchedulerConfig
    → (ℕ → ℕ)
    → (ℕ → Bool)
    → Job
    → WatchHandle
    → JobManager
    → Outcome (JobManager × Result WatchHandle)
ask_scheduler config clock drained job h jm = elim jm.scheduler [
  | none ↦ fail_submission (clock 4) drained job jm
  | some s ↦ enqueue_job config (clock 4) (some (request job)) s >>= λ r. done (answered h jm r)
]

-- `SubmitJob` behind the watch: READY, QUEUED, and the scheduler's call.
unfoldable pub submit_watched :
    SchedulerConfig
    → (ℕ → ℕ)
    → (ℕ → Bool)
    → Job
    → WatchHandle
    → JobManager
    → Outcome (JobManager × Result WatchHandle)
submit_watched config clock drained job h jm = do
  is_ready ← on_job job.id (update_progress (clock 2) JobStatus.ready "Job ready for scheduling") jm
  waiting ← on_job job.id (update_progress (clock 3) JobStatus.queued "Job entered queue") is_ready
  ask_scheduler config clock drained job h waiting

abbrev submit_registered :
    SchedulerConfig
    → (ℕ → ℕ)
    → (ℕ → Bool)
    → Job
    → Attempt (JobManager × Result WatchHandle)
    → Outcome (Attempt (JobManager × Result WatchHandle))
submit_registered config clock drained job blocked = done blocked
submit_registered config clock drained job (finished (jm, err e)) =
    done (finished (jm, err (wrapped "failed to create watch handle" e)))
submit_registered config clock drained job (finished (jm, ok h)) =
    submit_watched config clock drained job h jm >>= λ r. done (finished r)

abbrev after_register :
    SchedulerConfig
    → (ℕ → ℕ)
    → (ℕ → Bool)
    → Job
    → JobManager × Option Err
    → Outcome (Attempt (JobManager × Result WatchHandle))
after_register config clock drained job (jm, some e) = done (finished (jm, err e))
after_register config clock drained job (jm, none) =
    watch_job_status job.id jm >>= submit_registered config clock drained job

unfoldable pub submit_job :
    SchedulerConfig
    → (ℕ → ℕ)
    → (ℕ → Bool)
    → Job
    → JobManager
    → Outcome (Attempt (JobManager × Result WatchHandle))
submit_job config clock drained job jm =
    after_register config clock drained job (register_job (clock 0) (clock 1) job jm)

-- Go's conversion of an `int` to `int32`: the residue of 2^32, from -2^31.
unfoldable pub signed_32 : ℕ → ℤ
signed_32 r = if ltb r (2 ^ 31) then pos r else negsuc (2 ^ 32 - r - 1)

unfoldable pub to_int32 : ℤ → ℤ
unfolding signed_32
to_int32 (pos n) = signed_32 (n % 2 ^ 32)
to_int32 (negsuc n) = signed_32 (2 ^ 32 - 1 - n % 2 ^ 32)

-- The result that the callback makes of an execution.
unfoldable pub job_result : Job → JobManager → ExecutionResult → JobResult
unfolding to_int32
job_result job jm executed = record {
  job_id = job.id;
  status = if is_zero executed.exit_code then ResultStatus.completed else ResultStatus.failed;
  exit_code = to_int32 executed.exit_code;
  error_message = "";
  executing_peer_id = jm.daemon_id;
  outputs = executed.output;
}

abbrev pub final_status : ExecutionResult → JobStatus
final_status executed = if is_zero executed.exit_code then JobStatus.completed else JobStatus.failed

-- The callback behind the finalization: the result is set, then the message changes.
unfoldable pub conclude :
    Stager
    → ℕ
    → JobStatus
    → String
    → JobResult × Option Err
    → JobManager
    → Outcome (JobManager × Option Err)
unfolding on_job set_result update_progress
conclude stager now status id (r, none) jm = do
  kept ← on_job id (set_result r) jm
  told ← on_job id (update_progress now status "") kept
  done (told, none)
conclude stager now status id (r, some e) jm = do
  kept ← on_job id (set_result r) jm
  told ←
      on_job id
        (update_progress now JobStatus.failed
          (append "Job completion finalization failed: " (stager.error_text e)))
        kept
  done (told, some e)

-- `completionCallback` of the job `job`; the scheduler gives it `final_job`, the request's.
unfoldable pub completion_callback :
    Stager → ℕ → Job → Job → ExecutionResult → JobManager → Outcome (JobManager × Option Err)
unfolding finalize job_result conclude
completion_callback stager now job final_job executed jm =
    conclude stager now (final_status executed) job.id
      (finalize stager final_job (job_result job jm executed)) jm
