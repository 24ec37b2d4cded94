-- ===== src/Scheduler/Dispatch/Finalize.antt =====
-- `FinalizeJobCompletion` of pkg/scheduler/scheduler.go, with the constructor and the accessors
-- of the scheduler. The stager of pkg/staging works on files: what it answers is a parameter.
pub mod Outcomes
use Prim.Native.String.{◌++◌ as append}
use buildozer.Common.{
  ℕ, ℤ, pos, String, Bool, true, false, Option, none, some, List, [], if◌then◌else◌, ◌&&◌, ◌==◌,
  not, is_empty_list, str_eq, Text, ◌≡◌, refl, arith,
}
use buildozer.Proto.Job.{Job, JobData, JobResult, ResultStatus}
use buildozer.Runtimes.{RuntimeManager}
use buildozer.Errors.{Err, text, wrapped, Result, ok, err, Outcome, ◌>>=◌}
use buildozer.Scheduler.Queue.{QueuedJob, new_job_queue, get_all, len, remove, JobQueue}
use buildozer.Scheduler.Dispatch.{Heuristic, Scheduler}

-- `MaterializeJobOutputs` and `VerifyJobResultOutputs` in a directory, and what `%v` prints of
-- an error.
pub record Stager : Type 0 where
  pub materialize_job_outputs : Text → Job → JobResult → Result (List JobData)
  pub verify_job_result_outputs : Text → JobResult → Option Err
  pub error_text : Err → String

abbrev pub is_zero : ℤ → Bool
is_zero (pos n) = n == 0
is_zero _ = false

abbrev pub failed_result : String → JobResult → JobResult
failed_result message r = record r {
  status = ResultStatus.failed;
  error_message = message;
  exit_code = pos 1;
}

-- Behind the materialization: the verification.
abbrev pub verified : Stager → Job → JobResult → JobResult × Option Err
verified stager job r = elim (stager.verify_job_result_outputs job.cwd r) [
  | some e ↦ (
    failed_result (append "Output verification failed: " (stager.error_text e)) r,
    some (wrapped "output verification failed" e),
  )
  | none ↦ (record r { status = ResultStatus.completed }, none)
]

abbrev pub materialized : Stager → Job → JobResult → JobResult × Option Err
materialized stager job r = elim (stager.materialize_job_outputs job.cwd job r) [
  | err e ↦ (
    failed_result (append "Output materialization failed: " (stager.error_text e)) r,
    some (wrapped "output materialization failed" e),
  )
  | ok outputs ↦ verified stager job (record r { outputs = outputs })
]

-- `FinalizeJobCompletion` of a job and a result that are not nil.
unfoldable pub finalize : Stager → Job → JobResult → JobResult × Option Err
finalize stager job r =
    if not (is_zero r.exit_code)
    then (r, none)
    else if is_empty_list job.outputs && is_empty_list r.outputs
    then (r, none)
    else materialized stager job r

abbrev some_result : JobResult × Option Err → Option JobResult × Option Err
some_result (r, e) = (some r, e)

unfoldable pub finalize_job_completion :
    Stager → Option Job → Option JobResult → Option JobResult × Option Err
unfolding finalize
finalize_job_completion stager none r = (r, none)
finalize_job_completion stager (some job) none = (none, none)
finalize_job_completion stager (some job) (some r) = some_result (finalize stager job r)

-- `SchedulerConfig` as `NewScheduler` gets it: each part may be nil.
pub record GivenConfig : Type 0 where
  pub heuristic : Option Heuristic
  pub runtime_manager : Option RuntimeManager
  pub has_peer_manager : Bool
  pub local_daemon_id : String

new_scheduler_of : GivenConfig → Result Scheduler
new_scheduler_of given = elim given.heuristic [
  | none ↦ err (text "heuristic cannot be nil")
  | some h ↦ elim given.runtime_manager [
    | none ↦ err (text "runtime manager cannot be nil")
    | some m ↦
        if not given.has_peer_manager
        then err (text "peer manager cannot be nil")
        else if str_eq given.local_daemon_id ""
        then err (text "local daemon ID cannot be empty")
        else ok (record { queue = new_job_queue; launched = [] })
  ]
]

unfoldable pub new_scheduler : Option GivenConfig → Result Scheduler
unfolding new_scheduler_of
new_scheduler none = err (text "scheduler config cannot be nil")
new_scheduler (some given) = new_scheduler_of given

unfoldable pub get_queued_jobs : Scheduler → List QueuedJob
get_queued_jobs s = get_all s.queue

unfoldable pub get_queue_length : Scheduler → ℕ
get_queue_length s = len s.queue

abbrev with_queue : Scheduler → JobQueue × Bool → Scheduler × Bool
with_queue s (q, found) = (record s { queue = q }, found)

unfoldable pub remove_queued_job : String → Scheduler → Outcome (Scheduler × Bool)
unfolding remove
remove_queued_job id s = do r ← remove id s.queue; Outcome.done (with_queue s r)
