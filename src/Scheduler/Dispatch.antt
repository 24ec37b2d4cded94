-- ===== src/Scheduler/Dispatch.antt =====
-- pkg/scheduler/scheduler.go: launching a job on the runtime that the heuristic chose, or
-- queueing it. A job is launched as a goroutine; the state keeps the goroutines started, in
-- order. A call that dereferences a nil pointer panics.
pub mod Retry
pub mod Drain
pub mod Race
pub mod Locality
pub mod Finalize
use buildozer.Common.{
  ℕ, ℤ, pos, zero, suc, ◌-◌, String, Bool, true, false, Option, none, some, List, [], ◌∷◌, ◌++◌,
  if◌then◌else◌,
}
use buildozer.Proto.Job.{Job, JobData}
use buildozer.Runtimes.{RuntimeImpl, RuntimeManager}
use buildozer.Errors.{
  Err, sentinel, wrapped, Result, ok, err, Sentinel, eq_busy, is_busy, is_no_matching, Outcome,
  done, panic, ◌>>=◌,
}
use buildozer.Scheduler.Queue.{ExecutionRequest, JobQueue, enqueue, dequeue, peek, len, job_id}
use buildozer.Scheduler.Heuristic.{SchedulingDecision, SchedulingContext}

-- What the goroutine of `scheduleJob` captures. The runtime may be nil.
pub record Launch : Type 0 where
  pub request : ExecutionRequest
  pub job : Job
  pub runtime_impl : Option RuntimeImpl

-- SchedulingHeuristic.Schedule, of a context that is not nil.
abbrev pub Heuristic : Type 0
Heuristic = SchedulingContext → Result SchedulingDecision

-- The fields of SchedulerConfig that the operations read.
pub record SchedulerConfig : Type 0 where
  pub heuristic : Heuristic
  pub runtime_manager : RuntimeManager
  pub local_daemon_id : String

pub record Scheduler : Type 0 where
  pub queue : JobQueue
  pub launched : List Launch

-- The error that `scheduleJob` makes of an error of the heuristic.
abbrev pub scheduling_err : Err → Err
scheduling_err e =
    if is_no_matching e
    then sentinel Sentinel.no_compatible_runtimes
    else if is_busy e
    then sentinel Sentinel.all_runtimes_busy
    else wrapped "scheduling failed" e

abbrev pub context : SchedulerConfig → Job → ℕ → SchedulingContext
context config job count = record {
  job = some job;
  runtime_manager = some config.runtime_manager;
  local_daemon_id = config.local_daemon_id;
  job_count = count;
}

-- The launch that a request leads to, with its decision.
place_job : SchedulerConfig → ExecutionRequest → Job → ℕ → Result (SchedulingDecision × Launch)
place_job config req job count = elim (config.heuristic (context config job count)) [
  | err e ↦ err (scheduling_err e)
  | ok d ↦ elim (config.runtime_manager.get_runtime_by_id d.selected_runtime.id) [
    | err e ↦ err (wrapped "failed to get runtime" e)
    | ok impl ↦ ok (d, record { request = req; job = job; runtime_impl = impl })
  ]
]

plan_request : SchedulerConfig → ExecutionRequest → ℕ → Result (SchedulingDecision × Launch)
unfolding place_job
plan_request config req count = elim req.full_job [
  | none ↦ err (sentinel Sentinel.nil_job)
  | some job ↦ place_job config req job count
]

-- What `scheduleJob` decides: the decision with the goroutine to start, or an error.
unfoldable pub plan_job :
    SchedulerConfig → Option ExecutionRequest → ℕ → Result (SchedulingDecision × Launch)
unfolding plan_request
plan_job config none count = err (sentinel Sentinel.nil_job)
plan_job config (some req) count = plan_request config req count

-- `scheduleJob`: it starts the goroutine where there is no error.
unfoldable pub schedule_job :
    SchedulerConfig
    → Option ExecutionRequest
    → ℕ
    → Scheduler
    → Scheduler × Result SchedulingDecision
schedule_job config req count s = elim (plan_job config req count) [
  | err e ↦ (s, err e)
  | ok (d, l) ↦ (record s { launched = s.launched ++ l ∷ [] }, ok d)
]

-- `EnqueueJob` behind its nil checks; `now` is the clock's reading.
abbrev after_schedule :
    Option ExecutionRequest
    → ℕ
    → Scheduler × Result SchedulingDecision
    → Outcome (Scheduler × Result SchedulingDecision)
after_schedule req now (s, ok d) = done (s, ok d)
after_schedule req now (s, err e) =
    if eq_busy e
    then (do
      q ← enqueue (some (record { exec_req = req; enqueued_at = now })) s.queue
      done (record s { queue = q }, err e))
    else done (s, err e)

unfoldable pub enqueue_job :
    SchedulerConfig
    → ℕ
    → Option ExecutionRequest
    → Scheduler
    → Outcome (Scheduler × Result SchedulingDecision)
unfolding schedule_job
enqueue_job config now none s = done (s, err (sentinel Sentinel.nil_job))
enqueue_job config now (some req) s = elim req.full_job [
  | none ↦ done (s, err (sentinel Sentinel.nil_job))
  | some job ↦ after_schedule (some req) now (schedule_job config (some req) (len s.queue) s)
]

-- `TryScheduleNext` after `scheduleJob` returned: the head leaves the queue unless the runtimes
-- are busy.
abbrev pub after_retry : Scheduler × Result SchedulingDecision → Outcome (Scheduler × Bool)
after_retry (s, ok d) = do r ← dequeue s.queue; done (record s { queue = r.0 }, true)
after_retry (s, err e) =
    if eq_busy e
    then done (s, false)
    else (do r ← dequeue s.queue; done (record s { queue = r.0 }, false))

unfoldable pub try_schedule_next : SchedulerConfig → Scheduler → Outcome (Scheduler × Bool)
unfolding schedule_job
try_schedule_next config s = elim (peek s.queue) [
  | none ↦ done (s, false)
  | some qj ↦ do
    logged ← job_id qj
    after_retry (schedule_job config qj.exec_req (len s.queue - 1) s)
]

-- `OnJobCompletion`: the call under `if` and the loop behind it are one loop. `none` says that
-- the fuel ran out.
unfoldable pub on_job_completion : SchedulerConfig → ℕ → Scheduler → Option (Outcome Scheduler)
on_job_completion config zero s = none
on_job_completion config (suc fuel) s = elim (try_schedule_next config s) [
  | panic ↦ some panic
  | done (s', more) ↦
      let rest = on_job_completion config fuel s' in if more then rest else some (done s')
]

-- runtime.ExecutionResult, as far as the goroutine builds it.
pub record ExecutionResult : Type 0 where
  pub exit_code : ℤ
  pub output : List JobData

-- The result that the completion callback gets: that of the execution, or exit code 1.
abbrev pub callback_result : Result ExecutionResult → ExecutionResult
callback_result (ok r) = r
callback_result (err e) = record { exit_code = pos 1; output = [] }

-- The goroutine of `scheduleJob`: it executes the job, calls the callback where there is one,
-- and tries the next queued job. The result is what the callback got.
unfoldable pub run_launch :
    (RuntimeImpl → Result ExecutionResult)
    → SchedulerConfig
    → Launch
    → Scheduler
    → Outcome (Scheduler × Option ExecutionResult)
run_launch execute config l s = elim l.runtime_impl [
  | none ↦ panic
  | some impl ↦ do
    let told =
        if l.request.has_completion_callback then some (callback_result (execute impl)) else none
    r ← try_schedule_next config s
    done (r.0, told)
]
