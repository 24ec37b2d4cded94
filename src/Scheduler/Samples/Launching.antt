-- ===== src/Scheduler/Samples/Launching.antt =====
-- The theorems of the scheduler and of the tracker, on the same daemon.
use buildozer.Common.{true, none, some, List, [], ◌∷◌, ◌≡◌, refl, ◌⊎◌, arith, lookup, Text, map}
use buildozer.Proto.Job.{JobData, Job, runtime}
use buildozer.Errors.{Err, text, Result, ok, err, done, panic}
use buildozer.Runtimes.{RuntimeImpl, aggregated_manager, find_by_id}
use buildozer.Scheduler.Heuristic.{SchedulingDecision, placed, simple_local_first}
use buildozer.Scheduler.Dispatch.{
  Launch, Scheduler, plan_job, enqueue_job, try_schedule_next, on_job_completion, run_launch,
  ExecutionResult,
}
use buildozer.Scheduler.Dispatch.Retry.{
  Submitted, Retried, enqueue_job_cases, try_schedule_next_cases,
}
use buildozer.Scheduler.Dispatch.Drain.{Drained, on_job_completion_drains}
use buildozer.Scheduler.Dispatch.Race.{lockstep, lockstep-launches_twice}
use buildozer.Scheduler.Dispatch.Locality.{plan_job-local, launch_missing_runtime}
use buildozer.Scheduler.Tracker
use buildozer.Scheduler.Tracker.{
  RemoteTracker, fresh_execution, step, prepare_for_remote, embedding_failed,
}
use buildozer.Scheduler.Tracker.Jobs.{job_step, find-step, prepare_for_remote_lem}
use buildozer.Scheduler.Samples.{
  gcc, clang, gcc_impl, job, request, waiting, compile, link, queue, scheduler, no_order,
  remote_match, config,
}

enqueue_job_cases_example :
    Submitted config 9
      (request link)
      scheduler
      (enqueue_job config 9 (some (request link)) scheduler)
enqueue_job_cases_example = enqueue_job_cases config 9 (request link) link scheduler refl

try_schedule_next_cases_example :
    Retried config
      (waiting compile)
      (waiting link ∷ [])
      scheduler
      (try_schedule_next config scheduler)
try_schedule_next_cases_example =
    try_schedule_next_cases config (waiting compile) (waiting link ∷ []) scheduler ("compile", refl)
      refl

on_job_completion_drains_example :
    (t : Scheduler) × (on_job_completion config 3 scheduler ≡ some (done t))
    × Drained config queue.jobs [] t
on_job_completion_drains_example =
    on_job_completion_drains config 3 scheduler (("compile", refl), (("link", refl), tt))
      (omega arith)

abbrev near : SchedulingDecision
near = placed "here" gcc "Using explicitly specified local runtime"

abbrev compile_launch : Launch
compile_launch = record { request = request compile; job = compile; runtime_impl = some gcc_impl }

lockstep-launches_twice_example :
    lockstep config scheduler
    ≡ done (
      record { queue = record { jobs = [] }; launched = compile_launch ∷ compile_launch ∷ [] },
      true,
      true,
    )
unfolding plan_job aggregated_manager simple_local_first
lockstep-launches_twice_example =
    lockstep-launches_twice config (waiting compile) (waiting link) [] scheduler near compile_launch
      ("compile", refl) ("link", refl) refl refl

plan_job-local_example :
    (near.peer_id ≡ "here") × (compile_launch.runtime_impl ≡ find_by_id gcc.id (gcc_impl ∷ []))
unfolding plan_job aggregated_manager simple_local_first
plan_job-local_example =
    plan_job-local no_order (gcc_impl ∷ []) remote_match "here" (some (request compile)) 1 near
      compile_launch refl

abbrev elsewhere : Job
elsewhere = job "elsewhere" (runtime (some clang))

abbrev execute : RuntimeImpl → Result ExecutionResult
execute impl = err (text "not run")

launch_missing_runtime_example :
    (d : SchedulingDecision) × (l : Launch) × (plan_job config (some (request elsewhere)) 0
      ≡ ok (d, l))
    × (run_launch execute config l scheduler ≡ panic)
unfolding aggregated_manager
launch_missing_runtime_example =
    launch_missing_runtime no_order (gcc_impl ∷ []) remote_match "here" (request elsewhere)
      elsewhere clang 0 execute scheduler refl refl refl

abbrev tracker : RemoteTracker
tracker = record {
  remote_executions = ("compile", fresh_execution 3 4 "compile" "builder" compile) ∷ [];
}

abbrev retrack : Tracker.Call
retrack = Tracker.Call.track "compile" "builder" compile

find-step_example :
    ((step 5 6 retrack tracker).1
      ≡ (job_step 5 6 retrack (lookup "compile" tracker.remote_executions)).1)
    × (lookup "link" (step 5 6 retrack tracker).0.remote_executions ≡ none)
unfolding lookup
find-step_example = find-step 5 6 retrack tracker "link"

abbrev embed : List Text → Result (List JobData)
embed ids = ok (map (λ id. record { id = id; path = id; content = some [] }) ids)

abbrev unread : List Text → Result (List JobData)
unread ids = err (text "no")

abbrev with_ids : Job
with_ids = record compile { input_data_ids = (97 ∷ []) ∷ [] }

prepare_for_remote_lem_example :
    ((k : Job) × (prepare_for_remote embed (some with_ids) ≡ ok k)
      × (k.input_data_ids ≡ [])
      × ((k.inputs ≡ []) ⊎ (with_ids.inputs ≡ []) × (embed with_ids.input_data_ids ≡ ok k.inputs))
      × (prepare_for_remote unread (some k) ≡ ok k))
    ⊎ ((e : Err) × (embed with_ids.input_data_ids ≡ err e)
        × (with_ids.inputs ≡ [])
        × (prepare_for_remote embed (some with_ids) ≡ err embedding_failed))
prepare_for_remote_lem_example = prepare_for_remote_lem embed unread with_ids
