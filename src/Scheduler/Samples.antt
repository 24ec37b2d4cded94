-- ===== src/Scheduler/Samples.antt =====
-- A daemon with one runtime and a short queue, on which the theorems of the queue and of the
-- heuristic are applied.
mod Launching
use buildozer.Common.{
  String, Bool, true, false, none, some, List, [], ◌∷◌, ◌≡◌, ◌≢◌, refl, ◌⊎◌, arith,
}
use buildozer.Proto.Runtime.{Runtime, RuntimePlatform, RuntimeToolchain}
use buildozer.Proto.Job.{Job, RuntimeMatchQuery, RuntimeRequirement, runtime, runtime_match_query}
use buildozer.Errors.{Err, sentinel, text, Result, ok, err, Sentinel, done, panic, ◌>>=◌, is_busy}
use buildozer.Runtimes.{RuntimeImpl, RuntimeManager, aggregated_manager, find_by_id}
use buildozer.Scheduler.Queue.{ExecutionRequest, QueuedJob, JobQueue, new_job_queue, remove}
use buildozer.Scheduler.Queue.Fifo.{enqueue_all, dequeue_up_to, dequeue-enqueue_fifo}
use buildozer.Scheduler.Queue.Removal.{Removed, remove_lem}
use buildozer.Scheduler.Heuristic.{
  SchedulingDecision, SchedulingContext, placed, first_peer, simple_local_first,
}
use buildozer.Scheduler.Heuristic.Placement.{
  IsLocal, IsNotLocal, IsFirstLocal, IsFirstRemote, simple_local_first-placement,
  simple_local_first-explicit,
}
use buildozer.Scheduler.Dispatch.{
  Launch, SchedulerConfig, Scheduler, plan_job, enqueue_job, try_schedule_next, on_job_completion,
  run_launch, ExecutionResult,
}
use buildozer.Scheduler.Heuristic.Limits.{IsQuiet, simple_local_first-ne-busy}
use buildozer.Scheduler.Dispatch.Retry.{
  Submitted, Retried, enqueue_job_cases, try_schedule_next_cases,
}
use buildozer.Scheduler.Dispatch.Drain.{Drained, on_job_completion_drains}
use buildozer.Scheduler.Dispatch.Race.{lockstep, lockstep-launches_twice}
use buildozer.Scheduler.Dispatch.Locality.{daemon_config, plan_job-local, launch_missing_runtime}
use buildozer.Common.{lookup, Text}
use buildozer.Proto.Job.{JobData}
use buildozer.Scheduler.Tracker
use buildozer.Scheduler.Tracker.{
  RemoteTracker, fresh_execution, step, prepare_for_remote, embedding_failed,
}
use buildozer.Scheduler.Tracker.Jobs.{job_step, find-step, prepare_for_remote_lem}

abbrev pub gcc : Runtime
gcc = record {
  id = "native_linux-c-gcc-10.2.1-glibc-2.31-x86_64";
  platform = RuntimePlatform.native_linux;
  toolchain = RuntimeToolchain.c;
  toolchain_spec = none;
  peer_ids = "builder" ∷ [];
}

-- A runtime that only the peer has.
abbrev pub clang : Runtime
clang = record gcc { id = "native_linux-c-clang-12.0.0-glibc-2.31-x86_64" }

abbrev pub gcc_impl : RuntimeImpl
gcc_impl = record { runtime_id = gcc.id; proto = ok gcc; matches_query = λ q. ok true }

abbrev pub any_query : RuntimeMatchQuery
any_query = record { platforms = []; toolchains = []; params = [] }

abbrev pub job : String → RuntimeRequirement → Job
job id requirement = record {
  id = id;
  runtime_requirement = requirement;
  input_data_ids = [];
  job_spec = none;
  content_hash = none;
  source_client_id = "client";
  dependency_ids = [];
  inputs = [];
  outputs = [];
  cwd = [];
}

abbrev pub request : Job → ExecutionRequest
request j = record {
  full_job = some j;
  has_progress_callback = true;
  has_completion_callback = true;
}

abbrev pub waiting : Job → QueuedJob
waiting j = record { exec_req = some (request j); enqueued_at = 7 }

abbrev pub compile : Job
compile = job "compile" (runtime (some gcc))

abbrev pub link : Job
link = job "link" (runtime_match_query (some any_query))

abbrev pub queue : JobQueue
queue = record { jobs = waiting compile ∷ waiting link ∷ [] }

abbrev pub scheduler : Scheduler
scheduler = record { queue = queue; launched = [] }

abbrev pub no_order : List Runtime → List Runtime
no_order runtimes = runtimes

-- The peer has the other runtime.
abbrev pub remote_match : RuntimeMatchQuery → Result (List Runtime)
remote_match query = ok (clang ∷ [])

abbrev pub config : SchedulerConfig
config = daemon_config no_order (gcc_impl ∷ []) remote_match "here"

-- A manager that knows nothing by ID.
abbrev pub stranger : RuntimeManager
stranger = record { get_runtime_by_id = λ id. err (text "no"); match_runtimes = remote_match }

abbrev pub context_of : RuntimeManager → Job → SchedulingContext
context_of m j = record {
  job = some j;
  runtime_manager = some m;
  local_daemon_id = "here";
  job_count = 0;
}

dequeue-enqueue_fifo_example :
    (enqueue_all (waiting link ∷ waiting compile ∷ []) queue >>= dequeue_up_to 5)
    ≡ done (new_job_queue, waiting compile ∷ waiting link ∷ waiting link ∷ waiting compile ∷ [])
dequeue-enqueue_fifo_example =
    dequeue-enqueue_fifo (waiting link ∷ waiting compile ∷ []) queue 5
      (("compile", refl), (("link", refl), tt)) (("link", refl), (("compile", refl), tt))
      (omega arith)

remove_lem_example : (r : JobQueue × Bool) × (remove "link" queue ≡ done r) × Removed "link" queue r
remove_lem_example = remove_lem "link" queue (("compile", refl), (("link", refl), tt))

abbrev pub far : SchedulingDecision
far = placed "builder" clang "Selected remote runtime - no local match available"

simple_local_first-placement_example :
    ((far.peer_id ≡ "here") × IsFirstLocal stranger (clang ∷ []) clang)
    ⊎ IsFirstRemote stranger (clang ∷ []) clang far.peer_id
unfolding simple_local_first
simple_local_first-placement_example =
    simple_local_first-placement (context_of stranger link) link stranger any_query (clang ∷ []) far
      refl refl refl refl refl

simple_local_first-explicit_example :
    ((d : SchedulingDecision) × (simple_local_first (some (context_of stranger compile)) ≡ ok d)
      × (d.selected_runtime ≡ gcc)
      × (IsLocal stranger gcc × (d.peer_id ≡ "here")
          ⊎ IsNotLocal stranger gcc × (d.peer_id ≡ first_peer gcc.peer_ids) × (d.peer_id ≢ "")))
    ⊎ IsNotLocal stranger gcc
      × (first_peer gcc.peer_ids ≡ "")
      × ((t : String) × (simple_local_first (some (context_of stranger compile)) ≡ err (text t)))
simple_local_first-explicit_example =
    simple_local_first-explicit (context_of stranger compile) compile stranger gcc refl refl refl

abbrev pub unplaced : Job
unplaced = job "unplaced" (runtime none)
