-- ===== src/Daemon/Samples.antt =====
-- A daemon with one job and one watcher, on which the theorems of the job manager are applied.
use Prim.Native.String.{◌++◌ as append}
use buildozer.Common.{
  ℕ, ◌≤◌, Bool, false, Option, none, some, List, [], ◌∷◌, ◌≡◌, ◌⊎◌, ◌↔◌, refl, pos, length, lookup,
  ◌||◌,
}
use buildozer.Proto.Job.{JobData, JobResult, JobStatus, ResultStatus}
use buildozer.Errors.{Err, text, ok, err, Outcome, done, panic}
use buildozer.Scheduler.Dispatch.{Scheduler, ExecutionResult, enqueue_job, plan_job}
use buildozer.Scheduler.Dispatch.Finalize.{Stager, finalize}
use buildozer.Scheduler.Heuristic.{simple_local_first, placed}
use buildozer.Runtimes.{aggregated_manager}
use buildozer.Scheduler.Samples.{compile, config, gcc, gcc_impl}
use buildozer.Daemon.Channels.{capacity, finished, is_among, receive}
use buildozer.Daemon.JobState.{JobState, update_progress, close_watchers}
use buildozer.Daemon.JobManager.{
  JobManager, new_job_manager, register_job, received_job, subscribe, set_scheduler, cancel_job,
  on_job, not_found,
}
use buildozer.Daemon.JobManager.Submit.{submit_job, completion_callback, job_result, request}
use buildozer.Daemon.JobManager.Submit.Outcomes.{Unscheduled, submit_job-Unscheduled, handle}
use buildozer.Daemon.JobManager.Submit.Scheduled.{Scheduled, submit_job-Scheduled}
use buildozer.Daemon.JobManager.Ending.{cancel-panics_watch, cancel_job_cases}
use buildozer.Daemon.JobManager.Ending.ExitCode.{IsInt32}
use buildozer.Daemon.JobManager.Ending.Completion.{HasEnded, shown_status, completion_callback_lem}
use buildozer.Daemon.JobManager.Steps.{
  Step, subscribes, sends_snapshot, progresses, closes, receives, step, run,
}
use buildozer.Daemon.JobManager.Steps.Kept.{IsSound}
use buildozer.Daemon.JobManager.Steps.Entering.{register_job-IsSound, subscribe-IsSound}
use buildozer.Daemon.JobManager.Steps.Sound.{Raced, new_job_manager-IsSound, run-IsSound}
use buildozer.Daemon.JobManager.Steps.Views.{view, view_step, moved, seen}
use buildozer.Daemon.JobManager.Steps.Machine.{view-step}
use buildozer.Daemon.JobService.{StatusUpdate, stream, ended, waits}
use buildozer.Daemon.JobService.Streams.{cancel_job-stream_ends, completion_callback-stream_waits}

abbrev empty : JobManager
empty = new_job_manager "here"

abbrev registered : JobManager
registered = (register_job 1 2 compile empty).0

-- The job and its watcher.
abbrev watched : JobManager
watched = (subscribe "compile" registered).0

watched-IsSound : IsSound watched
watched-IsSound =
    subscribe-IsSound "compile" registered
      (register_job-IsSound 1 2 compile empty (new_job_manager-IsSound "here"))

abbrev state : JobState
state = record (received_job 1 2 compile) { watchers = 0 ∷ [] }

watched-knows : lookup "compile" watched.jobs ≡ some state
unfolding subscribe register_job new_job_manager
watched-knows = refl

abbrev steps : List Step
steps =
    progresses 3 "compile" JobStatus.running "started"
    ∷ subscribes "compile"
    ∷ sends_snapshot (record { job_id = "compile"; channel = 1 }) state.progress
    ∷ closes (λ c. false) "compile"
    ∷ receives 1
    ∷ []

run-IsSound_example :
    ((new : JobManager) × (run steps watched ≡ done new) × IsSound new) ⊎ Raced steps watched
run-IsSound_example = run-IsSound steps watched watched-IsSound

abbrev starting : Step
starting = progresses 3 "compile" JobStatus.running "started"

abbrev clock : ℕ → ℕ
clock n = n

abbrev undrained : ℕ → Bool
undrained c = false

abbrev reached : Outcome JobManager → JobManager
reached (done jm) = jm
reached panic = empty

abbrev started : JobManager
started = reached (step starting watched)

starts : step starting watched ≡ done started
unfolding step subscribe register_job new_job_manager on_job update_progress
starts = refl

view-step_example : view "compile" started ≡ view_step starting "compile" (view "compile" watched)
view-step_example = view-step starting "compile" watched started starts

cancel-panics_watch_example :
    run
      (subscribes "compile"
        ∷ progresses 5 "compile" JobStatus.cancelled (append "Cancelled: " "enough")
        ∷ closes undrained "compile"
        ∷ sends_snapshot
            (record { job_id = "compile"; channel = watched.channels.next })
            state.progress
        ∷ [])
      watched
    ≡ panic
cancel-panics_watch_example =
    cancel-panics_watch 5 undrained "compile" "enough" state.progress watched state watched-IsSound
      watched-knows

-- Behind the cancellation, the job's own progress and result come late.
abbrev late : List Step
late =
    progresses 6 "compile" JobStatus.running "late"
    ∷ subscribes "compile"
    ∷ receives 0
    ∷ progresses 7 "compile" JobStatus.completed "done"
    ∷ []

abbrev stopped : Outcome (JobManager × Option Err) → JobManager
stopped (done (jm, e)) = jm
stopped panic = empty

abbrev last : JobManager
last = stopped (cancel_job 5 undrained "compile" "enough" watched)

cancels : cancel_job 5 undrained "compile" "enough" watched ≡ done (last, none)
unfolding cancel_job subscribe register_job new_job_manager on_job update_progress close_watchers
cancels = refl

runs_late : run late last ≡ done (reached (run late last))
unfolding run step cancel_job subscribe register_job new_job_manager on_job update_progress
    close_watchers receive
runs_late = refl

cancel_job-stream_ends_example :
    (sent : List StatusUpdate) × (new : JobManager) × (stream 11 "compile" 0
        (reached (run late last))
      ≡ some (sent, new, ended))
    × (length sent ≤ capacity)
unfolding is_among
cancel_job-stream_ends_example =
    cancel_job-stream_ends 5 undrained "compile" "enough" 0 late watched last
      (reached (run late last)) state watched-IsSound watched-knows refl cancels runs_late

cancel_job_cases_example :
    ((js : JobState) × (new : JobManager) × (lookup "compile" watched.jobs ≡ some js)
      × (cancel_job 5 undrained "compile" "enough" watched ≡ done (new, none))
      × (view "compile" new
          ≡ some (moved 5 JobStatus.cancelled (append "Cancelled: " "enough") (seen js)))
      × ((c : ℕ)
          → (new.channels.at c).closed
            ≡ (is_among c js.watchers || (watched.channels.at c).closed)))
    ⊎ (lookup "compile" watched.jobs ≡ none)
      × (cancel_job 5 undrained "compile" "enough" watched ≡ done (watched, some not_found))
cancel_job_cases_example = cancel_job_cases 5 undrained "compile" "enough" watched watched-IsSound

-- A stager whose files are all there.
abbrev stager : Stager
stager = record {
  materialize_job_outputs = λ cwd job r. ok r.outputs;
  verify_job_result_outputs = λ cwd r. none;
  error_text = λ e. "error";
}

abbrev object_file : JobData
object_file = record { id = 111 ∷ []; path = 111 ∷ []; content = some (1 ∷ []) }

abbrev compiled : ExecutionResult
compiled = record { exit_code = pos 0; output = object_file ∷ [] }

abbrev compiled_result : JobResult × Option Err
compiled_result = finalize stager compile (job_result compile watched compiled)

completion_callback_lem_example :
    (new : JobManager) × (completion_callback stager 6 compile compile compiled watched
      ≡ done (new, compiled_result.1))
    × HasEnded compile compiled_result.0 (shown_status compiled compiled_result.1) watched new
    × (((shown_status compiled compiled_result.1 ≡ JobStatus.completed)
          ↔ (compiled_result.0.status ≡ ResultStatus.completed))
        ⊎ (¬ IsInt32 compiled.exit_code))
completion_callback_lem_example =
    completion_callback_lem stager 6 compile compile compiled watched state watched-IsSound
      watched-knows

completion_callback-stream_waits_example :
    (last : JobManager) × (e : Option Err) × (sent : List StatusUpdate) × (new : JobManager)
    × (completion_callback stager 6 compile compile compiled watched ≡ done (last, e))
    × (stream 11 "compile" 0 last ≡ some (sent, new, waits))
unfolding is_among
completion_callback-stream_waits_example =
    completion_callback-stream_waits stager 6 compile compile compiled 0 watched state
      watched-IsSound watched-knows refl

empty-knows : lookup "compile" empty.jobs ≡ none
unfolding new_job_manager lookup
empty-knows = refl

empty-unscheduled : empty.scheduler ≡ none
unfolding new_job_manager
empty-unscheduled = refl

submit_job-Unscheduled_example :
    (new : JobManager) × (submit_job config clock undrained compile empty
      ≡ done (finished (new, err (text "scheduler not available"))))
    × Unscheduled clock compile empty new
submit_job-Unscheduled_example =
    submit_job-Unscheduled config clock undrained compile empty empty-knows empty-unscheduled

abbrev idle : Scheduler
idle = record { queue = record { jobs = [] }; launched = [] }

abbrev scheduling : JobManager
scheduling = set_scheduler (some idle) empty

scheduling-knows : lookup "compile" scheduling.jobs ≡ none
unfolding set_scheduler new_job_manager lookup
scheduling-knows = refl

has_idle : scheduling.scheduler ≡ some idle
unfolding set_scheduler
has_idle = refl

abbrev launched : Scheduler
launched = record idle {
  launched = record { request = request compile; job = compile; runtime_impl = some gcc_impl } ∷ [];
}

places :
    enqueue_job config 4 (some (request compile)) idle
    ≡ done (launched, ok (placed "here" gcc "Using explicitly specified local runtime"))
unfolding enqueue_job plan_job simple_local_first aggregated_manager
places = refl

submit_job-Scheduled_example :
    (new : JobManager) × (submit_job config clock undrained compile scheduling
      ≡ done (finished (new, ok (handle compile scheduling))))
    × Scheduled clock compile scheduling launched new
submit_job-Scheduled_example =
    submit_job-Scheduled config clock undrained compile scheduling idle launched
      (ok (placed "here" gcc "Using explicitly specified local runtime")) scheduling-knows has_idle
      places
