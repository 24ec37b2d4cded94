-- ===== src/Daemon/JobManager.antt =====
-- `JobManager` of pkg/daemon/job_manager.go. The table's entry stands for the shared `JobState`
-- that the goroutines point at: an entry is never taken out, and never replaced by another job's.
-- A call is cut into the steps between which it holds no lock.
use Prim.Native.String.{◌++◌ as append}
use buildozer.Common.{
  ℕ, zero, suc, ◌+◌, ◌-◌, ◌%◌, ◌^◌, ltb, ℤ, pos, negsuc, String, Bool, true, false, Option, none,
  some, List, [], ◌∷◌, ◌++◌, if◌then◌else◌, is_some, lookup, insert, str_eq,
}
use buildozer.Proto.Job.{Job, JobProgress, JobResult, JobStatus, ResultStatus, JobData}
use buildozer.Errors.{Err, text, wrapped, Result, ok, err, Outcome, done, panic, ◌>>=◌}
use buildozer.Scheduler.Dispatch.{SchedulerConfig, Scheduler, enqueue_job, ExecutionResult}
use buildozer.Scheduler.Dispatch.Finalize.{Stager, finalize, is_zero}
use buildozer.Scheduler.Heuristic.{SchedulingDecision}
use buildozer.Daemon.Channels.{
  Update, copy, Channels, no_channels, make, send, Attempt, finished, blocked, notify, Received,
  receive,
}
use buildozer.Daemon.JobState.{
  JobState, Shared, update_progress, get_progress, add_watcher, remove_watcher, close_watchers,
}
pub mod Submit
pub mod Steps
pub mod Ending

pub record JobManager : Type 0 where
  pub jobs : List (String × JobState)
  pub channels : Channels
  pub scheduler : Option Scheduler
  pub daemon_id : String

pub record WatchHandle : Type 0 where
  pub job_id : String
  pub channel : ℕ

unfoldable pub new_job_manager : String → JobManager
new_job_manager daemon_id = record {
  jobs = [];
  channels = no_channels;
  scheduler = none;
  daemon_id = daemon_id;
}

unfoldable pub set_scheduler : Option Scheduler → JobManager → JobManager
set_scheduler s jm = record jm { scheduler = s }

abbrev pub not_found : Err
not_found = text "job %s not found"

abbrev with_job : String → JobManager → Shared → JobManager
with_job id jm (js, chs) = record jm { jobs = insert id js jm.jobs; channels = chs }

-- A method of the state of a job. The callers hold the state, so the ID is there.
unfoldable pub on_job : String → (Shared → Outcome Shared) → JobManager → Outcome JobManager
unfolding lookup insert
on_job id act jm = elim (lookup id jm.jobs) [
  | none ↦ done jm
  | some js ↦ act (js, jm.channels) >>= λ r. done (with_job id jm r)
]

-- The state that `SubmitJob` makes.
abbrev pub received_job : ℕ → ℕ → Job → JobState
received_job now later job = record {
  job = job;
  progress = record {
    job_id = job.id;
    status = JobStatus.received;
    updated_at = now;
    log_output = "";
    result = none;
  };
  result = none;
  watchers = [];
  created_at = later;
}

-- `SubmitJob` under the manager's lock.
unfoldable pub register_job : ℕ → ℕ → Job → JobManager → JobManager × Option Err
unfolding lookup insert
register_job now later job jm =
    if is_some (lookup job.id jm.jobs)
    then (jm, some (text "job %s already submitted"))
    else (record jm { jobs = insert job.id (received_job now later job) jm.jobs }, none)

-- `WatchJobStatus` up to `AddWatcher`.
unfoldable pub subscribe : String → JobManager → JobManager × Result WatchHandle
unfolding lookup insert make add_watcher
subscribe id jm = elim (lookup id jm.jobs) [
  | none ↦ (jm, err not_found)
  | some js ↦
      let c = jm.channels.next in
      (
        with_job id jm (add_watcher c js, make jm.channels),
        ok (record { job_id = id; channel = c }),
      )
]

-- `ch <- jobState.GetProgress()`, which holds no lock while it sends.
unfoldable pub send_snapshot : WatchHandle → JobProgress → JobManager → Outcome (Attempt JobManager)
unfolding send
send_snapshot h p jm = send (copy p) h.channel jm.channels >>= λ sent. elim sent [
  | blocked ↦ done blocked
  | finished chs ↦ done (finished (record jm { channels = chs }))
]

-- The progress that a job's state holds.
unfoldable pub progress_of : String → JobManager → Option JobProgress
unfolding lookup get_progress
progress_of id jm = elim (lookup id jm.jobs) [ none ↦ none | some js ↦ some (get_progress js) ]

-- A watch's subscription, with its first message.
unfoldable pub watch_job_status :
    String → JobManager → Outcome (Attempt (JobManager × Result WatchHandle))
unfolding subscribe send_snapshot progress_of
watch_job_status id jm =
    let (subscribed, r) = subscribe id jm in
    elim r [
      | err e ↦ done (finished (subscribed, err e))
      | ok h ↦ elim (progress_of id subscribed) [
        | none ↦ done (finished (subscribed, err not_found))
        | some p ↦ send_snapshot h p subscribed >>= λ sent. elim sent [
          | blocked ↦ done blocked
          | finished jm' ↦ done (finished (jm', ok h))
        ]
      ]
    ]

-- `StopWatching`
unfoldable pub stop_watching : Option WatchHandle → JobManager → Outcome (JobManager × Option Err)
unfolding on_job lookup remove_watcher
stop_watching none jm = done (jm, some (text "watch handle is nil"))
stop_watching (some h) jm =
    if is_some (lookup h.job_id jm.jobs)
    then (on_job h.job_id (remove_watcher h.channel) jm >>= λ jm'. done (jm', none))
    else done (jm, some not_found)

-- `CancelJob`: `drained` is as for `close_watchers`.
unfoldable pub cancel_job :
    ℕ → (ℕ → Bool) → String → String → JobManager → Outcome (JobManager × Option Err)
unfolding on_job lookup update_progress close_watchers
cancel_job now drained id reason jm =
    if is_some (lookup id jm.jobs)
    then (do
      told ← on_job id (update_progress now JobStatus.cancelled (append "Cancelled: " reason)) jm
      shut ← on_job id (close_watchers drained) told
      done (shut, none))
    else done (jm, some not_found)

pub record JobStatusReply : Type 0 where
  pub job_id : String
  pub submitter_client_id : String
  pub progress : JobProgress

unfoldable pub get_job_status : String → JobManager → Result JobStatusReply
unfolding lookup get_progress
get_job_status id jm = elim (lookup id jm.jobs) [
  | none ↦ err not_found
  | some js ↦
      ok (record { job_id = id; submitter_client_id = jm.daemon_id; progress = get_progress js })
]

unfoldable pub get_result : String → JobManager → Result JobResult
unfolding lookup
get_result id jm = elim (lookup id jm.jobs) [
  | none ↦ err not_found
  | some js ↦ elim js.result [
    | none ↦ err (text "job %s has no result (still executing)")
    | some r ↦ ok r
  ]
]

unfoldable pub set_result : JobResult → Shared → Outcome Shared
set_result r (js, chs) = done (record js { result = some r }, chs)

-- `runtime.Progress`, with whether its type is the output's.
pub record OutputProgress : Type 0 where
  pub is_output : Bool
  pub source : String
  pub data_text : String

-- What `progressCallback` leaves of the message: "[source] data" behind the log.
abbrev pub logged : OutputProgress → JobState → JobState
logged o js =
    if o.is_output
    then record js {
      progress = record js.progress {
        log_output =
            append js.progress.log_output (append "[" (append o.source (append "] " o.data_text)));
      };
    }
    else js

unfoldable pub progress_callback : OutputProgress → Shared → Outcome Shared
unfolding notify
progress_callback o (js, chs) = notify js.watchers chs >>= λ told. done (logged o js, told)
