-- ===== src/Scheduler/Tracker.antt =====
-- pkg/scheduler/remote_tracker.go, remote_preparer.go and the execution record of types.go: the
-- jobs that run on other peers. Each method holds the tracker's lock around its change, so a
-- call is one step. `now` is what `time.Now().UnixMilli()` gives; a nil status is `none`.
pub mod Jobs
use buildozer.Common.{
  ℕ, String, Bool, true, false, Option, none, some, List, [], ◌∷◌, map, if◌then◌else◌, is_some,
  is_empty_list, str_eq, lookup, insert, delete, Text, ◌&&◌, not,
}
use buildozer.Proto.Job.{Job, JobData, JobProgress, JobStatus}
use buildozer.Errors.{Err, text, wrapped, sentinel, job_data_embedding_failed, Result, ok, err}

pub record RemoteJobExecution : Type 0 where
  pub job_id : String
  pub remote_peer_id : String
  pub prepared_job : Job
  pub last_known_status : JobProgress
  pub status_updated_at : ℕ

pub record RemoteTracker : Type 0 where
  pub remote_executions : List (String × RemoteJobExecution)

abbrev pub new_remote_tracker : RemoteTracker
new_remote_tracker = record { remote_executions = [] }

abbrev pub not_tracked : Err
not_tracked = text "job %s not being tracked"

-- The execution as the tracker first knows it. `StatusUpdatedAt` is read after the status' time.
abbrev pub fresh_execution : ℕ → ℕ → String → String → Job → RemoteJobExecution
fresh_execution now later job_id peer_id job = record {
  job_id = job_id;
  remote_peer_id = peer_id;
  prepared_job = job;
  last_known_status = record {
    job_id = job_id;
    status = JobStatus.queued;
    updated_at = now;
    log_output = "";
    result = none;
  };
  status_updated_at = later;
}

-- The tracker, and the error where the call fails.
abbrev pub Reply : Type 0
Reply = RemoteTracker × Option Err

unfoldable pub track_remote_execution : ℕ → ℕ → String → String → Job → RemoteTracker → Reply
unfolding lookup insert
track_remote_execution now later job_id peer_id job rt =
    if str_eq job_id ""
    then (rt, some (text "job ID cannot be empty"))
    else if str_eq peer_id ""
    then (rt, some (text "remote peer ID cannot be empty"))
    else if is_some (lookup job_id rt.remote_executions)
    then (rt, some (text "job %s already being tracked"))
    else (
      record {
        remote_executions =
            insert job_id (fresh_execution now later job_id peer_id job) rt.remote_executions;
      },
      none,
    )

unfoldable pub update_remote_status : ℕ → String → Option JobProgress → RemoteTracker → Reply
unfolding lookup insert
update_remote_status now job_id none rt =
    if str_eq job_id ""
    then (rt, some (text "job ID cannot be empty"))
    else (rt, some (text "status cannot be nil"))
update_remote_status now job_id (some status) rt =
    if str_eq job_id ""
    then (rt, some (text "job ID cannot be empty"))
    else elim (lookup job_id rt.remote_executions) [
      | none ↦ (rt, some not_tracked)
      | some execution ↦ (
        record {
          remote_executions =
              insert job_id
                (record execution { last_known_status = status; status_updated_at = now })
                rt.remote_executions;
        },
        none,
      )
    ]

unfoldable pub get_remote_execution : String → RemoteTracker → Result RemoteJobExecution
unfolding lookup
get_remote_execution job_id rt = elim (lookup job_id rt.remote_executions) [
  | none ↦ err not_tracked
  | some execution ↦ ok execution
]

unfoldable pub get_remote_status : String → RemoteTracker → Result JobProgress
unfolding lookup
get_remote_status job_id rt = elim (lookup job_id rt.remote_executions) [
  | none ↦ err not_tracked
  | some execution ↦ ok execution.last_known_status
]

unfoldable pub stop_tracking : String → RemoteTracker → Reply
unfolding lookup delete
stop_tracking job_id rt = elim (lookup job_id rt.remote_executions) [
  | none ↦ (rt, some not_tracked)
  | some execution ↦ (record { remote_executions = delete job_id rt.remote_executions }, none)
]

unfoldable pub is_remote_job : String → RemoteTracker → Bool
unfolding lookup
is_remote_job job_id rt = is_some (lookup job_id rt.remote_executions)

-- The order is the map's, which Go does not promise.
unfoldable pub get_all_remote_executions : RemoteTracker → List RemoteJobExecution
get_all_remote_executions rt = map (λ entry. entry.1) rt.remote_executions

-- A call that changes the tracker, at the times that it reads.
pub data Call : Type 0 where
  track : String → String → Job → Call
  update : String → Option JobProgress → Call
  stop : String → Call

unfoldable pub step : ℕ → ℕ → Call → RemoteTracker → Reply
unfolding track_remote_execution update_remote_status stop_tracking
step now later (track job_id peer_id job) rt =
    track_remote_execution now later job_id peer_id job rt
step now later (update job_id status) rt = update_remote_status now job_id status rt
step now later (stop job_id) rt = stop_tracking job_id rt

-- The copy that `PrepareForRemote` makes has the listed fields alone: no content hash and no
-- dependencies.
abbrev pub copy_for_remote : Job → Job
copy_for_remote job = record job { content_hash = none; dependency_ids = []; input_data_ids = [] }

abbrev pub embedding_failed : Err
embedding_failed = wrapped "%w: %v" (sentinel job_data_embedding_failed)

-- `PrepareForRemote`. `embed` is `CreateJobDataListForFiles` of pkg/staging in content mode.
unfoldable pub prepare_for_remote : (List Text → Result (List JobData)) → Option Job → Result Job
prepare_for_remote embed none = err (text "job cannot be nil")
prepare_for_remote embed (some job) =
    if is_empty_list job.inputs && not (is_empty_list job.input_data_ids)
    then elim (embed job.input_data_ids) [
      | err e ↦ err embedding_failed
      | ok inputs ↦ ok (record (copy_for_remote job) { inputs = inputs })
    ]
    else ok (copy_for_remote job)
