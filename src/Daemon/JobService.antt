-- ===== src/Daemon/JobService.antt =====
-- pkg/daemon/job_service.go: the handlers of the job service. A stream's loop receives from the
-- watch's channel until it would block: then it waits for the manager, or for the client to go.
-- `error_text` is `err.Error()`.
pub mod Streams
use buildozer.Common.{
  ℕ, zero, suc, ◌+◌, String, Bool, true, false, Option, none, some, List, [], ◌∷◌, ◌++◌,
  if◌then◌else◌, str_eq,
}
use buildozer.Proto.Job.{Job, JobProgress, RuntimeRequirement, unset}
use buildozer.Errors.{Err, text, wrapped, Result, ok, err, Outcome, done, ◌>>=◌}
use buildozer.Scheduler.Dispatch.{SchedulerConfig}
use buildozer.Daemon.Channels.{
  Update, copy, live, Attempt, finished, blocked, Received, value, no_more, receive,
}
use buildozer.Daemon.JobManager.{
  JobManager, WatchHandle, JobStatusReply, get_job_status, cancel_job, watch_job_status,
}
use buildozer.Daemon.JobManager.Submit.{submit_job}

-- `WatchJobStatusResponse`, and the `StatusUpdate` of a submission's stream.
pub record StatusUpdate : Type 0 where
  pub job_status : JobStatusReply
  pub updated_at : ℕ

-- Where a stream's loop stands: it has ended, it waits for its channel, or a call failed.
pub data StreamEnd : Type 0 where
  ended : StreamEnd
  waits : StreamEnd
  stream_failed : Err → StreamEnd

-- `progress.UpdatedAt` of what was received.
abbrev pub updated_at_of : Update → JobStatusReply → ℕ
updated_at_of (copy p) reply = p.updated_at
updated_at_of live reply = reply.progress.updated_at

-- The updates that a stream sends, the manager behind it, and where it stands.
abbrev pub Streamed : Type 0
Streamed = List StatusUpdate × JobManager × StreamEnd

abbrev pub with_update : StatusUpdate → Option Streamed → Option Streamed
with_update u none = none
with_update u (some (us, jm, end)) = some (u ∷ us, jm, end)

-- The loop of the streams, as long as the client takes what is sent. `none` says that the fuel
-- ran out.
unfoldable pub stream : ℕ → String → ℕ → JobManager → Option Streamed
stream zero id c jm = none
stream (suc fuel) id c jm = elim (receive c jm.channels) [
  | blocked ↦ some ([], jm, waits)
  | finished (chs, no_more) ↦ some ([], record jm { channels = chs }, ended)
  | finished (chs, value u) ↦
      let taken = record jm { channels = chs } in
      let rest = stream fuel id c taken in
      elim (get_job_status id taken) [
        | err e ↦ some ([], taken, stream_failed e)
        | ok reply ↦
            with_update (record { job_status = reply; updated_at = updated_at_of u reply }) rest
      ]
]

-- The checks of a submitted job: the message of a refusal.
unfoldable pub refusal : Job → Option String
refusal job =
    if str_eq job.id "" then some "job ID cannot be empty" else elim job.runtime_requirement [
      | unset ↦ some "job runtime is required (either runtime or runtime_match_query must be set)"
      | _ ↦ elim job.job_spec [
        | none ↦ some "job spec is required (cpp_compile or cpp_link)"
        | some spec ↦ none
      ]
    ]

-- `SubmitJobResponse`: a confirmation, of an accepted job or with the message of a refusal, or an
-- update.
pub data SubmitJobResponse : Type 0 where
  confirmation : Bool → String → SubmitJobResponse
  status_update : StatusUpdate → SubmitJobResponse

-- What a submission has come to: the confirmation that was sent, and the watch, where the
-- manager took the job.
pub record Submission : Type 0 where
  pub confirmed : SubmitJobResponse
  pub manager : JobManager
  pub watch : Result (Option WatchHandle)

abbrev pub accepted : SubmitJobResponse
accepted = confirmation true ""

after_submit : Attempt (JobManager × Result WatchHandle) → Outcome (Attempt Submission)
after_submit blocked = done blocked
after_submit (finished (jm, ok h)) =
    done (finished (record { confirmed = accepted; manager = jm; watch = ok (some h) }))
after_submit (finished (jm, err e)) =
    done (finished (record { confirmed = accepted; manager = jm; watch = err e }))

-- `SubmitJob` up to the loop of its stream.
unfoldable pub handle_submit :
    SchedulerConfig → (ℕ → ℕ) → (ℕ → Bool) → Job → JobManager → Outcome (Attempt Submission)
unfolding refusal after_submit
handle_submit config clock drained job jm = elim (refusal job) [
  | some message ↦
      done (
        finished (record { confirmed = confirmation false message; manager = jm; watch = ok none }))
  | none ↦ submit_job config clock drained job jm >>= after_submit
]

-- `GetJobStatus`: the reply, or the error's text.
unfoldable pub handle_get_job_status :
    (Err → String) → String → JobManager → Option JobStatusReply × String
handle_get_job_status error_text id jm = elim (get_job_status id jm) [
  | err e ↦ (none, error_text e)
  | ok reply ↦ (some reply, "")
]

-- `CancelJobResponse`
pub record CancelJobResponse : Type 0 where
  pub success : Bool
  pub error_message : String
  pub jobs_cancelled : ℕ

cancel_response : (Err → String) → JobManager × Option Err → JobManager × CancelJobResponse
cancel_response error_text (jm, none) =
    (jm, record { success = true; error_message = ""; jobs_cancelled = 1 })
cancel_response error_text (jm, some e) =
    (jm, record { success = false; error_message = error_text e; jobs_cancelled = 0 })

unfoldable pub handle_cancel :
    (Err → String)
    → ℕ
    → (ℕ → Bool)
    → String
    → String
    → JobManager
    → Outcome (JobManager × CancelJobResponse)
unfolding cancel_response
handle_cancel error_text now drained id reason jm =
    cancel_job now drained id reason jm >>= λ r. done (cancel_response error_text r)
