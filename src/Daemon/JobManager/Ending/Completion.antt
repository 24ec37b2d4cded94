-- ===== src/Daemon/JobManager/Ending/Completion.antt =====
-- The completion callback: the result that it keeps and the status that it shows.
use Prim.Native.String.{◌++◌ as append}
use buildozer.Common.{ℕ, String, Option, none, some, ◌≡◌, ◌↔◌, ◌⊎◌, refl, arith, inl, inr, lookup}
use buildozer.Errors.{Err, done}
use buildozer.Proto.Job.{Job, JobResult, JobStatus, ResultStatus}
use buildozer.Scheduler.Dispatch.{ExecutionResult}
use buildozer.Scheduler.Dispatch.Finalize.{Stager, finalize}
use buildozer.Daemon.Channels.Effects.{IsBounded}
use buildozer.Daemon.JobState.{JobState, update_progress, progressed}
use buildozer.Daemon.JobManager.{JobManager, with_job, on_job, set_result}
use buildozer.Daemon.JobManager.Submit.{completion_callback, conclude, final_status, job_result}
use buildozer.Daemon.JobManager.Steps.Kept.{IsSound}
use buildozer.Daemon.JobManager.Steps.Views.{View, seen, view, moved}
use buildozer.Scheduler.Dispatch.Finalize.Outcomes.{finalize_cases}
use buildozer.Daemon.JobManager.Ending.ExitCode.{IsInt32, IsInt32-cases, to_int32_lem}
use buildozer.Daemon.JobManager.Ending.{on_job-known, lookup-with_job, update_progress-known}

-- The job's view when it has ended.
abbrev ended : ℕ → JobStatus → String → JobResult → JobState → View
ended now status message r js = moved now status message (record (seen js) { result = some r })

-- The two steps of the callback, of a job that the manager knows.
concluded :
    (now : ℕ) (status : JobStatus) (message id : String) (r : JobResult) (jm : JobManager)
    (js : JobState)
    → IsSound jm
    → lookup id jm.jobs ≡ some js
    → (kept : JobManager) × (new : JobManager) × (on_job id (set_result r) jm ≡ done kept)
      × (on_job id (update_progress now status message) kept ≡ done new)
      × (view id new ≡ some (ended now status message r js))
      × ((c : ℕ) → (new.channels.at c).closed ≡ (jm.channels.at c).closed)
      × IsBounded new.channels
unfolding set_result
concluded now status message id r jm js sound known =
    let with_result : JobState = record js { result = some r } in
    let kept = with_job id jm (with_result, jm.channels) in
    let there = lookup-with_job id jm (with_result, jm.channels) in
    let (told, e, same, b, w) =
      update_progress-known now status message sound.owner id kept with_result there sound.bounded
        (sound.watched id js known) in
    let last : JobState = record with_result {
      progress = progressed now status message with_result;
    } in
    (
      kept,
      with_job id kept (last, told),
      on_job-known id (set_result r) jm js (with_result, jm.channels) known refl,
      e,
      rw (lookup-with_job id kept (last, told)) refl,
      same.1,
      b,
    )

-- What a finalization's answer leads to.
abbrev pub shown_status : ExecutionResult → Option Err → JobStatus
shown_status executed none = final_status executed
shown_status executed (some e) = JobStatus.failed

-- The job has ended with this result and status: the manager keeps the result, its message shows
-- both, and the channels are as they were, the watchers' open ones included.
pub record HasEnded (job : Job) (r : JobResult) (status : JobStatus) (jm new : JobManager)
    : Type 0 where
  pub end : View
  pub sees : view job.id new ≡ some end
  pub keeps : end.result ≡ some r
  pub shows : end.progress.result ≡ some r
  pub shows_status : end.progress.status ≡ status
  pub same_channels : (c : ℕ) → (new.channels.at c).closed ≡ (jm.channels.at c).closed
  pub small : IsBounded new.channels

pub conclude_lem :
    (stager : Stager) (now : ℕ) (job : Job) (executed : ExecutionResult)
    (answer : JobResult × Option Err) (jm : JobManager) (js : JobState)
    → IsSound jm
    → lookup job.id jm.jobs ≡ some js
    → (new : JobManager) × (conclude stager now (final_status executed) job.id answer jm
        ≡ done (new, answer.1))
      × HasEnded job answer.0 (shown_status executed answer.1) jm new
unfolding conclude
conclude_lem stager now job executed (r, none) jm js sound known =
    let (kept, new, e, e', sees, same, b) =
      concluded now (final_status executed) "" job.id r jm js sound known in
    (
      new,
      rw e (rw e' refl),
      record {
        end = ended now (final_status executed) "" r js;
        sees = sees;
        keeps = refl;
        shows = ground arith;
        shows_status = refl;
        same_channels = same;
        small = b;
      },
    )
conclude_lem stager now job executed (r, some x) jm js sound known =
    let message = append "Job completion finalization failed: " (stager.error_text x) in
    let (kept, new, e, e', sees, same, b) =
      concluded now JobStatus.failed message job.id r jm js sound known in
    (
      new,
      rw e (rw e' refl),
      record {
        end = ended now JobStatus.failed message r js;
        sees = sees;
        keeps = refl;
        shows = refl;
        shows_status = refl;
        same_channels = same;
        small = b;
      },
    )

-- The status that is shown and that of the result say the same of an `int32` exit code.
agreement :
    (stager : Stager) (final_job job : Job) (executed : ExecutionResult) (jm : JobManager)
    → IsInt32 executed.exit_code
    → let r = finalize stager final_job (job_result job jm executed) in
      (shown_status executed r.1 ≡ JobStatus.completed) ↔ (r.0.status ≡ ResultStatus.completed)
unfolding job_result
agreement stager final_job job executed jm small =
    let same = (to_int32_lem executed.exit_code).2 small in
    elim (finalize_cases stager final_job (job_result job jm executed)) [
      | inl (failed, e) ↦
          (λ h. ground (arith, e, failed, same, h), λ h. ground (arith, e, failed, same, h))
      | inr (zero, inl e) ↦
          (λ h. ground (arith, e, zero, same, h), λ h. ground (arith, e, zero, same, h))
      | inr (zero, inr (inl (outputs, there, verified, e))) ↦
          (λ h. ground (arith, e, zero, same, h), λ h. ground (arith, e, zero, same, h))
      | inr (zero, inr (inr (x, e, status, code))) ↦
          (λ h. ground (arith, e, status, h), λ h. ground (arith, e, status, h))
    ]

-- The completion callback, of a sound manager that knows the job, returns with the error of the
-- finalization. The job has ended with the finalization's result, which its message shows; the
-- status is FAILED for an error, and otherwise COMPLETED or FAILED by the exit code; no channel
-- is closed. The status is COMPLETED exactly if the result's is, or the exit code has more than 32
-- bits.
pub completion_callback_lem :
    (stager : Stager) (now : ℕ) (job final_job : Job) (executed : ExecutionResult) (jm : JobManager)
    (js : JobState)
    → IsSound jm
    → lookup job.id jm.jobs ≡ some js
    → let r = finalize stager final_job (job_result job jm executed) in
      (new : JobManager) × (completion_callback stager now job final_job executed jm
        ≡ done (new, r.1))
      × HasEnded job r.0 (shown_status executed r.1) jm new
      × (((shown_status executed r.1 ≡ JobStatus.completed) ↔ (r.0.status ≡ ResultStatus.completed))
          ⊎ (¬ IsInt32 executed.exit_code))
unfolding completion_callback
completion_callback_lem stager now job final_job executed jm js sound known =
    let r = finalize stager final_job (job_result job jm executed) in
    let (new, e, h) = conclude_lem stager now job executed r jm js sound known in
    (
      new,
      e,
      h,
      elim (IsInt32-cases executed.exit_code) [
        | inl small ↦ inl (agreement stager final_job job executed jm small)
        | inr large ↦ inr large
      ],
    )
