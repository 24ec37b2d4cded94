-- ===== src/Daemon/JobManager/Submit/Scheduled.antt =====
-- `SubmitJob` of a new job where there is a scheduler.
use buildozer.Common.{ℕ, Bool, true, false, none, some, ◌≡◌, ◌∙◌, refl, lookup}
use buildozer.Errors.{wrapped, Result, ok, err, done}
use buildozer.Proto.Job.{Job}
use buildozer.Scheduler.Queue.{ExecutionRequest}
use buildozer.Scheduler.Heuristic.{SchedulingDecision}
use buildozer.Scheduler.Dispatch.{Scheduler, SchedulerConfig, enqueue_job}
use buildozer.Daemon.Channels.{finished}
use buildozer.Daemon.JobManager.{JobManager, WatchHandle}
use buildozer.Daemon.JobManager.Submit.{submit_job, ask_scheduler, request}
use buildozer.Daemon.JobManager.Submit.Outcomes.{queued, updates, handle, submitted}

-- What a submission with a scheduler leaves before any launched goroutine runs: the job is QUEUED and has no result, whatever the
-- scheduler answered; its one watcher's channel is open, and holds the first message and two
-- pointers to the last one, so READY is never seen.
pub record Scheduled (clock : ℕ → ℕ) (job : Job) (jm : JobManager) (s : Scheduler)
    (new : JobManager) : Type 0 where
  pub scheduler : new.scheduler ≡ some s
  pub known : lookup job.id new.jobs ≡ some (queued clock job jm.channels.next)
  pub watched :
      new.channels.at jm.channels.next ≡ record { buffer = updates clock job; closed = false }

-- What `SubmitJob` answers of the scheduler's answer.
abbrev pub reply : WatchHandle → Result SchedulingDecision → Result WatchHandle
reply h (ok d) = ok h
reply h (err e) = err (wrapped "scheduler error" e)

ask_scheduler-answer :
    (config : SchedulerConfig) (clock : ℕ → ℕ) (drained : ℕ → Bool) (job : Job) (h : WatchHandle)
    (jm : JobManager) (s s' : Scheduler) (r : Result SchedulingDecision)
    → jm.scheduler ≡ some s
    → enqueue_job config (clock 4) (some (request job)) s ≡ done (s', r)
    → ask_scheduler config clock drained job h jm
      ≡ done (record jm { scheduler = some s' }, reply h r)
unfolding ask_scheduler
ask_scheduler-answer config clock drained job h jm s s' (ok d) there queues =
    rw there (rw queues refl)
ask_scheduler-answer config clock drained job h jm s s' (err e) there queues =
    rw there (rw queues refl)

-- The request that the scheduler is to get.
abbrev pub with_callbacks : Job → ExecutionRequest
with_callbacks job = record {
  full_job = some job;
  has_progress_callback = true;
  has_completion_callback = true;
}

-- A new job and a scheduler, as long as no goroutine that the scheduler launched has run: the
-- submission neither panics nor blocks, the scheduler gets the job with both callbacks, and the
-- answer is the watch's handle or the scheduler's error.
pub submit_job-Scheduled :
    (config : SchedulerConfig) (clock : ℕ → ℕ) (drained : ℕ → Bool) (job : Job) (jm : JobManager)
    (s s' : Scheduler) (r : Result SchedulingDecision)
    → lookup job.id jm.jobs ≡ none
    → jm.scheduler ≡ some s
    → enqueue_job config (clock 4) (some (with_callbacks job)) s ≡ done (s', r)
    → (new : JobManager) × (submit_job config clock drained job jm
        ≡ done (finished (new, reply (handle job jm) r)))
      × Scheduled clock job jm s' new
submit_job-Scheduled config clock drained job jm s s' r new there queues =
    let (waiting, solo, e) = submitted config clock drained job jm new in
    (
      record waiting { scheduler = some s' },
      e
          ∙ rw
              (ask_scheduler-answer config clock drained job (handle job jm) waiting s s' r
                (solo.has_scheduler ∙ there) queues)
              refl,
      record { scheduler = refl; known = solo.known; watched = solo.channel },
    )
