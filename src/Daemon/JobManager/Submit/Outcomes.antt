-- ===== src/Daemon/JobManager/Submit/Outcomes.antt =====
-- What `SubmitJob` answers and leaves: for a job that is known, without a scheduler, and with one.
use buildozer.Common.{
  ℕ, Bool, true, none, some, List, [], ◌∷◌, ◌++◌, ◌≡◌, ◌∙◌, refl, arith, lookup, insert,
  lookup-insert, str_eq_iff,
}
use buildozer.Errors.{text, ok, err, done, ◌>>=◌}
use buildozer.Proto.Job.{Job, JobStatus}
use buildozer.Scheduler.Dispatch.{SchedulerConfig}
use buildozer.Daemon.Channels.{Update, copy, live, finished}
use buildozer.Daemon.JobState.{JobState, update_progress, progressed}
use buildozer.Daemon.JobManager.{
  JobManager, WatchHandle, on_job, register_job, received_job, watch_job_status,
}
use buildozer.Daemon.JobManager.Submit.{
  submit_job, submit_watched, ask_scheduler, fail_submission, unavailable,
}
use buildozer.Daemon.JobManager.Submit.Solo.{
  Solo, update_progress-Solo, set_result-Solo, close_watchers-Solo, watch_job_status-Solo,
}

-- The state of the job in the queue.
abbrev pub queued : (ℕ → ℕ) → Job → ℕ → JobState
queued clock job c =
    let first : JobState = record (received_job (clock 0) (clock 1) job) { watchers = c ∷ [] } in
    let second : JobState = record first {
      progress = progressed (clock 2) JobStatus.ready "Job ready for scheduling" first;
    } in
    record second { progress = progressed (clock 3) JobStatus.queued "Job entered queue" second }

-- What the watcher's channel holds by then: the RECEIVED message, and the job's message twice.
abbrev pub updates : (ℕ → ℕ) → Job → List Update
updates clock job = copy (received_job (clock 0) (clock 1) job).progress ∷ live ∷ live ∷ []

abbrev pub handle : Job → JobManager → WatchHandle
handle job jm = record { job_id = job.id; channel = jm.channels.next }

register_job-new :
    (now later : ℕ) (job : Job) (jm : JobManager)
    → lookup job.id jm.jobs ≡ none
    → register_job now later job jm
      ≡ (record jm { jobs = insert job.id (received_job now later job) jm.jobs }, none)
unfolding register_job
register_job-new now later job jm new = rw new refl

-- The three calls before the scheduler's, in sequence.
submit_job-chain :
    (config : SchedulerConfig) (clock : ℕ → ℕ) (drained : ℕ → Bool) (job : Job) (h : WatchHandle)
    (jm watched is_ready waiting : JobManager)
    → lookup job.id jm.jobs ≡ none
    → watch_job_status job.id
        (record jm { jobs = insert job.id (received_job (clock 0) (clock 1) job) jm.jobs })
      ≡ done (finished (watched, ok h))
    → on_job job.id (update_progress (clock 2) JobStatus.ready "Job ready for scheduling") watched
      ≡ done is_ready
    → on_job job.id (update_progress (clock 3) JobStatus.queued "Job entered queue") is_ready
      ≡ done waiting
    → submit_job config clock drained job jm
      ≡ (ask_scheduler config clock drained job h waiting >>= λ r. done (finished r))
unfolding submit_job submit_watched
submit_job-chain config clock drained job h jm watched is_ready waiting new e₁ e₂ e₃ =
    rw (register_job-new (clock 0) (clock 1) job jm new, submit_job)
      (rw e₁ (rw (e₂, submit_watched) (rw e₃ refl)))

-- Up to the scheduler's call, for a new job.
pub submitted :
    (config : SchedulerConfig) (clock : ℕ → ℕ) (drained : ℕ → Bool) (job : Job) (jm : JobManager)
    → lookup job.id jm.jobs ≡ none
    → (waiting : JobManager) × Solo job.id jm.channels.next jm.scheduler jm.daemon_id
        (queued clock job jm.channels.next)
        (updates clock job)
        waiting
      × (submit_job config clock drained job jm ≡ (
          ask_scheduler config clock drained job (handle job jm) waiting >>= λ r.
          done (finished r)))
submitted config clock drained job jm new =
    let js = received_job (clock 0) (clock 1) job in
    let registered = record jm { jobs = insert job.id js jm.jobs } in
    let there : lookup job.id registered.jobs ≡ some js =
      ground (arith, lookup-insert job.id job.id js jm.jobs, str_eq_iff job.id job.id) in
    let (watched, e₁, s₁) = watch_job_status-Solo job.id js registered there refl in
    let (is_ready, e₂, s₂) =
      update_progress-Solo job.id jm.channels.next jm.scheduler jm.daemon_id (clock 2)
        JobStatus.ready "Job ready for scheduling" _ _ watched s₁ (omega arith) in
    let (waiting, e₃, s₃) =
      update_progress-Solo job.id jm.channels.next jm.scheduler jm.daemon_id (clock 3)
        JobStatus.queued "Job entered queue" _ _ is_ready s₂ (omega arith) in
    (
      waiting,
      s₃,
      submit_job-chain config clock drained job (handle job jm) jm watched is_ready waiting new e₁
          e₂ e₃,
    )

-- A job whose ID the manager knows is refused, and nothing changes.
pub submit_job-known :
    (config : SchedulerConfig) (clock : ℕ → ℕ) (drained : ℕ → Bool) (job : Job) (jm : JobManager)
    (js : JobState)
    → lookup job.id jm.jobs ≡ some js
    → submit_job config clock drained job jm
      ≡ done (finished (jm, err (text "job %s already submitted")))
unfolding submit_job register_job
submit_job-known config clock drained job jm js known = ground (arith, known)

-- What a submission without a scheduler leaves: the job is FAILED, the manager has its result, but
-- the message was changed before the result was set, and shows none. The watcher's channel is
-- closed; it holds the first message, and pointers to the last one for every later status.
pub record Unscheduled (clock : ℕ → ℕ) (job : Job) (jm new : JobManager) : Type 0 where
  pub final : JobState
  pub known : lookup job.id new.jobs ≡ some final
  pub has_failed : final.progress.status ≡ JobStatus.failed
  pub has_result : final.result ≡ some (unavailable job jm)
  pub shows_none : final.progress.result ≡ none
  pub unwatched : final.watchers ≡ []
  pub closed :
      new.channels.at jm.channels.next
      ≡ record { buffer = updates clock job ++ live ∷ live ∷ []; closed = true }

fail_submission-Solo :
    (clock : ℕ → ℕ) (drained : ℕ → Bool) (job : Job) (jm waiting : JobManager)
    → Solo job.id jm.channels.next jm.scheduler jm.daemon_id
        (queued clock job jm.channels.next)
        (updates clock job)
        waiting
    → (new : JobManager) × (fail_submission (clock 4) drained job waiting
        ≡ done (new, err (text "scheduler not available")))
      × Unscheduled clock job jm new
unfolding fail_submission
fail_submission-Solo clock drained job jm waiting s =
    let c = jm.channels.next in
    let (told, e₁, s₁) =
      update_progress-Solo job.id c jm.scheduler jm.daemon_id (clock 4) JobStatus.failed
        "Scheduler not available" _ _ waiting s (omega arith) in
    let (kept, e₂, s₂) =
      set_result-Solo job.id c jm.scheduler jm.daemon_id (unavailable job told) _ _ told s₁ in
    let (shut, e₃, known, there, still) =
      close_watchers-Solo drained job.id c jm.scheduler jm.daemon_id _ _ kept s₂ (omega arith) in
    (
      shut,
      rw e₁ (rw e₂ (rw e₃ refl)),
      record {
        final = _;
        known = known;
        has_failed = refl;
        has_result = ground (arith, s₁.daemon_known);
        shows_none = refl;
        unwatched = refl;
        closed = there;
      },
    )

ask_scheduler-unset :
    (config : SchedulerConfig) (clock : ℕ → ℕ) (drained : ℕ → Bool) (job : Job) (h : WatchHandle)
    (jm : JobManager)
    → jm.scheduler ≡ none
    → ask_scheduler config clock drained job h jm ≡ fail_submission (clock 4) drained job jm
unfolding ask_scheduler
ask_scheduler-unset config clock drained job h jm unset = rw unset refl

-- Without a scheduler a new job is refused, and stays known as failed.
pub submit_job-Unscheduled :
    (config : SchedulerConfig) (clock : ℕ → ℕ) (drained : ℕ → Bool) (job : Job) (jm : JobManager)
    → lookup job.id jm.jobs ≡ none
    → jm.scheduler ≡ none
    → (new : JobManager) × (submit_job config clock drained job jm
        ≡ done (finished (new, err (text "scheduler not available"))))
      × Unscheduled clock job jm new
submit_job-Unscheduled config clock drained job jm new unset =
    let (waiting, s, e) = submitted config clock drained job jm new in
    let (last, e', left) = fail_submission-Solo clock drained job jm waiting s in
    let asked =
      ask_scheduler-unset config clock drained job (handle job jm) waiting
        (s.has_scheduler ∙ unset) in
    (last, e ∙ rw asked (rw e' refl), left)
