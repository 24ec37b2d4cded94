-- ===== src/Daemon/JobManager/Steps/Machine.antt =====
-- A step of the job manager does to a job's view what the job's own machine does.
use buildozer.Common.{
  ℕ, String, some, ◌≡◌, arith, inl, inr, Option-cases, lookup, str_eq_iff, lookup-insert,
}
use buildozer.Errors.{Outcome, done, Outcome-cases}
use buildozer.Proto.Job.{Job, JobProgress}
use buildozer.Daemon.Channels.{finished, blocked, receive, send, copy}
use buildozer.Daemon.JobState.{JobState, Shared, update_progress, remove_watcher, close_watchers}
use buildozer.Daemon.JobManager.{
  JobManager, WatchHandle, on_job, register_job, received_job, subscribe, send_snapshot,
  progress_callback, set_result,
}
use buildozer.Daemon.JobManager.Steps.{
  Step, registers, subscribes, sends_snapshot, progresses, outputs, sets_result, closes, stops,
  receives, gets_scheduler, step,
}
use buildozer.Daemon.JobManager.Steps.Views.{
  seen, view, moved, wrote, view_step, on_job-view, update_progress-seen, progress_callback-seen,
  close_watchers-seen, remove_watcher-seen,
}
use buildozer.Daemon.JobState.{add_watcher}

-- A method that leaves the view of its job.
on_job-same :
    (id other : String) (act : Shared → Outcome Shared) (jm new : JobManager)
    → ((js : JobState) (r : Shared) → act (js, jm.channels) ≡ done r → seen r.0 ≡ seen js)
    → on_job id act jm ≡ done new
    → view other new ≡ view other jm
on_job-same id other act jm new h e =
    ground (arith, on_job-view id other act (λ v. v) jm new h e, Option-cases (view other jm))

register_job-view :
    (now later : ℕ) (job : Job) (other : String) (jm : JobManager)
    → view other (register_job now later job jm).0
      ≡ view_step (registers now later job) other (view other jm)
unfolding register_job view_step
register_job-view now later job other jm = elim (Option-cases (lookup job.id jm.jobs)) [
  | inl unknown ↦ ground (
    arith,
    unknown,
    lookup-insert job.id other (received_job now later job) jm.jobs,
    str_eq_iff job.id other,
  )
  | inr (js, known) ↦ ground (arith, known, str_eq_iff job.id other)
]

subscribe-view :
    (id other : String) (jm : JobManager) → view other (subscribe id jm).0 ≡ view other jm
unfolding subscribe add_watcher
subscribe-view id other jm = elim (Option-cases (lookup id jm.jobs)) [
  | inl unknown ↦ ground (arith, unknown)
  | inr (js, known) ↦ ground (
    arith,
    known,
    lookup-insert id other (add_watcher jm.channels.next js) jm.jobs,
    str_eq_iff id other,
  )
]

send_snapshot-view :
    (h : WatchHandle) (p : JobProgress) (other : String) (jm new : JobManager)
    → step (sends_snapshot h p) jm ≡ done new
    → view other new ≡ view other jm
unfolding step send_snapshot
send_snapshot-view h p other jm new e = elim (Outcome-cases (send (copy p) h.channel jm.channels)) [
  | inl (finished chs, sent) ↦ ground (arith, e, sent)
  | inl (blocked, sent) ↦ ground (arith, e, sent)
  | inr sent ↦ absurd (ground (arith, e, sent))
]

-- A step about one job changes what the manager tells of this job alone, as the job's machine
-- says: the job itself stays, a message is added to the log, and the result of a terminal status
-- is shown only where it was set before the status.
pub view-step :
    (s : Step) (other : String) (jm new : JobManager)
    → step s jm ≡ done new
    → view other new ≡ view_step s other (view other jm)
unfolding step view_step set_result
view-step (registers now later job) other jm new e =
    ground (arith, register_job-view now later job other jm, e)
view-step (subscribes id) other jm new e = ground (arith, subscribe-view id other jm, e)
view-step (sends_snapshot h p) other jm new e = send_snapshot-view h p other jm new e
view-step (progresses now id status message) other jm new e = ground (
  arith,
  on_job-view id other (update_progress now status message) (moved now status message) jm new
      (update_progress-seen now status message jm.channels) e,
  Option-cases (view other jm),
)
view-step (outputs id o) other jm new e = ground (
  arith,
  on_job-view id other (progress_callback o) (wrote o) jm new (progress_callback-seen o jm.channels)
      e,
  Option-cases (view other jm),
)
view-step (sets_result id r) other jm new e = ground (
  arith,
  on_job-view id other (set_result r) (λ v. record v { result = some r }) jm new
      (λ js out k. ground (arith, k)) e,
  Option-cases (view other jm),
)
view-step (closes drained id) other jm new e =
    on_job-same id other (close_watchers drained) jm new (close_watchers-seen drained jm.channels) e
view-step (stops h) other jm new e =
    on_job-same h.job_id other (remove_watcher h.channel) jm new
      (remove_watcher-seen h.channel jm.channels) e
view-step (receives c) other jm new e = elim (Outcome-cases (done (receive c jm.channels))) [
  | inl (finished x, k) ↦ ground (arith, e, k)
  | inl (blocked, k) ↦ ground (arith, e, k)
  | inr k ↦ absurd (ground (arith, k))
]
view-step (gets_scheduler s) other jm new e = ground (arith, e)
