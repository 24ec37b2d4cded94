-- ===== src/Daemon/JobManager/Steps/Views.antt =====
-- What the job manager tells of a job: the job, its progress and its result. Each job evolves on
-- its own, by a small machine.
use Prim.Native.String.{◌++◌ as append}
use buildozer.Common.{
  ℕ, Bool, String, Option, none, some, ◌≡◌, if◌then◌else◌, arith, inl, inr, Bool-cases,
  Option-cases, lookup, str_eq, str_eq_iff, lookup-insert,
}
use buildozer.Errors.{Outcome, done, ◌>>=◌, Outcome-cases}
use buildozer.Proto.Job.{Job, JobProgress, JobResult, JobStatus}
use buildozer.Daemon.Channels.{Channels, notify, close_all, is_among, close}
use buildozer.Daemon.JobState.{
  JobState, Shared, is_terminal, update_progress, remove_watcher, close_watchers,
}
use buildozer.Daemon.JobManager.{JobManager, OutputProgress, on_job, progress_callback}
use buildozer.Daemon.JobManager.Steps.{Step, registers, progresses, outputs, sets_result}

pub record View : Type 0 where
  pub job : Job
  pub progress : JobProgress
  pub result : Option JobResult

abbrev pub seen : JobState → View
seen js = record { job = js.job; progress = js.progress; result = js.result }

abbrev pub seen_of : Option JobState → Option View
seen_of none = none
seen_of (some js) = some (seen js)

abbrev pub view : String → JobManager → Option View
view id jm = seen_of (lookup id jm.jobs)

-- A new job's view.
abbrev pub fresh : ℕ → Job → View
fresh now job = record {
  job = job;
  progress = record {
    job_id = job.id;
    status = JobStatus.received;
    updated_at = now;
    log_output = "";
    result = none;
  };
  result = none;
}

-- A message is the log's next line; a terminal status shows the result that is set by then.
abbrev pub moved : ℕ → JobStatus → String → View → View
moved now status message v = record v {
  progress = record v.progress {
    status = status;
    updated_at = now;
    log_output =
        if str_eq message ""
        then v.progress.log_output
        else append v.progress.log_output (append message "\n");
    result = if is_terminal status then v.result else v.progress.result;
  };
}

abbrev pub wrote : OutputProgress → View → View
wrote o v =
    if o.is_output
    then record v {
      progress = record v.progress {
        log_output =
            append v.progress.log_output (append "[" (append o.source (append "] " o.data_text)));
      };
    }
    else v

-- One job's machine.
unfoldable pub view_step : Step → String → Option View → Option View
view_step (registers now later job) id none =
    if str_eq job.id id then some (fresh now job) else none
view_step (progresses now at_id status message) id (some v) =
    some (if str_eq at_id id then moved now status message v else v)
view_step (outputs at_id o) id (some v) = some (if str_eq at_id id then wrote o v else v)
view_step (sets_result at_id r) id (some v) =
    some (if str_eq at_id id then record v { result = some r } else v)
view_step _ id v = v

abbrev pub changed : (View → View) → Option View → Option View
changed f none = none
changed f (some v) = some (f v)

-- A method of a job's state, by what it does to the view.
pub on_job-view :
    (id other : String) (act : Shared → Outcome Shared) (f : View → View) (jm new : JobManager)
    → ((js : JobState) (r : Shared) → act (js, jm.channels) ≡ done r → seen r.0 ≡ f (seen js))
    → on_job id act jm ≡ done new
    → view other new ≡ (if str_eq id other then changed f (view other jm) else view other jm)
unfolding on_job
on_job-view id other act f jm new h e = elim (Option-cases (lookup id jm.jobs)) [
  | inl unknown ↦ ground (arith, unknown, e, str_eq_iff id other)
  | inr (js, known) ↦ elim (Outcome-cases (act (js, jm.channels))) [
    | inl (r, acted) ↦ ground (
      arith,
      known,
      acted,
      e,
      h js r acted,
      lookup-insert id other r.0 jm.jobs,
      str_eq_iff id other,
    )
    | inr panics ↦ absurd (ground (arith, known, panics, e))
  ]
]

-- A method that begins with a notification.
notified :
    (js : JobState) (chs : Channels) (after : JobState) (r : Shared)
    → (notify js.watchers chs >>= λ told. done (after, told)) ≡ done r
    → r.0 ≡ after
notified js chs after r e = elim (Outcome-cases (notify js.watchers chs)) [
  | inl (told, n) ↦ ground (arith, e, n)
  | inr n ↦ absurd (ground (arith, e, n))
]

pub update_progress-seen :
    (now : ℕ) (status : JobStatus) (message : String) (chs : Channels) (js : JobState) (r : Shared)
    → update_progress now status message (js, chs) ≡ done r
    → seen r.0 ≡ moved now status message (seen js)
unfolding update_progress
update_progress-seen now status message chs js r e = ground (arith, notified js chs _ r e)

pub progress_callback-seen :
    (o : OutputProgress) (chs : Channels) (js : JobState) (r : Shared)
    → progress_callback o (js, chs) ≡ done r
    → seen r.0 ≡ wrote o (seen js)
unfolding progress_callback
progress_callback-seen o chs js r e = ground (arith, notified js chs _ r e)

pub close_watchers-seen :
    (drained : ℕ → Bool) (chs : Channels) (js : JobState) (r : Shared)
    → close_watchers drained (js, chs) ≡ done r
    → seen r.0 ≡ seen js
unfolding close_watchers
close_watchers-seen drained chs js r e = elim (Outcome-cases (close_all drained js.watchers chs)) [
  | inl (shut, n) ↦ ground (arith, e, n)
  | inr n ↦ absurd (ground (arith, e, n))
]

pub remove_watcher-seen :
    (c : ℕ) (chs : Channels) (js : JobState) (r : Shared)
    → remove_watcher c (js, chs) ≡ done r
    → seen r.0 ≡ seen js
unfolding remove_watcher
remove_watcher-seen c chs js r e = elim (Bool-cases (is_among c js.watchers)) [
  | inl listed ↦ elim (Outcome-cases (close c chs)) [
    | inl (shut, n) ↦ ground (arith, e, n, listed)
    | inr n ↦ absurd (ground (arith, e, n, listed))
  ]
  | inr unlisted ↦ ground (arith, e, unlisted)
]
