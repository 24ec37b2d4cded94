-- ===== src/Daemon/JobManager/Ending.antt =====
-- How a job ends: `CancelJob`, the completion callback, and what both do to the watchers'
-- channels.
pub mod ExitCode
pub mod Completion
use Prim.Native.String.{◌++◌ as append}
use buildozer.Common.{
  ℕ, Bool, true, false, String, Option, none, some, List, [], ◌∷◌, ◌++◌, ◌≡◌, ◌⊎◌, subst, refl, ◌∙◌,
  sym, if◌then◌else◌, ◌||◌, arith, inl, inr, Bool-cases, Option-cases, lookup, insert, str_eq,
  str_eq_iff, lookup-insert, is_some,
}
use buildozer.Errors.{Err, Outcome, done, panic, ◌>>=◌}
use buildozer.Proto.Job.{Job, JobProgress, JobResult, JobStatus}
use buildozer.Scheduler.Dispatch.{ExecutionResult}
use buildozer.Scheduler.Dispatch.Finalize.{Stager, finalize}
use buildozer.Daemon.Channels.{Channels, notify, close_all, is_among, make, set, send, copy}
use buildozer.Daemon.Channels.Effects.{
  notify-open, close_all-open, HasSameChannels, HasClosed, IsBounded,
}
use buildozer.Daemon.JobState.{
  JobState, Shared, is_terminal, update_progress, progressed, close_watchers, add_watcher,
}
use buildozer.Daemon.JobManager.{
  JobManager, WatchHandle, with_job, on_job, cancel_job, subscribe, set_result, send_snapshot,
  not_found,
}
use buildozer.Daemon.JobManager.Submit.{completion_callback, conclude, final_status, job_result}
use buildozer.Daemon.JobManager.Steps.{
  Step, subscribes, sends_snapshot, progresses, closes, step, run,
}
use buildozer.Daemon.JobManager.Steps.Kept.{IsSound, Watches}
use buildozer.Daemon.JobManager.Steps.Methods.{All-IsOpen, All-IsOf-same}
use buildozer.Daemon.JobManager.Steps.Entering.{subscribe-IsSound}
use buildozer.Daemon.JobManager.Steps.Views.{View, seen, view, moved}

-- A method of a known job's state.
pub on_job-known :
    (id : String) (act : Shared → Outcome Shared) (jm : JobManager) (js : JobState) (r : Shared)
    → lookup id jm.jobs ≡ some js
    → act (js, jm.channels) ≡ done r
    → on_job id act jm ≡ done (with_job id jm r)
unfolding on_job
on_job-known id act jm js r known acted = ground (arith, known, acted)

pub lookup-with_job :
    (id : String) (jm : JobManager) (r : Shared) → lookup id (with_job id jm r).jobs ≡ some r.0
lookup-with_job id jm r = ground (arith, lookup-insert id id r.0 jm.jobs, str_eq_iff id id)

-- A change of the status of a job whose watchers are open.
pub update_progress-known :
    (now : ℕ) (status : JobStatus) (message : String) (owner : ℕ → String) (id : String)
    (jm : JobManager) (js : JobState)
    → lookup id jm.jobs ≡ some js
    → IsBounded jm.channels
    → Watches owner jm.channels id js.watchers
    → (told : Channels) × (on_job id (update_progress now status message) jm
        ≡ done (with_job id jm (record js { progress = progressed now status message js }, told)))
      × HasSameChannels jm.channels told
      × IsBounded told
      × Watches owner told id js.watchers
unfolding update_progress
update_progress-known now status message owner id jm js known bounded (h, d) =
    let (told, e, same, b) =
      notify-open js.watchers jm.channels (All-IsOpen owner jm.channels id js.watchers h) bounded in
    (
      told,
      on_job-known id (update_progress now status message) jm js _ known (rw e refl),
      same,
      b,
      (All-IsOf-same owner jm.channels told id js.watchers same h, d),
    )

-- The two steps of a cancellation, with what they leave: the CANCELLED status with the reason,
-- and the closed channels.
pub record Cancelled (now : ℕ) (drained : ℕ → Bool) (id reason : String) (jm : JobManager)
    (js : JobState) : Type 0 where
  pub told : JobManager
  pub new : JobManager
  pub tells :
      on_job id (update_progress now JobStatus.cancelled (append "Cancelled: " reason)) jm
      ≡ done told
  pub ends : on_job id (close_watchers drained) told ≡ done new
  pub sees :
      view id new ≡ some (moved now JobStatus.cancelled (append "Cancelled: " reason) (seen js))
  pub shut :
      (c : ℕ) → (new.channels.at c).closed ≡ (is_among c js.watchers || (jm.channels.at c).closed)
  pub small : IsBounded new.channels
  pub same_next : new.channels.next ≡ jm.channels.next

pub cancelled :
    (now : ℕ) (drained : ℕ → Bool) (id reason : String) (jm : JobManager) (js : JobState)
    → IsSound jm
    → lookup id jm.jobs ≡ some js
    → Cancelled now drained id reason jm js
unfolding close_watchers
cancelled now drained id reason jm js sound known =
    let message = append "Cancelled: " reason in
    let changed : JobState = record js {
      progress = progressed now JobStatus.cancelled message js;
    } in
    let (told, e, same, b, w) =
      update_progress-known now JobStatus.cancelled message sound.owner id jm js known sound.bounded
        (sound.watched id js known) in
    let (shut, e', closed, b') =
      close_all-open drained js.watchers told (All-IsOpen sound.owner told id js.watchers w.0) w.1
        b in
    let mid = with_job id jm (changed, told) in
    let last : Shared = (record changed { watchers = [] }, shut) in
    record {
      told = mid;
      new = with_job id mid last;
      tells = e;
      ends =
          on_job-known id (close_watchers drained) mid changed last
            (lookup-with_job id jm (changed, told)) (rw e' refl);
      sees = rw (lookup-with_job id mid last) refl;
      shut = λ c. ground (arith, closed.1 c, same.1 c);
      small = b';
      same_next = omega (arith, closed.0, same.0);
    }

pub cancel_job-known :
    (now : ℕ) (drained : ℕ → Bool) (id reason : String) (jm : JobManager) (js : JobState)
    → lookup id jm.jobs ≡ some js
    → (r : Cancelled now drained id reason jm js)
    → cancel_job now drained id reason jm ≡ done (r.new, none)
unfolding cancel_job
cancel_job-known now drained id reason jm js known r = rw known (rw r.tells (rw r.ends refl))

-- Cancelling a job that the manager knows succeeds, never panics, makes it CANCELLED with the
-- reason in the log whatever its status was, keeps a result that was set and shows it, and closes
-- the channels of all its watchers and no others. Of an unknown job it fails and changes nothing.
pub cancel_job_cases :
    (now : ℕ) (drained : ℕ → Bool) (id reason : String) (jm : JobManager)
    → IsSound jm
    → ((js : JobState) × (new : JobManager) × (lookup id jm.jobs ≡ some js)
        × (cancel_job now drained id reason jm ≡ done (new, none))
        × (view id new
            ≡ some (moved now JobStatus.cancelled (append "Cancelled: " reason) (seen js)))
        × ((c : ℕ)
            → (new.channels.at c).closed ≡ (is_among c js.watchers || (jm.channels.at c).closed)))
      ⊎ (lookup id jm.jobs ≡ none)
        × (cancel_job now drained id reason jm ≡ done (jm, some not_found))
unfolding cancel_job
cancel_job_cases now drained id reason jm sound = elim (Option-cases (lookup id jm.jobs)) [
  | inl unknown ↦ inr (unknown, rw unknown refl)
  | inr (js, known) ↦
      let r = cancelled now drained id reason jm js sound known in
      inl (js, r.new, known, cancel_job-known now drained id reason jm js known r, r.sees, r.shut)
]

subscribe-known :
    (id : String) (jm : JobManager) (js : JobState)
    → lookup id jm.jobs ≡ some js
    → (subscribe id jm).0 ≡ with_job id jm (add_watcher jm.channels.next js, make jm.channels)
unfolding subscribe
subscribe-known id jm js known = ground (arith, known)

is_among-snoc : (c : ℕ) (cs : List ℕ) → is_among c (cs ++ c ∷ []) ≡ true
unfolding is_among
is_among-snoc c [] = ground arith
is_among-snoc c (d ∷ cs) = ground (arith, is_among-snoc c cs)

-- A job is cancelled while a watch of it has its channel already and has not sent its first
-- message yet: that send panics. This is so for every sound manager and every job that it knows,
-- finished or not.
pub cancel-panics_watch :
    (now : ℕ) (drained : ℕ → Bool) (id reason : String) (p : JobProgress) (jm : JobManager)
    (js : JobState)
    → IsSound jm
    → lookup id jm.jobs ≡ some js
    → run
        (subscribes id
          ∷ progresses now id JobStatus.cancelled (append "Cancelled: " reason)
          ∷ closes drained id
          ∷ sends_snapshot (record { job_id = id; channel = jm.channels.next }) p
          ∷ [])
        jm
      ≡ panic
unfolding run add_watcher send_snapshot send
cancel-panics_watch now drained id reason p jm js sound known =
    let c = jm.channels.next in
    let sub = with_job id jm (add_watcher c js, make jm.channels) in
    let r =
      cancelled now drained id reason sub (add_watcher c js)
        (subst IsSound (subscribe-known id jm js known) (subscribe-IsSound id jm sound))
        (lookup-with_job id jm (add_watcher c js, make jm.channels)) in
    let shut : (r.new.channels.at c).closed ≡ true =
      ground (arith, r.shut c, is_among-snoc c js.watchers) in
    rw (subscribe-known id jm js known) (rw r.tells (rw r.ends (rw shut refl)))
