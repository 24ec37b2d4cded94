-- ===== src/Daemon/JobService/Streams.antt =====
-- What a stream sends, and when it ends.
use buildozer.Common.{
  ℕ, zero, suc, ◌≤◌, ◌<◌, String, Bool, true, Option, none, some, List, [], ◌∷◌, ◌≡◌, refl, map, ap,
  arith, length, if◌then◌else◌, lookup, is_some, subst, inl, inr, Bool-cases, Option-cases,
}
use buildozer.Proto.Job.{Job}
use buildozer.Errors.{Err, done}
use buildozer.Daemon.Channels.{Update, receive, set, is_among, capacity}
use buildozer.Daemon.JobState.{JobState}
use buildozer.Daemon.JobManager.{JobManager, JobStatusReply, get_job_status}
use buildozer.Scheduler.Dispatch.{ExecutionResult}
use buildozer.Scheduler.Dispatch.Finalize.{Stager, finalize}
use buildozer.Daemon.JobManager.{cancel_job}
use buildozer.Daemon.JobManager.Submit.{completion_callback, job_result}
use buildozer.Daemon.JobManager.Steps.{Step, run}
use buildozer.Daemon.JobManager.Steps.Runs.{StaysOver, run-StaysOver}
use buildozer.Daemon.JobManager.Steps.Kept.{IsSound, IsOf}
use buildozer.Daemon.JobManager.Steps.Methods.{at_listed}
use buildozer.Daemon.JobManager.Steps.Views.{View, view, seen}
use buildozer.Daemon.JobManager.Ending.{cancelled, cancel_job-known}
use buildozer.Daemon.JobManager.Ending.Completion.{conclude_lem}
use buildozer.Daemon.JobService.{StatusUpdate, ended, waits, updated_at_of, stream}

-- What the manager tells of a known job.
abbrev pub told : String → JobManager → JobState → JobStatusReply
told id jm js = record { job_id = id; submitter_client_id = jm.daemon_id; progress = js.progress }

abbrev pub update_of : JobStatusReply → Update → StatusUpdate
update_of reply u = record { job_status = reply; updated_at = updated_at_of u reply }

-- With more fuel than the channel holds values, the stream of a known job sends one update for
-- each value, in order. Each shows the status that the job has when the value is received, not
-- when it was sent. Then the stream ends if its channel is closed, and waits otherwise.
pub stream_lem :
    (fuel : ℕ) (id : String) (c : ℕ) (jm : JobManager) (js : JobState) (held : List Update)
    → lookup id jm.jobs ≡ some js
    → (jm.channels.at c).buffer ≡ held
    → length held < fuel
    → (new : JobManager) × (stream fuel id c jm
        ≡ some (
          map (update_of (told id jm js)) held,
          new,
          if (jm.channels.at c).closed then ended else waits,
        ))
unfolding stream receive get_job_status set
stream_lem zero id c jm js held known e enough = absurd (omega arith)
stream_lem (suc fuel) id c jm js [] known e enough = elim (Bool-cases (jm.channels.at c).closed) [
  | inl shut ↦ (jm, ground (arith, e, shut))
  | inr is_open ↦ (jm, ground (arith, e, is_open))
]
stream_lem (suc fuel) id c jm js (u ∷ held) known e enough =
    let chs = set c (record (jm.channels.at c) { buffer = held }) jm.channels in
    let taken = record jm { channels = chs } in
    let (new, r) = stream_lem fuel id c taken js held known (ground arith) (omega arith) in
    (new, ground (arith, e, known, r))

view-known :
    (id : String) (jm : JobManager) (v : View)
    → view id jm ≡ some v
    → (js : JobState) × (lookup id jm.jobs ≡ some js) × (seen js ≡ v)
view-known id jm v e = elim (Option-cases (lookup id jm.jobs)) [
  | inl unknown ↦ absurd (ground (arith, e, unknown))
  | inr (js, known) ↦ (js, known, ground (arith, e, known))
]

length-map {ℓ κ} :
    {A : Type ℓ} {B : Type κ} (f : A → B) (xs : List A) → length (map f xs) ≡ length xs
length-map f [] = refl
length-map f (x ∷ xs) = ap suc (length-map f xs)

lookup-is_some :
    (id : String) (jobs : List (String × JobState))
    → is_some (lookup id jobs) ≡ true
    → (js : JobState) × (lookup id jobs ≡ some js)
lookup-is_some id jobs h = elim (Option-cases (lookup id jobs)) [
  | inl unknown ↦ absurd (ground (arith, unknown, h))
  | inr there ↦ there
]

-- What the cancellation of a known job leaves of a watcher's channel.
cancel_job-StaysOver :
    (now : ℕ) (drained : ℕ → Bool) (id reason : String) (c : ℕ) (jm last : JobManager)
    (js : JobState)
    → IsSound jm
    → lookup id jm.jobs ≡ some js
    → is_among c js.watchers ≡ true
    → cancel_job now drained id reason jm ≡ done (last, none)
    → StaysOver capacity id c last
cancel_job-StaysOver now drained id reason c jm last js sound known watches e =
    let r = cancelled now drained id reason jm js sound known in
    let same = cancel_job-known now drained id reason jm js known r in
    let there : r.new ≡ last = ground (arith, same, e) in
    let (js', known', seen_) = view-known id r.new _ r.sees in
    let own =
      at_listed (IsOf sound.owner jm.channels id) c js.watchers watches
        (sound.watched id js known).0 in
    subst (StaysOver capacity id c) there (
      (omega (arith, own.0, r.same_next), ground (arith, r.shut c, watches), r.small c),
      ground (arith, known'),
    )

-- Behind the cancellation of a known job, whatever its status was, the stream of each of its
-- watchers comes to its end: at any time later, whatever steps the goroutines have made by then, it
-- sends at most ten more updates and then ends, since its channel stays closed and nothing is sent
-- to it any more.
pub cancel_job-stream_ends :
    (now : ℕ) (drained : ℕ → Bool) (id reason : String) (c : ℕ) (steps : List Step)
    (jm last later : JobManager) (js : JobState)
    → IsSound jm
    → lookup id jm.jobs ≡ some js
    → is_among c js.watchers ≡ true
    → cancel_job now drained id reason jm ≡ done (last, none)
    → run steps last ≡ done later
    → (sent : List StatusUpdate) × (new : JobManager) × (stream 11 id c later
        ≡ some (sent, new, ended))
      × (length sent ≤ capacity)
cancel_job-stream_ends now drained id reason c steps jm last later js sound known watches e ran =
    let ((made, shut, few), there) =
      run-StaysOver capacity c id steps last later
        (cancel_job-StaysOver now drained id reason c jm last js sound known watches e) ran in
    let (js', known') = lookup-is_some id later.jobs there in
    let (new, streams) = stream_lem 11 id c later js' _ known' refl (omega (arith, few)) in
    let shown = update_of (told id later js') in
    (
      map shown (later.channels.at c).buffer,
      new,
      ground (arith, streams, shut),
      ground (arith, length-map shown (later.channels.at c).buffer, few),
    )

-- A job that ends by itself does not end the streams of its watchers: behind the completion
-- callback the stream sends what its channel holds and waits on, since its channel stays open.
pub completion_callback-stream_waits :
    (stager : Stager) (now : ℕ) (job final_job : Job) (executed : ExecutionResult) (c : ℕ)
    (jm : JobManager) (js : JobState)
    → IsSound jm
    → lookup job.id jm.jobs ≡ some js
    → is_among c js.watchers ≡ true
    → (concluded : JobManager) × (e : Option Err) × (sent : List StatusUpdate) × (new : JobManager)
      × (completion_callback stager now job final_job executed jm ≡ done (concluded, e))
      × (stream 11 job.id c concluded ≡ some (sent, new, waits))
unfolding completion_callback
completion_callback-stream_waits stager now job final_job executed c jm js sound known watches =
    let r = finalize stager final_job (job_result job jm executed) in
    let (last, e, h) = conclude_lem stager now job executed r jm js sound known in
    let (js', there, same) = view-known job.id last _ h.sees in
    let own =
      at_listed (IsOf sound.owner jm.channels job.id) c js.watchers watches
        (sound.watched job.id js known).0 in
    let (new, streams) = stream_lem 11 job.id c last js' _ there refl (omega (arith, h.small c)) in
    (
      last,
      r.1,
      map (update_of (told job.id last js')) (last.channels.at c).buffer,
      new,
      e,
      ground (arith, streams, h.same_channels c, own.1),
    )
