-- ===== src/Daemon/JobManager/Steps/Runs.antt =====
-- A channel that is closed stays so through any steps of the job manager, and its job known.
use buildozer.Common.{
  ℕ, true, String, List, [], ◌∷◌, ◌≡◌, refl, subst, ap, arith, length, ltb, inl, inr, Bool-cases,
  Option-cases, is_some, lookup, insert, lookup-insert, ◌==◌,
}
use buildozer.Errors.{Outcome, done, ◌>>=◌}
use buildozer.Proto.Job.{Job, JobProgress}
use buildozer.Daemon.Channels.{
  Update, Channels, set, make, send, Attempt, finished, blocked, Received, receive, capacity,
  pushed,
}
use buildozer.Daemon.JobState.{
  JobState, Shared, update_progress, remove_watcher, close_watchers, add_watcher,
}
use buildozer.Daemon.JobManager.{
  JobManager, WatchHandle, with_job, on_job, register_job, received_job, subscribe, send_snapshot,
  progress_callback, set_result, set_scheduler,
}
use buildozer.Daemon.JobManager.Steps.{
  Step, registers, subscribes, sends_snapshot, progresses, outputs, sets_result, closes, stops,
  receives, gets_scheduler, step, run, after_receive,
}
use buildozer.Daemon.JobManager.Steps.Over.{
  IsOver, set-IsOver, update_progress-IsOver, progress_callback-IsOver, set_result-IsOver,
  close_watchers-IsOver, remove_watcher-IsOver, bind-done,
}

-- A job that the manager knows, and a channel that is over.
abbrev pub StaysOver : ℕ → String → ℕ → JobManager → Type 0
StaysOver n id c jm = IsOver n c jm.channels × (is_some (lookup id jm.jobs) ≡ true)

known-insert :
    {A : Type 0} (id other : String) (v : A) (m : List (String × A))
    → is_some (lookup id m) ≡ true
    → is_some (lookup id (insert other v m)) ≡ true
known-insert id other v m h = ground (arith, h, lookup-insert other id v m)

on_job-StaysOver :
    (n c : ℕ) (id other : String) (act : Shared → Outcome Shared) (jm new : JobManager)
    → ((js : JobState) (r : Shared) → act (js, jm.channels) ≡ done r → IsOver n c r.1)
    → StaysOver n id c jm
    → on_job other act jm ≡ done new
    → StaysOver n id c new
unfolding on_job
on_job-StaysOver n c id other act jm new acts over e = elim (Option-cases (lookup other jm.jobs)) [
  | inl unknown ↦
      let there : jm ≡ new = ground (arith, e, unknown) in subst (StaysOver n id c) there over
  | inr (js, known) ↦
      let acting : (act (js, jm.channels) >>= λ r. done (with_job other jm r)) ≡ done new =
        ground (arith, e, known) in
      let (r, acted, same) = bind-done (act (js, jm.channels)) _ new acting in
      let there : with_job other jm r ≡ new = ground (arith, same) in
      subst (StaysOver n id c) there (acts js r acted, known-insert id other r.0 jm.jobs over.1)
]

send_snapshot-StaysOver :
    (n c : ℕ) (id : String) (h : WatchHandle) (p : JobProgress) (jm new : JobManager)
    → StaysOver n id c jm
    → step (sends_snapshot h p) jm ≡ done new
    → StaysOver n id c new
unfolding step send_snapshot send
send_snapshot-StaysOver n c id h p jm new over e =
    let d = h.channel in
    elim (Bool-cases (jm.channels.at d).closed) [
      | inl shut ↦ absurd (ground (arith, e, shut))
      | inr is_open ↦ elim (Bool-cases (ltb (length (jm.channels.at d).buffer) capacity)) [
        | inl room ↦
            let chs = set d (pushed (Update.copy p) (jm.channels.at d)) jm.channels in
            let there : record jm { channels = chs } ≡ new = ground (arith, e, is_open, room) in
            subst (StaysOver n id c) there (set-IsOver n c d _ jm.channels is_open over.0, over.1)
        | inr full ↦
            let there : jm ≡ new = ground (arith, e, is_open, full) in
            subst (StaysOver n id c) there over
      ]
    ]

make-IsOver : (n c : ℕ) (chs : Channels) → IsOver n c chs → IsOver n c (make chs)
unfolding make set
make-IsOver n c chs (made, shut, few) =
    (ground (arith, made), ground (arith, made, shut), ground (arith, made, few))

receive-IsOver :
    (n c d : ℕ) (jm : JobManager) (held : List Update)
    → (jm.channels.at d).buffer ≡ held
    → IsOver n c jm.channels
    → IsOver n c (after_receive jm (receive d jm.channels)).channels
unfolding receive set
receive-IsOver n c d jm [] e over = elim (Bool-cases (jm.channels.at d).closed) [
  | inl shut ↦ rw (e, receive, shut) over
  | inr is_open ↦ rw (e, receive, is_open) over
]
receive-IsOver n c d jm (u ∷ rest) e (made, shut, few) =
    rw (e, receive)
      (elim (Bool-cases (c == d)) [
        | inl same ↦
            let at : c ≡ d = ground (arith, same) in
            let closed_ = ap (λ m. (jm.channels.at m).closed) at in
            let held = ap (λ m. length (jm.channels.at m).buffer) at in
            (made, ground (arith, same, shut, closed_), ground (arith, same, few, held, e))
        | inr differ ↦ rw differ (made, shut, few)
      ])

register_job-StaysOver :
    (n c : ℕ) (id : String) (now later : ℕ) (job : Job) (jm : JobManager)
    → StaysOver n id c jm
    → StaysOver n id c (register_job now later job jm).0
unfolding register_job
register_job-StaysOver n c id now later job jm over =
    elim (Bool-cases (is_some (lookup job.id jm.jobs))) [
      | inl there ↦ rw there over
      | inr fresh ↦
          rw fresh (over.0, known-insert id job.id (received_job now later job) jm.jobs over.1)
    ]

subscribe-StaysOver :
    (n c : ℕ) (id other : String) (jm : JobManager)
    → StaysOver n id c jm
    → StaysOver n id c (subscribe other jm).0
unfolding subscribe
subscribe-StaysOver n c id other jm over = elim (Option-cases (lookup other jm.jobs)) [
  | inl unknown ↦ rw (unknown, subscribe) over
  | inr (js, known) ↦
      rw (known, subscribe)
        (
          make-IsOver n c jm.channels over.0,
          known-insert id other (add_watcher jm.channels.next js) jm.jobs over.1,
        )
]

step-StaysOver :
    (n c : ℕ) (id : String) (s : Step) (jm new : JobManager)
    → StaysOver n id c jm
    → step s jm ≡ done new
    → StaysOver n id c new
unfolding step
step-StaysOver n c id (registers now later job) jm new over e =
    let there : (register_job now later job jm).0 ≡ new = ground (arith, e) in
    subst (StaysOver n id c) there (register_job-StaysOver n c id now later job jm over)
step-StaysOver n c id (subscribes other) jm new over e =
    let there : (subscribe other jm).0 ≡ new = ground (arith, e) in
    subst (StaysOver n id c) there (subscribe-StaysOver n c id other jm over)
step-StaysOver n c id (sends_snapshot h p) jm new over e =
    send_snapshot-StaysOver n c id h p jm new over e
step-StaysOver n c id (progresses now other status message) jm new over e =
    on_job-StaysOver n c id other (update_progress now status message) jm new
      (λ js r. update_progress-IsOver n c now status message js jm.channels r over.0) over e
step-StaysOver n c id (outputs other o) jm new over e =
    on_job-StaysOver n c id other (progress_callback o) jm new
      (λ js r. progress_callback-IsOver n c o js jm.channels r over.0) over e
step-StaysOver n c id (sets_result other result) jm new over e =
    on_job-StaysOver n c id other (set_result result) jm new
      (λ js r. set_result-IsOver n c result js jm.channels r over.0) over e
step-StaysOver n c id (closes drained other) jm new over e =
    on_job-StaysOver n c id other (close_watchers drained) jm new
      (λ js r. close_watchers-IsOver n c drained js jm.channels r over.0) over e
step-StaysOver n c id (stops h) jm new over e =
    on_job-StaysOver n c id h.job_id (remove_watcher h.channel) jm new
      (λ js r. remove_watcher-IsOver n c h.channel js jm.channels r over.0) over e
step-StaysOver n c id (receives d) jm new over e =
    let there : after_receive jm (receive d jm.channels) ≡ new = ground (arith, e) in
    subst (StaysOver n id c) there
      (receive-IsOver n c d jm _ refl over.0, kept (receive d jm.channels))
  where
    kept :
        (a : Attempt (Channels × Received)) → is_some (lookup id (after_receive jm a).jobs) ≡ true
    kept (finished (chs, r)) = over.1
    kept blocked = over.1
step-StaysOver n c id (gets_scheduler s) jm new over e =
    let there : set_scheduler s jm ≡ new = ground (arith, e) in subst (StaysOver n id c) there over

-- A channel that is over stays over, and its job known.
pub run-StaysOver :
    (n c : ℕ) (id : String) (steps : List Step) (jm new : JobManager)
    → StaysOver n id c jm
    → run steps jm ≡ done new
    → StaysOver n id c new
unfolding run
run-StaysOver n c id [] jm new over e =
    let there : jm ≡ new = ground (arith, e) in subst (StaysOver n id c) there over
run-StaysOver n c id (s ∷ steps) jm new over e =
    let (mid, first, rest) = bind-done (step s jm) (run steps) new e in
    run-StaysOver n c id steps mid new (step-StaysOver n c id s jm mid over first) rest
