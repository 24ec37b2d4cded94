-- ===== src/Daemon/JobManager/Steps/Sound.antt =====
-- Every step of every goroutine keeps the job manager sound, and the one way in which a step
-- can panic.
use buildozer.Common.{
  ℕ, true, false, String, List, [], ◌∷◌, ◌++◌, ◌≡◌, ◌⊎◌, refl, ap, ltb, length, arith, inl, inr,
  Bool-cases, lookup,
}
use buildozer.Errors.{done}
use buildozer.Proto.Job.{JobProgress}
use buildozer.Daemon.Channels.{Channels, Update, copy, pushed, capacity, set, receive}
use buildozer.Daemon.Channels.Effects.{
  IsBounded, HasSameChannels, set-IsBounded, set-HasSameChannels, Sent-pushed,
}
use buildozer.Daemon.JobState.{update_progress, remove_watcher, close_watchers}
use buildozer.Daemon.JobManager.{
  JobManager, WatchHandle, new_job_manager, send_snapshot, progress_callback, set_result,
}
use buildozer.Daemon.JobManager.Steps.{
  Step, registers, subscribes, sends_snapshot, progresses, outputs, sets_result, closes, stops,
  receives, gets_scheduler, step, run, after_receive,
}
use buildozer.Daemon.JobManager.Steps.Kept.{IsSound, on_job-IsSound}
use buildozer.Daemon.JobManager.Steps.Entering.{register_job-IsSound, subscribe-IsSound}
use buildozer.Daemon.JobManager.Steps.Methods.{
  Kept-update_progress, Kept-progress_callback, All-IsOf-same, Kept-close_watchers, Kept-set_result,
  Kept-remove_watcher,
}

-- A store with the same channels.
with_channels-IsSound :
    (jm : JobManager) (new : Channels)
    → IsSound jm
    → HasSameChannels jm.channels new
    → IsBounded new
    → IsSound (record jm { channels = new })
with_channels-IsSound jm new sound same bounded = record {
  owner = sound.owner;
  bounded = bounded;
  watched = λ id js e.
      let (h, d) = sound.watched id js e in
      (All-IsOf-same sound.owner jm.channels new id js.watchers same h, d);
}

send_snapshot-IsSound :
    (h : WatchHandle) (p : JobProgress) (jm : JobManager)
    → IsSound jm
    → (jm.channels.at h.channel).closed ≡ false
    → (new : JobManager) × (step (sends_snapshot h p) jm ≡ done new) × IsSound new
unfolding step send_snapshot
send_snapshot-IsSound h p jm sound is_open =
    let c = h.channel in
    elim (Bool-cases (ltb (length (jm.channels.at c).buffer) capacity)) [
      | inl room ↦
          let (same, bounded) = Sent-pushed (copy p) c jm.channels sound.bounded room in
          let new = set c (pushed (copy p) (jm.channels.at c)) jm.channels in
          (
            record jm { channels = new },
            rw (is_open, room) refl,
            with_channels-IsSound jm new sound same bounded,
          )
      | inr full ↦ (jm, rw (is_open, full) refl, sound)
    ]

receive-IsSound :
    (c : ℕ) (jm : JobManager) (held : List Update)
    → (jm.channels.at c).buffer ≡ held
    → IsSound jm
    → IsSound (after_receive jm (receive c jm.channels))
unfolding receive
receive-IsSound c jm [] e sound = elim (Bool-cases (jm.channels.at c).closed) [
  | inl shut ↦ rw (e, receive, shut) sound
  | inr is_open ↦ rw (e, receive, is_open) sound
]
receive-IsSound c jm (u ∷ rest) e sound =
    rw (e, receive)
      (with_channels-IsSound jm _ sound (set-HasSameChannels c _ jm.channels refl)
        (set-IsBounded c _ jm.channels sound.bounded (ground (arith, sound.bounded c, e))))

-- What a step leads to: a sound manager, or a panic, of a snapshot's send alone, whose channel is
-- closed.
pub step-IsSound :
    (s : Step) (jm : JobManager)
    → IsSound jm
    → ((new : JobManager) × (step s jm ≡ done new) × IsSound new)
      ⊎ ((h : WatchHandle) × (p : JobProgress) × (s ≡ sends_snapshot h p)
          × ((jm.channels.at h.channel).closed ≡ true))
unfolding step
step-IsSound (registers now later job) jm sound =
    inl (_, refl, register_job-IsSound now later job jm sound)
step-IsSound (subscribes id) jm sound = inl (_, refl, subscribe-IsSound id jm sound)
step-IsSound (sends_snapshot h p) jm sound = elim (Bool-cases (jm.channels.at h.channel).closed) [
  | inl shut ↦ inr (h, p, refl, shut)
  | inr is_open ↦ inl (send_snapshot-IsSound h p jm sound is_open)
]
step-IsSound (progresses now id status message) jm sound = inl (
    on_job-IsSound id (update_progress now status message) jm sound (λ js e.
      Kept-update_progress now status message sound.owner jm.channels id js sound.bounded
        (sound.watched id js e)))
step-IsSound (outputs id o) jm sound = inl (
    on_job-IsSound id (progress_callback o) jm sound (λ js e.
      Kept-progress_callback o sound.owner jm.channels id js sound.bounded (sound.watched id js e)))
step-IsSound (sets_result id r) jm sound = inl (
    on_job-IsSound id (set_result r) jm sound (λ js e.
      Kept-set_result r sound.owner jm.channels id js sound.bounded (sound.watched id js e)))
step-IsSound (closes drained id) jm sound = inl (
    on_job-IsSound id (close_watchers drained) jm sound (λ js e.
      Kept-close_watchers drained sound.owner jm.channels id js sound.bounded
        (sound.watched id js e)))
step-IsSound (stops h) jm sound = inl (
    on_job-IsSound h.job_id (remove_watcher h.channel) jm sound (λ js e.
      Kept-remove_watcher h.channel sound.owner jm.channels h.job_id js sound.bounded
        (sound.watched h.job_id js e)))
step-IsSound (receives c) jm sound = inl (_, refl, receive-IsSound c jm _ refl sound)
step-IsSound (gets_scheduler s) jm sound =
    inl (_, refl, record { owner = sound.owner; bounded = sound.bounded; watched = sound.watched })

-- A run that stopped at a snapshot's send, whose channel was closed by then.
pub record Raced (steps : List Step) (jm : JobManager) : Type 0 where
  pub before : List Step
  pub handle : WatchHandle
  pub message : JobProgress
  pub after : List Step
  pub whole : steps ≡ before ++ sends_snapshot handle message ∷ after
  pub reached : JobManager
  pub up_to : run before jm ≡ done reached
  pub is_closed : (reached.channels.at handle.channel).closed ≡ true

-- From a sound job manager, any steps of any goroutines, in any order, lead to a sound one, or up
-- to the send of a snapshot whose channel another goroutine has closed: no other step panics.
pub run-IsSound :
    (steps : List Step) (jm : JobManager)
    → IsSound jm
    → ((new : JobManager) × (run steps jm ≡ done new) × IsSound new) ⊎ Raced steps jm
unfolding run
run-IsSound [] jm sound = inl (jm, refl, sound)
run-IsSound (s ∷ rest) jm sound = elim (step-IsSound s jm sound) [
  | inl (mid, e, kept) ↦ elim (run-IsSound rest mid kept) [
    | inl (new, e', kept') ↦ inl (new, rw e e', kept')
    | inr r ↦ inr (record {
      before = s ∷ r.before;
      handle = r.handle;
      message = r.message;
      after = r.after;
      whole = ap (λ x. s ∷ x) r.whole;
      reached = r.reached;
      up_to = rw e r.up_to;
      is_closed = r.is_closed;
    })
  ]
  | inr (h, p, same, shut) ↦ inr (record {
    before = [];
    handle = h;
    message = p;
    after = rest;
    whole = ap (λ x. x ∷ rest) same;
    reached = jm;
    up_to = refl;
    is_closed = shut;
  })
]

pub new_job_manager-IsSound : (id : String) → IsSound (new_job_manager id)
unfolding new_job_manager lookup
new_job_manager-IsSound id = record {
  owner = λ c. "";
  bounded = λ c. omega arith;
  watched = λ other js e. absurd (ground (arith, e));
}
