-- ===== src/Daemon/JobManager/Submit/Solo.antt =====
-- A job with one watcher, as `SubmitJob` makes it: what its methods do to the watcher's channel.
use buildozer.Common.{
  ℕ, ◌<◌, Bool, true, false, String, Option, some, List, [], ◌∷◌, ◌++◌, ◌≡◌, refl, arith, length,
  lookup,
}
use buildozer.Errors.{ok, done}
use buildozer.Proto.Job.{JobResult, JobStatus}
use buildozer.Scheduler.Dispatch.{Scheduler}
use buildozer.Daemon.Channels.{
  Update, copy, live, Channel, Channels, capacity, set, make, notify, close_all, finished,
}
use buildozer.Daemon.JobState.{
  JobState, Shared, update_progress, progressed, close_watchers, add_watcher,
}
use buildozer.Daemon.JobManager.{JobManager, with_job, on_job, set_result, watch_job_status}
use buildozer.Daemon.JobManager.Ending.{on_job-known, lookup-with_job}

-- The manager holds the job's state, whose one watcher has the open channel `c` with these values.
pub record Solo (id : String) (c : ℕ) (s : Option Scheduler) (daemon : String) (js : JobState)
    (held : List Update) (jm : JobManager) : Type 0 where
  pub known : lookup id jm.jobs ≡ some js
  pub alone : js.watchers ≡ c ∷ []
  pub channel : jm.channels.at c ≡ record { buffer = held; closed = false }
  pub has_scheduler : jm.scheduler ≡ s
  pub daemon_known : jm.daemon_id ≡ daemon

notify-one :
    (c : ℕ) (held : List Update) (chs : Channels)
    → chs.at c ≡ record { buffer = held; closed = false }
    → length held < capacity
    → notify (c ∷ []) chs ≡ done (set c (record { buffer = held ++ live ∷ []; closed = false }) chs)
unfolding notify
notify-one c held chs e h = rw e (ground (arith, h))

set-at : (c : ℕ) (x : Channel) (chs : Channels) → (set c x chs).at c ≡ x
unfolding set
set-at c x chs = ground arith

module _ (id : String) (c : ℕ) (s : Option Scheduler) (daemon : String) where
  -- A change of the status adds a pointer to the message.
  pub update_progress-Solo :
      (now : ℕ) (status : JobStatus) (message : String) (js : JobState) (held : List Update)
      (jm : JobManager)
      → Solo id c s daemon js held jm
      → length held < capacity
      → (new : JobManager) × (on_job id (update_progress now status message) jm ≡ done new)
        × Solo id c s daemon
            (record js { progress = progressed now status message js })
            (held ++ live ∷ [])
            new
  unfolding update_progress
  update_progress-Solo now status message js held jm solo room =
      let changed : JobState = record js { progress = progressed now status message js } in
      let told = set c (record { buffer = held ++ live ∷ []; closed = false }) jm.channels in
      let e = notify-one c held jm.channels solo.channel room in
      (
        with_job id jm (changed, told),
        on_job-known id (update_progress now status message) jm js (changed, told) solo.known
            (rw solo.alone (rw e refl)),
        record {
          known = lookup-with_job id jm (changed, told);
          alone = solo.alone;
          channel = set-at c _ jm.channels;
          has_scheduler = solo.has_scheduler;
          daemon_known = solo.daemon_known;
        },
      )

  pub set_result-Solo :
      (r : JobResult) (js : JobState) (held : List Update) (jm : JobManager)
      → Solo id c s daemon js held jm
      → (new : JobManager) × (on_job id (set_result r) jm ≡ done new)
        × Solo id c s daemon (record js { result = some r }) held new
  unfolding set_result
  set_result-Solo r js held jm solo =
      let changed : JobState = record js { result = some r } in
      (
        with_job id jm (changed, jm.channels),
        on_job-known id (set_result r) jm js (changed, jm.channels) solo.known refl,
        record {
          known = lookup-with_job id jm (changed, jm.channels);
          alone = solo.alone;
          channel = solo.channel;
          has_scheduler = solo.has_scheduler;
          daemon_known = solo.daemon_known;
        },
      )

close_all-one :
    (drained : ℕ → Bool) (c : ℕ) (held : List Update) (chs : Channels)
    → chs.at c ≡ record { buffer = held; closed = false }
    → length held < capacity
    → (new : Channels) × (close_all drained (c ∷ []) chs ≡ done new)
      × (new.at c ≡ record { buffer = held ++ live ∷ []; closed = true })
unfolding close_all set
close_all-one drained c held chs e h = (
  set c (record { buffer = held ++ live ∷ []; closed = true })
      (set c (record { buffer = held ++ live ∷ []; closed = false }) chs),
  rw e (ground (arith, h)),
  ground arith,
)

-- The end of the watch: the last message, and the channel is closed.
pub close_watchers-Solo :
    (drained : ℕ → Bool) (id : String) (c : ℕ) (s : Option Scheduler) (daemon : String)
    (js : JobState) (held : List Update) (jm : JobManager)
    → Solo id c s daemon js held jm
    → length held < capacity
    → (new : JobManager) × (on_job id (close_watchers drained) jm ≡ done new)
      × (lookup id new.jobs ≡ some (record js { watchers = [] }))
      × (new.channels.at c ≡ record { buffer = held ++ live ∷ []; closed = true })
      × (new.scheduler ≡ s)
unfolding close_watchers
close_watchers-Solo drained id c s daemon js held jm solo room =
    let (shut, e, there) = close_all-one drained c held jm.channels solo.channel room in
    let last : Shared = (record js { watchers = [] }, shut) in
    (
      with_job id jm last,
      on_job-known id (close_watchers drained) jm js last solo.known (rw solo.alone (rw e refl)),
      lookup-with_job id jm last,
      there,
      solo.has_scheduler,
    )

-- The first watch of a job: it does not block, and its channel holds a copy of the message.
pub watch_job_status-Solo :
    (id : String) (js : JobState) (jm : JobManager)
    → lookup id jm.jobs ≡ some js
    → js.watchers ≡ []
    → let c = jm.channels.next in
      (new : JobManager) × (watch_job_status id jm
        ≡ done (finished (new, ok (record { job_id = id; channel = c }))))
      × Solo id c jm.scheduler jm.daemon_id
          (record js { watchers = c ∷ [] })
          (copy js.progress ∷ [])
          new
unfolding watch_job_status make add_watcher
watch_job_status-Solo id js jm known bare =
    let c = jm.channels.next in
    let sub = with_job id jm (add_watcher c js, make jm.channels) in
    let sent =
      set c (record { buffer = copy js.progress ∷ []; closed = false }) (make jm.channels) in
    let there = lookup-with_job id jm (add_watcher c js, make jm.channels) in
    (
      record sub { channels = sent },
      ground (arith, known, there),
      record {
        known = ground (arith, there, bare);
        alone = refl;
        channel = set-at c _ (make jm.channels);
        has_scheduler = refl;
        daemon_known = refl;
      },
    )
