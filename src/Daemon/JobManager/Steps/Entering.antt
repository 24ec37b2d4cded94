-- ===== src/Daemon/JobManager/Steps/Entering.antt =====
-- A new job, and a new watcher of a job, leave the job manager sound.
use buildozer.Common.{
  ℕ, false, String, List, [], ◌∷◌, ◌++◌, ◌≡◌, refl, if◌then◌else◌, ◌==◌, All, All-append, arith,
  inl, inr, Option-cases, lookup,
}
use buildozer.Proto.Job.{Job}
use buildozer.Daemon.Channels.{Channels, make, set, is_among}
use buildozer.Daemon.Channels.Effects.{IsBounded, AreDistinct}
use buildozer.Daemon.JobState.{add_watcher}
use buildozer.Daemon.JobManager.{JobManager, register_job, received_job, subscribe}
use buildozer.Daemon.JobManager.Steps.Kept.{IsOf, Watches, IsSound, written}

pub register_job-IsSound :
    (now later : ℕ) (job : Job) (jm : JobManager)
    → IsSound jm
    → IsSound (register_job now later job jm).0
unfolding register_job
register_job-IsSound now later job jm sound = elim (Option-cases (lookup job.id jm.jobs)) [
  | inl unknown ↦ rw unknown (record {
    owner = sound.owner;
    bounded = sound.bounded;
    watched =
        written (λ id js. Watches sound.owner jm.channels id js.watchers) job.id
          (received_job now later job) jm.jobs (λ id js e n. sound.watched id js e) (_, _);
  })
  | inr (js, known) ↦ rw known sound
]

-- The owners with the new channel's.
abbrev with_owner : (ℕ → String) → ℕ → String → ℕ → String
with_owner owner c id d = if d == c then id else owner d

-- The channels that were there stay their owners', and are not the new one.
old_watches :
    (owner : ℕ → String) (chs : Channels) (id mine : String) (cs : List ℕ)
    → All (IsOf owner chs id) cs
    → All (IsOf (with_owner owner chs.next mine) (make chs) id) cs × (is_among chs.next cs ≡ false)
unfolding make is_among
old_watches owner chs id mine [] h = (h, refl)
old_watches owner chs id mine (c ∷ cs) ((a, b, e), hs) =
    let (rest, out) = old_watches owner chs id mine cs hs in
    (((omega (arith, a), ground (arith, a, b), ground (arith, a, e)), rest), ground (arith, out, a))

not_among_snoc :
    (x c : ℕ) (cs : List ℕ)
    → is_among x cs ≡ false
    → (c == x) ≡ false
    → is_among x (cs ++ c ∷ []) ≡ false
unfolding is_among
not_among_snoc x c [] h n = ground (arith, n)
not_among_snoc x c (d ∷ cs) h n = ground (arith, not_among_snoc x c cs (ground (arith, h)) n)

distinct_snoc :
    (c : ℕ) (cs : List ℕ) → AreDistinct cs → is_among c cs ≡ false → AreDistinct (cs ++ c ∷ [])
unfolding is_among
distinct_snoc c [] d out = (refl, _)
distinct_snoc c (x ∷ cs) (fresh, d) out = (
  ground (arith, not_among_snoc x c cs fresh (ground (arith, out))),
  distinct_snoc c cs d (ground (arith, out)),
)

make-IsBounded : (chs : Channels) → IsBounded chs → IsBounded (make chs)
unfolding make set
make-IsBounded chs h d = ground (arith, h d)

pub subscribe-IsSound : (id : String) (jm : JobManager) → IsSound jm → IsSound (subscribe id jm).0
unfolding subscribe make set
subscribe-IsSound id jm sound = elim (Option-cases (lookup id jm.jobs)) [
  | inl unknown ↦ rw (unknown, subscribe) sound
  | inr (js, known) ↦
      let c = jm.channels.next in
      let owner = with_owner sound.owner c id in
      let chs = make jm.channels in
      let (h, d) = sound.watched id js known in
      let (old, out) = old_watches sound.owner jm.channels id id js.watchers h in
      rw (known, subscribe)
        (record {
          owner = owner;
          bounded = make-IsBounded jm.channels sound.bounded;
          watched =
              written (λ other s. Watches owner chs other s.watchers) id (add_watcher c js) jm.jobs
                (λ other s e n.
                  let (h, d) = sound.watched other s e in
                  ((old_watches sound.owner jm.channels other id s.watchers h).0, d))
                (
                  All-append (IsOf owner chs id) js.watchers (c ∷ []) old
                      ((omega arith, ground arith, ground arith), _),
                  distinct_snoc c js.watchers d out,
                );
        })
]
