-- ===== src/Daemon/JobManager/Steps/Kept.antt =====
-- The invariant of the job manager: who owns which channel. It is kept by every method of a
-- job's state.
use buildozer.Common.{
  subst, ℕ, ◌<◌, false, String, some, List, [], ◌∷◌, ◌≡◌, ◌≢◌, refl, All, arith, inl, inr,
  Bool-cases, Option-cases, lookup, insert, str_eq, str_eq_iff, lookup-insert,
}
use buildozer.Errors.{Outcome, done}
use buildozer.Daemon.Channels.{Channels, is_among}
use buildozer.Daemon.Channels.Effects.{IsBounded, IsOpen, HasClosed, AreDistinct}
use buildozer.Daemon.JobState.{JobState, Shared}
use buildozer.Daemon.JobManager.{JobManager, on_job}

-- A channel of the job `id`: made, open, and owned by the job.
abbrev pub IsOf : (ℕ → String) → Channels → String → ℕ → Type 0
IsOf owner chs id c = (c < chs.next) × IsOpen chs c × (owner c ≡ id)

-- The watchers of a job are distinct open channels of this job.
abbrev pub Watches : (ℕ → String) → Channels → String → List ℕ → Type 0
Watches owner chs id cs = All (IsOf owner chs id) cs × AreDistinct cs

-- Every channel has a job, no buffer holds more than ten values, and each job's watchers are
-- distinct open channels of this job.
pub record IsSound (jm : JobManager) : Type 0 where
  pub owner : ℕ → String
  pub bounded : IsBounded jm.channels
  pub watched :
      (id : String) (js : JobState)
      → lookup id jm.jobs ≡ some js
      → Watches owner jm.channels id js.watchers

-- What a method of a job's state has to leave: it returns, closes channels of this job alone, and
-- lists open ones.
pub record Kept (owner : ℕ → String) (chs : Channels) (id : String) (r : Outcome Shared)
    : Type 0 where
  pub new : Shared
  pub returns : r ≡ done new
  pub gone : List ℕ
  pub own : All (λ c. owner c ≡ id) gone
  pub shut : HasClosed gone chs new.1
  pub small : IsBounded new.1
  pub watches : Watches owner new.1 id new.0.watchers

is_among-own :
    (owner : ℕ → String) (id other : String) (c : ℕ) (gone : List ℕ)
    → All (λ d. owner d ≡ id) gone
    → owner c ≡ other
    → id ≢ other
    → is_among c gone ≡ false
unfolding is_among
is_among-own owner id other c [] h o n = refl
is_among-own owner id other c (d ∷ gone) h o n =
    ground (arith, is_among-own owner id other c gone h.1 o n, h.0, o, n)

-- The channels of another job stay open.
Watches-other :
    (owner : ℕ → String) (chs new : Channels) (id other : String) (gone cs : List ℕ)
    → All (λ c. owner c ≡ id) gone
    → HasClosed gone chs new
    → id ≢ other
    → All (IsOf owner chs other) cs
    → All (IsOf owner new other) cs
Watches-other owner chs new id other gone [] own shut n h = h
Watches-other owner chs new id other gone (c ∷ cs) own shut n ((a, b, e), h) = (
  (
    omega (arith, shut.0, a),
    ground (arith, shut.1 c, b, is_among-own owner id other c gone own e n),
    e,
  ),
  Watches-other owner chs new id other gone cs own shut n h,
)

-- What holds of the entry that was written, and of every other one, holds of each entry.
pub written :
    {A : Type 0} (P : String → A → Type 0) (id : String) (new : A) (m : List (String × A))
    → ((other : String) (v : A) → lookup other m ≡ some v → id ≢ other → P other v)
    → P id new
    → (other : String) (v : A) → lookup other (insert id new m) ≡ some v
    → P other v
written {A = A} P id new m others own other v e = elim (Bool-cases (str_eq id other)) [
  | inl same ↦
      let there : ◌≡◌ {A = String × A} (id, new) (other, v) =
        ground (arith, lookup-insert id other new m, same, e, str_eq_iff id other) in
      subst (λ x. P x.0 x.1) there own
  | inr differs ↦
      others other v (ground (arith, lookup-insert id other new m, differs, e))
        (λ same. ground (arith, same, differs, str_eq_iff id other))
]

-- A method that keeps its own job's part keeps the manager sound.
pub on_job-IsSound :
    (id : String) (act : Shared → Outcome Shared) (jm : JobManager) (sound : IsSound jm)
    → ((js : JobState)
        → lookup id jm.jobs ≡ some js
        → Kept sound.owner jm.channels id (act (js, jm.channels)))
    → (new : JobManager) × (on_job id act jm ≡ done new) × IsSound new
unfolding on_job
on_job-IsSound id act jm sound k = elim (Option-cases (lookup id jm.jobs)) [
  | inl unknown ↦ (jm, rw (unknown, on_job) refl, sound)
  | inr (js, known) ↦
      let kept = k js known in
      (
        record jm { jobs = insert id kept.new.0 jm.jobs; channels = kept.new.1 },
        rw (known, on_job) (rw kept.returns refl),
        record {
          owner = sound.owner;
          bounded = kept.small;
          watched =
              written (λ other s. Watches sound.owner kept.new.1 other s.watchers) id kept.new.0
                jm.jobs
                (λ other s there n.
                  let (h, d) = sound.watched other s there in
                  (
                    Watches-other sound.owner jm.channels kept.new.1 id other kept.gone s.watchers
                        kept.own kept.shut n h,
                    d,
                  ))
                kept.watches;
        },
      )
]
