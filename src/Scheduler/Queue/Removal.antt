-- ===== src/Scheduler/Queue/Removal.antt =====
-- What `Remove` takes out of the queue, and that the operations keep it well-formed.
use buildozer.Common.{
  String, Bool, true, false, List, [], ◌∷◌, ◌++◌, ◌≡◌, ◌≢◌, refl, All, ◌⊎◌, inl, inr, Bool-cases,
  str_eq, str_eq_iff, arith, ap,
}
use buildozer.Errors.{done}
use buildozer.Scheduler.Queue.{
  QueuedJob, JobQueue, HasJob, IsWellFormed, remove, remove_from, job_id,
}

-- `x` is the first job of `jobs` whose ID is `id`, and `left` is `jobs` without it.
pub record IsFirst (id : String) (jobs left : List QueuedJob) : Type 0 where
  pub before : List QueuedJob
  pub x : QueuedJob
  pub after : List QueuedJob
  pub whole : jobs ≡ before ++ x ∷ after
  pub has_id : job_id x ≡ done id
  pub none_before : All (λ qj. job_id qj ≢ done id) before
  pub rest : left ≡ before ++ after

-- The queue after `Remove` and its answer.
abbrev pub Removed : String → JobQueue → JobQueue × Bool → Type 0
Removed id q (q', found) =
    (found ≡ true) × IsFirst id q.jobs q'.jobs
    ⊎ (found ≡ false) × (q'.jobs ≡ q.jobs) × All (λ qj. job_id qj ≢ done id) q.jobs

abbrev RemovedFrom : String → List QueuedJob → List QueuedJob × Bool → Type 0
RemovedFrom id jobs (left, found) =
    (found ≡ true) × IsFirst id jobs left
    ⊎ (found ≡ false) × (left ≡ jobs) × All (λ qj. job_id qj ≢ done id) jobs

RemovedFrom-cons :
    (id : String) (qj : QueuedJob) (jobs : List QueuedJob) (r : List QueuedJob × Bool)
    → job_id qj ≢ done id
    → RemovedFrom id jobs r
    → RemovedFrom id (qj ∷ jobs) (qj ∷ r.0, r.1)
RemovedFrom-cons id qj jobs r other (inl (found, f)) = inl (
  found,
  record {
    before = qj ∷ f.before;
    x = f.x;
    after = f.after;
    whole = ap (λ l. qj ∷ l) f.whole;
    has_id = f.has_id;
    none_before = (other, f.none_before);
    rest = ap (λ l. qj ∷ l) f.rest;
  },
)
RemovedFrom-cons id qj jobs r other (inr (absent, same, nowhere)) =
    inr (absent, ap (λ l. qj ∷ l) same, (other, nowhere))

remove_from_lem :
    (id : String) (jobs : List QueuedJob)
    → All HasJob jobs
    → (r : List QueuedJob × Bool) × (remove_from id jobs ≡ done r) × RemovedFrom id jobs r
unfolding remove_from
remove_from_lem id [] h = (([], false), refl, inr (refl, refl, tt))
remove_from_lem id (qj ∷ jobs) ((found, has), h) =
    let (r, e, s) = remove_from_lem id jobs h in
    elim (Bool-cases (str_eq found id)) [
      | inl same ↦ (
        (jobs, true),
        rw (has, same),
        inl (
          refl,
          record {
            before = [];
            x = qj;
            after = jobs;
            whole = refl;
            has_id = rw has (ap done ((str_eq_iff found id).0 same));
            none_before = tt;
            rest = refl;
          },
        ),
      )
      | inr other ↦ (
        (qj ∷ r.0, r.1),
        rw (has, other) (rw e),
        RemovedFrom-cons id qj jobs r (λ k. ground (arith, str_eq_iff found id)) s,
      )
    ]

-- On a well-formed queue `Remove` does not panic. It answers true and takes out the first job
-- with the ID, keeping the others in order, or it answers false, leaves the queue as it is, and
-- no job has the ID.
pub remove_lem :
    (id : String) (q : JobQueue)
    → IsWellFormed q
    → (r : JobQueue × Bool) × (remove id q ≡ done r) × Removed id q r
unfolding remove
remove_lem id q w =
    let (r, e, s) = remove_from_lem id q.jobs w in ((record { jobs = r.0 }, r.1), rw e, s)
