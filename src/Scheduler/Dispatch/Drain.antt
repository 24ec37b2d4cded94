-- ===== src/Scheduler/Dispatch/Drain.antt =====
-- The loop of `OnJobCompletion`: it ends, and what it leaves.
use buildozer.Common.{
  ℕ, Bool, true, false, if◌then◌else◌, zero, suc, ◌-◌, ◌<◌, Option, some, List, [], ◌∷◌, ◌++◌, map,
  ◌≡◌, refl, inl, inr, arith, ap, All, length, append_assoc, append-nil, true, false, ◌∙◌, sym,
}
use buildozer.Errors.{Err, err, eq_busy, ok, done}
use buildozer.Scheduler.Queue.{ExecutionRequest, QueuedJob, HasJob, IsWellFormed, len}
use buildozer.Scheduler.Heuristic.{SchedulingDecision}
use buildozer.Scheduler.Dispatch.{
  Launch, SchedulerConfig, Scheduler, try_schedule_next, plan_job, on_job_completion,
}
use buildozer.Scheduler.Dispatch.Retry.{try_schedule_next_cases, try_schedule_next-nil}

-- Why the loop stopped, with what it left of the jobs that it did not launch: nothing was left;
-- or the runtimes are busy for the first job that is left; or that job failed for good, and only
-- those behind it are left.
pub data Stopped (config : SchedulerConfig) : List QueuedJob → List QueuedJob → Type 0 where
  emptied : Stopped config [] []
  busy :
      (qj : QueuedJob) (rest : List QueuedJob) (e : Err)
      → plan_job config qj.exec_req (length rest) ≡ err e
      → eq_busy e ≡ true
      → Stopped config (qj ∷ rest) (qj ∷ rest)
  dropped :
      (qj : QueuedJob) (rest : List QueuedJob) (e : Err)
      → plan_job config qj.exec_req (length rest) ≡ err e
      → eq_busy e ≡ false
      → Stopped config (qj ∷ rest) rest

-- From the queue `jobs` the jobs of `served` were launched in order, each once, and `left` stays.
pub record Drained (config : SchedulerConfig) (jobs : List QueuedJob) (launched : List Launch)
    (s : Scheduler) : Type 0 where
  pub served : List QueuedJob
  pub unserved : List QueuedJob
  pub launches : List Launch
  pub whole : jobs ≡ served ++ unserved
  pub started : s.launched ≡ launched ++ launches
  pub in_order : map (λ l. some l.request) launches ≡ map (λ qj. qj.exec_req) served
  pub stopped : Stopped config unserved s.queue.jobs

abbrev state : List QueuedJob → List Launch → Scheduler
state jobs launched = record { queue = record { jobs = jobs }; launched = launched }

plan_job-request :
    (config : SchedulerConfig) (r : Option ExecutionRequest) (n : ℕ) {d : SchedulingDecision}
    {l : Launch}
    → plan_job config r n ≡ ok (d, l)
    → some l.request ≡ r
unfolding plan_job
plan_job-request config r n e = ground arith

-- The first job was launched, and then the rest was drained.
Drained-cons :
    (config : SchedulerConfig) (qj : QueuedJob) (jobs : List QueuedJob) (launched : List Launch)
    (l : Launch) (s : Scheduler)
    → some l.request ≡ qj.exec_req
    → Drained config jobs (launched ++ l ∷ []) s
    → Drained config (qj ∷ jobs) launched s
Drained-cons config qj jobs launched l s same d = record {
  served = qj ∷ d.served;
  unserved = d.unserved;
  launches = l ∷ d.launches;
  whole = ap (λ k. qj ∷ k) d.whole;
  started = d.started ∙ append_assoc launched (l ∷ []) d.launches;
  in_order = cc (d.in_order, same);
  stopped = d.stopped;
}

Drained-stop :
    (config : SchedulerConfig) (jobs left : List QueuedJob) (launched : List Launch)
    → Stopped config jobs left
    → Drained config jobs launched (state left launched)
Drained-stop config jobs left launched h = record {
  served = [];
  unserved = jobs;
  launches = [];
  whole = refl;
  started = sym (append-nil launched);
  in_order = refl;
  stopped = h;
}

pred_len : (rest : List QueuedJob) → suc (length rest) - 1 ≡ length rest
pred_len rest = omega arith

-- One round of the loop.
on_job_completion_round :
    (config : SchedulerConfig) (fuel : ℕ) (s t : Scheduler) (more : Bool)
    → try_schedule_next config s ≡ done (t, more)
    → on_job_completion config (suc fuel) s
      ≡ (if more then on_job_completion config fuel t else some (done t))
unfolding on_job_completion
on_job_completion_round config fuel s t more e = ground arith

on_job_completion_from :
    (config : SchedulerConfig) (fuel : ℕ) (jobs : List QueuedJob) (launched : List Launch)
    → All HasJob jobs
    → length jobs < fuel
    → (t : Scheduler) × (on_job_completion config fuel (state jobs launched) ≡ some (done t))
      × Drained config jobs launched t
unfolding len
on_job_completion_from config zero jobs launched h enough = absurd (omega arith)
on_job_completion_from config (suc fuel) [] launched h enough = (
  state [] launched,
  on_job_completion_round config fuel _ _ false (try_schedule_next-nil config _ refl),
  Drained-stop config [] [] launched emptied,
)
on_job_completion_from config (suc fuel) (qj ∷ rest) launched h enough =
    elim (try_schedule_next_cases config qj rest (state (qj ∷ rest) launched) h.0 refl) [
      | inl (d, l, planned, r) ↦
          let (t, e, drained) =
            on_job_completion_from config fuel rest (launched ++ l ∷ []) h.1 (omega arith) in
          (
            t,
            on_job_completion_round config fuel _ _ true r ∙ e,
            Drained-cons config qj rest launched l t (plan_job-request config _ _ planned) drained,
          )
      | inr (e, failed, inl (is_busy, r)) ↦ (
        state (qj ∷ rest) launched,
        on_job_completion_round config fuel _ _ false r,
        Drained-stop config _ _ launched (busy qj rest e (rw (pred_len rest) at failed) is_busy),
      )
      | inr (e, failed, inr (other, r)) ↦ (
        state rest launched,
        on_job_completion_round config fuel _ _ false r,
        Drained-stop config _ _ launched (dropped qj rest e (rw (pred_len rest) at failed) other),
      )
    ]

-- From a queue whose jobs carry a job message, with more fuel than jobs, the loop returns and
-- does not panic. It launched a first part of the queue in order, each job once, and nothing
-- else. It stopped because no job was left, or because the runtimes are busy for the next one,
-- which stays with those behind it, or because the plan of the next one failed for good: that
-- one is gone without a launch, and those behind it stay.
pub on_job_completion_drains :
    (config : SchedulerConfig) (fuel : ℕ) (s : Scheduler)
    → IsWellFormed s.queue
    → length s.queue.jobs < fuel
    → (t : Scheduler) × (on_job_completion config fuel s ≡ some (done t))
      × Drained config s.queue.jobs s.launched t
on_job_completion_drains config fuel s w enough =
    on_job_completion_from config fuel s.queue.jobs s.launched w enough
