-- ===== src/Scheduler/Dispatch/Retry.antt =====
-- What the scheduler does with a job that is submitted, and with the jobs that wait.
use buildozer.Common.{
  ℕ, ◌-◌, Bool, true, false, some, List, [], ◌∷◌, ◌++◌, ◌≡◌, ◌⊎◌, inl, inr, Bool-cases, arith,
}
use buildozer.Proto.Job.{Job}
use buildozer.Errors.{Err, Result, ok, err, eq_busy, Result-cases, Outcome, done}
use buildozer.Scheduler.Queue.{ExecutionRequest, QueuedJob, HasJob, enqueue, dequeue, peek, len}
use buildozer.Scheduler.Heuristic.{SchedulingDecision}
use buildozer.Scheduler.Dispatch.{
  Launch, SchedulerConfig, Scheduler, plan_job, enqueue_job, try_schedule_next,
}

abbrev start : Scheduler → Launch → Scheduler
start s l = record s { launched = s.launched ++ l ∷ [] }

-- The outcomes of a submission: the job is launched, or it waits at the end of the queue and the
-- error says that the runtimes are busy, or nothing changes and the error is another one.
abbrev pub Submitted :
    SchedulerConfig
    → ℕ
    → ExecutionRequest
    → Scheduler
    → Outcome (Scheduler × Result SchedulingDecision)
    → Type 0
Submitted config now req s r =
    ((d : SchedulingDecision) × (l : Launch) × (plan_job config (some req) (len s.queue)
        ≡ ok (d, l))
      × (r ≡ done (start s l, ok d)))
    ⊎ ((e : Err) × (plan_job config (some req) (len s.queue) ≡ err e)
        × ((eq_busy e ≡ true)
              × (r
                  ≡ done (
                    record s {
                      queue = record {
                        jobs =
                            s.queue.jobs ++ record { exec_req = some req; enqueued_at = now } ∷ [];
                      };
                    },
                    err e,
                  ))
            ⊎ (eq_busy e ≡ false) × (r ≡ done (s, err e))))

-- Submitting a request that carries a job never panics. With the plan that the heuristic and
-- the manager lead to: the job is launched and the queue kept; or the plan's error says that the
-- runtimes are busy, and the request, stamped with the time, is the queue's last; or the error
-- is another one, and nothing changes.
pub enqueue_job_cases :
    (config : SchedulerConfig) (now : ℕ) (req : ExecutionRequest) (job : Job) (s : Scheduler)
    → req.full_job ≡ some job
    → Submitted config now req s (enqueue_job config now (some req) s)
unfolding enqueue_job enqueue
enqueue_job_cases config now req job s has =
    elim (Result-cases (plan_job config (some req) (len s.queue))) [
      | inl ((d, l), e) ↦ inl (d, l, e, ground arith)
      | inr (e, f) ↦ inr (
        e,
        f,
        elim (Bool-cases (eq_busy e)) [
          | inl busy ↦ inl (busy, ground arith)
          | inr other ↦ inr (other, ground arith)
        ],
      )
    ]

-- The outcomes of a look at the queue's head.
abbrev pub Retried :
    SchedulerConfig → QueuedJob → List QueuedJob → Scheduler → Outcome (Scheduler × Bool) → Type 0
Retried config qj rest s r =
    ((d : SchedulingDecision) × (l : Launch) × (plan_job config qj.exec_req (len s.queue - 1)
        ≡ ok (d, l))
      × (r
          ≡ done
              (record { queue = record { jobs = rest }; launched = s.launched ++ l ∷ [] }, true)))
    ⊎ ((e : Err) × (plan_job config qj.exec_req (len s.queue - 1) ≡ err e)
        × ((eq_busy e ≡ true) × (r ≡ done (s, false))
            ⊎ (eq_busy e ≡ false)
              × (r ≡ done (record s { queue = record { jobs = rest } }, false))))

-- What `TryScheduleNext` makes of a queue whose head is `qj` and carries a job: it launches the
-- job and takes it out; or the runtimes are busy, and nothing changes; or the plan fails for
-- good, and the job is taken out without a launch. Only the first answers true. It never panics.
pub try_schedule_next_cases :
    (config : SchedulerConfig) (qj : QueuedJob) (rest : List QueuedJob) (s : Scheduler)
    → HasJob qj
    → s.queue.jobs ≡ qj ∷ rest
    → Retried config qj rest s (try_schedule_next config s)
unfolding try_schedule_next peek dequeue
try_schedule_next_cases config qj rest s h same =
    elim (Result-cases (plan_job config qj.exec_req (len s.queue - 1))) [
      | inl ((d, l), e) ↦ inl (d, l, e, ground arith)
      | inr (e, f) ↦ inr (
        e,
        f,
        elim (Bool-cases (eq_busy e)) [
          | inl busy ↦ inl (busy, ground arith)
          | inr other ↦ inr (other, ground arith)
        ],
      )
    ]

-- On an empty queue it answers false and changes nothing.
pub try_schedule_next-nil :
    (config : SchedulerConfig) (s : Scheduler)
    → s.queue.jobs ≡ []
    → try_schedule_next config s ≡ done (s, false)
unfolding try_schedule_next peek
try_schedule_next-nil config s empty = rw empty
