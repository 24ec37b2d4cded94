-- ===== src/Scheduler/Dispatch/Race.antt =====
-- `TryScheduleNext` is called by every goroutine that ends, and holds no lock from its look at
-- the head of the queue to the removal of the head: three steps that other calls may come
-- between.
use buildozer.Common.{◌-◌, Bool, true, false, none, some, List, [], ◌∷◌, ◌++◌, ◌≡◌, arith}
use buildozer.Errors.{Result, ok, Outcome, done, ◌>>=◌}
use buildozer.Scheduler.Queue.{QueuedJob, HasJob, len, peek, dequeue, job_id}
use buildozer.Scheduler.Heuristic.{SchedulingDecision}
use buildozer.Scheduler.Dispatch.{
  Launch, SchedulerConfig, Scheduler, after_retry, plan_job, schedule_job, try_schedule_next,
}

-- The second step: what `scheduleJob` does for the job that the call has seen.
abbrev schedule_step :
    SchedulerConfig → QueuedJob → Scheduler → Outcome (Scheduler × Result SchedulingDecision)
schedule_step config qj s = do
  logged ← job_id qj
  done (schedule_job config qj.exec_req (len s.queue - 1) s)

-- One call with nothing between its steps; the third is the removal, `after_retry`.
pub alone : SchedulerConfig → Scheduler → Outcome (Scheduler × Bool)
alone config s = elim (peek s.queue) [
  | none ↦ done (s, false)
  | some qj ↦ schedule_step config qj s >>= after_retry
]

-- Two calls, each step of the first followed by the same step of the second.
pub lockstep : SchedulerConfig → Scheduler → Outcome (Scheduler × Bool × Bool)
lockstep config s = elim (peek s.queue) [
  | none ↦ done (s, false, false)
  | some seen₁ ↦ elim (peek s.queue) [
    | none ↦ done (s, false, false)
    | some seen₂ ↦ do
      (s₁, r₁) ← schedule_step config seen₁ s
      (s₂, r₂) ← schedule_step config seen₂ s₁
      (s₃, b₁) ← after_retry (s₂, r₁)
      (s₄, b₂) ← after_retry (s₃, r₂)
      done (s₄, b₁, b₂)
  ]
]

-- With nothing between them the three steps are `TryScheduleNext`.
pub alone_lem :
    (config : SchedulerConfig) (s : Scheduler) → alone config s ≡ try_schedule_next config s
unfolding alone try_schedule_next
alone_lem config s = ground arith

-- Two calls that end at once, on a queue with two jobs or more whose first can be launched: both
-- answer true, the first job is launched twice, the second one is taken out of the queue and
-- never launched.
pub lockstep-launches_twice :
    (config : SchedulerConfig) (a b : QueuedJob) (rest : List QueuedJob) (s : Scheduler)
    (d : SchedulingDecision) (l : Launch)
    → HasJob a
    → HasJob b
    → s.queue.jobs ≡ a ∷ b ∷ rest
    → plan_job config a.exec_req (len s.queue - 1) ≡ ok (d, l)
    → lockstep config s
      ≡ done (
        record { queue = record { jobs = rest }; launched = (s.launched ++ l ∷ []) ++ l ∷ [] },
        true,
        true,
      )
unfolding lockstep schedule_job peek dequeue
lockstep-launches_twice config a b rest s d l ha hb same planned = ground arith
