-- ===== src/Scheduler/Queue/Fifo.antt =====
-- The order of the queue: first in, first out.
use buildozer.Common.{
  ℕ, zero, suc, none, some, List, [], ◌∷◌, ◌++◌, ◌≡◌, refl, All, All-append, length, append_assoc,
  append-nil, arith, ◌≤◌,
}
use buildozer.Errors.{Outcome, done, ◌>>=◌}
use buildozer.Scheduler.Queue.{
  QueuedJob, JobQueue, HasJob, IsWellFormed, new_job_queue, enqueue, dequeue,
}

-- A client that enqueues every job of a list, and one that dequeues `n` times at most.
pub enqueue_all : List QueuedJob → JobQueue → Outcome JobQueue
enqueue_all [] q = done q
enqueue_all (qj ∷ rest) q = do q' ← enqueue (some qj) q; enqueue_all rest q'

pub dequeue_up_to : ℕ → JobQueue → Outcome (JobQueue × List QueuedJob)
dequeue_up_to zero q = done (q, [])
dequeue_up_to (suc n) q = do
  (q', front) ← dequeue q
  let rest = dequeue_up_to n q'
  elim front [ none ↦ done (q', []) | some qj ↦ (rest >>= λ r. done (r.0, qj ∷ r.1)) ]

enqueue_lem :
    (qj : QueuedJob) (q : JobQueue)
    → HasJob qj
    → enqueue (some qj) q ≡ done (record { jobs = q.jobs ++ qj ∷ [] })
unfolding enqueue
enqueue_lem qj q h = rw (h.1)

enqueue_all_lem :
    (new old : List QueuedJob)
    → All HasJob new
    → enqueue_all new (record { jobs = old }) ≡ done (record { jobs = old ++ new })
unfolding enqueue_all
enqueue_all_lem [] old h = rw append-nil
enqueue_all_lem (qj ∷ rest) old h =
    rw (enqueue_lem qj (record { jobs = old }) h.0)
      (rw (enqueue_all_lem rest (old ++ qj ∷ []) h.1) (rw append_assoc))

dequeue_cons :
    (qj : QueuedJob) (rest : List QueuedJob)
    → HasJob qj
    → dequeue (record { jobs = qj ∷ rest }) ≡ done (record { jobs = rest }, some qj)
unfolding dequeue
dequeue_cons qj rest h = rw (h.1)

-- Taking as many as are there, or more, hands out the whole queue in order.
dequeue_up_to_lem :
    (n : ℕ) (jobs : List QueuedJob)
    → All HasJob jobs
    → length jobs ≤ n
    → dequeue_up_to n (record { jobs = jobs }) ≡ done (record { jobs = [] }, jobs)
unfolding dequeue_up_to dequeue
dequeue_up_to_lem zero [] h le = refl
dequeue_up_to_lem zero (qj ∷ rest) h le = elim le [ ]
dequeue_up_to_lem (suc n) [] h le = refl
dequeue_up_to_lem (suc n) (qj ∷ rest) h le =
    rw (dequeue_cons qj rest h.0) (rw (dequeue_up_to_lem n rest h.1 (omega arith)))

-- Jobs that carry a job message, enqueued one after the other behind a well-formed queue and
-- dequeued until nothing is left, come out as the old ones followed by the new ones, in order;
-- no call panics and the queue ends empty.
pub dequeue-enqueue_fifo :
    (new : List QueuedJob) (q : JobQueue) (n : ℕ)
    → IsWellFormed q
    → All HasJob new
    → length (q.jobs ++ new) ≤ n
    → (enqueue_all new q >>= dequeue_up_to n) ≡ done (new_job_queue, q.jobs ++ new)
unfolding new_job_queue
dequeue-enqueue_fifo new q n w h le =
    rw (enqueue_all_lem new q.jobs h)
      (dequeue_up_to_lem n (q.jobs ++ new) (All-append HasJob q.jobs new w h) le)
