-- ===== src/Scheduler/Queue.antt =====
-- pkg/scheduler/queue.go. The mutex makes each method one atomic step, so a method is a
-- function from the queue to the queue and its result. The pointers of the waiting jobs are
-- compared by nothing, and the slice's backing array is never shared: the queue is a list.
pub mod Fifo
pub mod Removal
use buildozer.Common.{
  ℕ, String, Bool, true, false, Option, none, some, List, [], ◌∷◌, ◌++◌, ◌≡◌, All, length,
  if◌then◌else◌, str_eq,
}
use buildozer.Proto.Job.{Job}
use buildozer.Errors.{Outcome, done, panic, ◌>>=◌}

-- runtime.ExecutionRequest (pkg/runtime/types.go); of a callback counts whether it is set.
pub record ExecutionRequest : Type 0 where
  pub full_job : Option Job
  pub has_progress_callback : Bool
  pub has_completion_callback : Bool

pub record QueuedJob : Type 0 where
  pub exec_req : Option ExecutionRequest
  pub enqueued_at : ℕ

pub record JobQueue : Type 0 where
  pub jobs : List QueuedJob

abbrev pub request_job_id : Option ExecutionRequest → Outcome String
request_job_id none = panic
request_job_id (some r) = elim r.full_job [ none ↦ panic | some j ↦ done j.id ]

-- `qj.ExecReq.FullJob.Id`, which the log lines and `Remove` evaluate.
abbrev pub job_id : QueuedJob → Outcome String
job_id qj = request_job_id qj.exec_req

unfoldable pub new_job_queue : JobQueue
new_job_queue = record { jobs = [] }

unfoldable pub enqueue : Option QueuedJob → JobQueue → Outcome JobQueue
enqueue none q = done q
enqueue (some qj) q = do logged ← job_id qj; done (record { jobs = q.jobs ++ qj ∷ [] })

dequeue_jobs : List QueuedJob → Outcome (JobQueue × Option QueuedJob)
dequeue_jobs [] = done (record { jobs = [] }, none)
dequeue_jobs (qj ∷ rest) = do logged ← job_id qj; done (record { jobs = rest }, some qj)

unfoldable pub dequeue : JobQueue → Outcome (JobQueue × Option QueuedJob)
unfolding dequeue_jobs
dequeue q = dequeue_jobs q.jobs

first : List QueuedJob → Option QueuedJob
first [] = none
first (qj ∷ rest) = some qj

unfoldable pub peek : JobQueue → Option QueuedJob
unfolding first
peek q = first q.jobs

unfoldable pub len : JobQueue → ℕ
len q = length q.jobs

-- The loop of `Remove`: what is left, and whether a job was found.
unfoldable pub remove_from : String → List QueuedJob → Outcome (List QueuedJob × Bool)
remove_from id [] = done ([], false)
remove_from id (qj ∷ rest) = do
  found ← job_id qj
  let later = remove_from id rest
  if str_eq found id then done (rest, true) else (later >>= λ r. done (qj ∷ r.0, r.1))

unfoldable pub remove : String → JobQueue → Outcome (JobQueue × Bool)
unfolding remove_from
remove id q = do r ← remove_from id q.jobs; done (record { jobs = r.0 }, r.1)

unfoldable pub clear : JobQueue → JobQueue
clear q = record { jobs = [] }

unfoldable pub get_all : JobQueue → List QueuedJob
get_all q = q.jobs

-- The job's ID can be read.
abbrev pub HasJob : QueuedJob → Type 0
HasJob qj = (id : String) × (job_id qj ≡ done id)

abbrev pub IsWellFormed : JobQueue → Type 0
IsWellFormed q = All HasJob q.jobs
