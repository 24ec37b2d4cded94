-- ===== src/Scheduler/Dispatch/Locality.antt =====
-- The scheduler with the shipped heuristic and the aggregated runtimes manager: where jobs go.
use buildozer.Common.{
  ℕ, String, false, Option, none, some, List, ◌≡◌, refl, inl, inr, arith, Option-cases,
}
use buildozer.Proto.Job.{Job, RuntimeMatchQuery, runtime}
use buildozer.Proto.Runtime.{Runtime}
use buildozer.Runtimes.{RuntimeImpl, RuntimeManager, aggregated_manager, find_by_id}
use buildozer.Errors.{Err, Result, err, eq_busy, ok, done, panic, Result-cases}
use buildozer.Scheduler.Queue.{ExecutionRequest, len}
use buildozer.Scheduler.Heuristic.{SchedulingDecision, simple_local_first, placed}
use buildozer.Scheduler.Heuristic.Limits.{
  IsQuiet, simple_local_first-ne-busy, simple_local_first-local,
}
use buildozer.Scheduler.Dispatch.{
  Launch, SchedulerConfig, Scheduler, plan_job, enqueue_job, context, run_launch, ExecutionResult,
}

-- The configuration with `SimpleLocalFirstHeuristic`.
abbrev pub local_first : RuntimeManager → String → SchedulerConfig
local_first manager id = record {
  heuristic = λ c. simple_local_first (some c);
  runtime_manager = manager;
  local_daemon_id = id;
}

plan_job-ne-busy :
    (manager : RuntimeManager) (id : String) (req : Option ExecutionRequest) (n : ℕ) (e : Err)
    → IsQuiet manager
    → plan_job (local_first manager id) req n ≡ err e
    → eq_busy e ≡ false
unfolding plan_job
plan_job-ne-busy manager id none n e quiet h = ground arith
plan_job-ne-busy manager id (some req) n e quiet h = elim (Option-cases req.full_job) [
  | inl absent ↦ ground arith
  | inr (job, has) ↦
      let c = context (local_first manager id) job n in
      elim (Result-cases (simple_local_first (some c))) [
        | inl (d, planned) ↦ ground arith
        | inr (f, failed) ↦ ground (arith, simple_local_first-ne-busy c manager f refl quiet failed)
      ]
]

-- With the shipped heuristic, and a manager whose `Match` does not say that the runtimes are
-- busy, no submission touches the queue, whatever its outcome.
enqueue_job-never_queues :
    (manager : RuntimeManager) (id : String) (now : ℕ) (req : Option ExecutionRequest)
    (s t : Scheduler) (r : Result SchedulingDecision)
    → IsQuiet manager
    → enqueue_job (local_first manager id) now req s ≡ done (t, r)
    → t.queue ≡ s.queue
unfolding enqueue_job
enqueue_job-never_queues manager id now none s t r quiet e = ground arith
enqueue_job-never_queues manager id now (some req) s t r quiet e =
    elim (Result-cases (plan_job (local_first manager id) (some req) (len s.queue))) [
      | inl ((d, l), planned) ↦ ground arith
      | inr (f, failed) ↦
          ground (arith, plan_job-ne-busy manager id (some req) (len s.queue) f quiet failed)
    ]

module _ (order : List Runtime → List Runtime) (locals : List RuntimeImpl)
    (remote_match : RuntimeMatchQuery → Result (List Runtime)) (id : String) where
  -- A daemon whose local detection succeeded, with any peers.
  abbrev pub daemon_config : SchedulerConfig
  daemon_config = local_first (aggregated_manager order (ok locals) remote_match) id

  -- On such a daemon every job that is launched is placed on the daemon itself, also if the
  -- chosen runtime is a peer's; and what the goroutine gets is the local runtime with the chosen
  -- ID, or nil where there is none.
  pub plan_job-local :
      (req : Option ExecutionRequest) (n : ℕ) (d : SchedulingDecision) (l : Launch)
      → plan_job daemon_config req n ≡ ok (d, l)
      → (d.peer_id ≡ id) × (l.runtime_impl ≡ find_by_id d.selected_runtime.id locals)
  unfolding plan_job aggregated_manager
  plan_job-local none n d l e = absurd (ground arith)
  plan_job-local (some req) n d l e = elim (Option-cases req.full_job) [
    | inl absent ↦ absurd (ground arith)
    | inr (job, has) ↦
        let c = context daemon_config job n in
        elim (Result-cases (simple_local_first (some c))) [
          | inl (k, planned) ↦
              let here : k.peer_id ≡ id =
                simple_local_first-local c daemon_config.runtime_manager k refl (λ i. refl)
                  planned in
              ground arith
          | inr (f, failed) ↦ absurd (ground arith)
        ]
  ]

  -- A job that names a runtime which the daemon does not hold is launched all the same, and its
  -- goroutine dereferences nil, whatever peers the runtime names.
  pub launch_missing_runtime :
      (req : ExecutionRequest) (job : Job) (rt : Runtime) (n : ℕ)
      (execute : RuntimeImpl → Result ExecutionResult) (s : Scheduler)
      → req.full_job ≡ some job
      → job.runtime_requirement ≡ runtime (some rt)
      → find_by_id rt.id locals ≡ none
      → (d : SchedulingDecision) × (l : Launch) × (plan_job daemon_config (some req) n ≡ ok (d, l))
        × (run_launch execute daemon_config l s ≡ panic)
  unfolding plan_job aggregated_manager simple_local_first run_launch
  launch_missing_runtime req job rt n execute s has wants missing = (
    placed id rt "Using explicitly specified local runtime",
    record { request = req; job = job; runtime_impl = none },
    ground arith,
    ground arith,
  )
