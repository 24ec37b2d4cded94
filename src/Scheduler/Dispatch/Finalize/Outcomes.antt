-- ===== src/Scheduler/Dispatch/Finalize/Outcomes.antt =====
-- What the finalization of a job answers.
use buildozer.Common.{
  pos, true, false, none, some, List, ◌≡◌, ◌⊎◌, refl, ◌&&◌, is_empty_list, arith, inl, inr,
  Bool-cases, Option-cases,
}
use buildozer.Errors.{Err, wrapped, ok, Result-cases}
use buildozer.Proto.Job.{Job, JobData, JobResult, ResultStatus}
use buildozer.Scheduler.Dispatch.Finalize.{Stager, finalize, is_zero, materialized}

-- The materialization with its verification: it succeeds, or the result is a failed one.
materialized_cases :
    (stager : Stager) (job : Job) (r : JobResult)
    → ((outputs : List JobData) × (stager.materialize_job_outputs job.cwd job r ≡ ok outputs)
        × (stager.verify_job_result_outputs job.cwd (record r { outputs = outputs }) ≡ none)
        × (materialized stager job r
            ≡ (record r { outputs = outputs; status = ResultStatus.completed }, none)))
      ⊎ ((e : Err) × ((materialized stager job r).1 ≡ some e)
          × ((materialized stager job r).0.status ≡ ResultStatus.failed)
          × ((materialized stager job r).0.exit_code ≡ pos 1))
materialized_cases stager job r =
    elim (Result-cases (stager.materialize_job_outputs job.cwd job r)) [
      | inr (e, fails) ↦ inr (
        wrapped "output materialization failed" e,
        ground (arith, fails),
        ground (arith, fails),
        ground (arith, fails),
      )
      | inl (outputs, there) ↦
          elim (Option-cases
            (stager.verify_job_result_outputs job.cwd (record r { outputs = outputs }))) [
              | inl verified ↦ inl (outputs, there, verified, ground (arith, there, verified))
              | inr (e, fails) ↦ inr (
                wrapped "output verification failed" e,
                ground (arith, there, fails),
                ground (arith, there, fails),
                ground (arith, there, fails),
              )
            ]
    ]

-- What a finalization answers: with an error the result is a failed one; without, it is the one
-- that was given, of a failed run or one without outputs, or it has the materialized outputs,
-- which were verified, and is completed.
pub finalize_cases :
    (stager : Stager) (job : Job) (r : JobResult)
    → (is_zero r.exit_code ≡ false) × (finalize stager job r ≡ (r, none))
      ⊎ (is_zero r.exit_code ≡ true)
        × ((finalize stager job r ≡ (r, none))
            ⊎ ((outputs : List JobData) × (stager.materialize_job_outputs job.cwd job r
                  ≡ ok outputs)
                × (stager.verify_job_result_outputs job.cwd (record r { outputs = outputs }) ≡ none)
                × (finalize stager job r
                    ≡ (record r { outputs = outputs; status = ResultStatus.completed }, none)))
            ⊎ ((e : Err) × ((finalize stager job r).1 ≡ some e)
                × ((finalize stager job r).0.status ≡ ResultStatus.failed)
                × ((finalize stager job r).0.exit_code ≡ pos 1)))
unfolding finalize
finalize_cases stager job r = elim (Bool-cases (is_zero r.exit_code)) [
  | inr failed ↦ inl (failed, rw failed refl)
  | inl zero ↦ elim (Bool-cases (is_empty_list job.outputs && is_empty_list r.outputs)) [
    | inl bare ↦ inr (zero, inl (rw (zero, bare) refl))
    | inr carried ↦ inr (zero, inr (rw (zero, carried) (materialized_cases stager job r)))
  ]
]
