-- ===== src/Scheduler/Tracker/Jobs.antt =====
-- What the tracker knows of a job: each job's entry evolves on its own, by a small machine.
use buildozer.Common.{
  ℕ, String, true, Option, none, some, List, [], ◌∷◌, ◌≡◌, refl, arith, is_empty_list,
  if◌then◌else◌, lookup, str_eq, str_eq_iff, lookup-insert, lookup-delete, inl, inr, Option-cases,
  Bool-cases, Text, ◌⊎◌,
}
use buildozer.Proto.Job.{Job, JobData}
use buildozer.Errors.{Err, text, Result, ok, err, Result-cases}
use buildozer.Scheduler.Tracker.{
  RemoteJobExecution, RemoteTracker, not_tracked, fresh_execution, Call, track, update, stop, step,
  prepare_for_remote, copy_for_remote, embedding_failed,
}

abbrev find : String → RemoteTracker → Option RemoteJobExecution
find job_id rt = lookup job_id rt.remote_executions

-- The job that a call names.
abbrev about : Call → String
about (track job_id peer_id job) = job_id
about (update job_id status) = job_id
about (stop job_id) = job_id

-- One job's machine: what a call about it answers, and the execution that it leaves.
pub job_step : ℕ → ℕ → Call → Option RemoteJobExecution → Option RemoteJobExecution × Option Err
job_step now later (track id peer job) (some e) = (
  some e,
  some (
      if str_eq id ""
      then text "job ID cannot be empty"
      else if str_eq peer ""
      then text "remote peer ID cannot be empty"
      else text "job %s already being tracked"),
)
job_step now later (track id peer job) none =
    if str_eq id ""
    then (none, some (text "job ID cannot be empty"))
    else if str_eq peer ""
    then (none, some (text "remote peer ID cannot be empty"))
    else (some (fresh_execution now later id peer job), none)
job_step now later (update id none) old = (
  old,
  some (if str_eq id "" then text "job ID cannot be empty" else text "status cannot be nil"),
)
job_step now later (update id (some status)) none =
    (none, some (if str_eq id "" then text "job ID cannot be empty" else not_tracked))
job_step now later (update id (some status)) (some e) =
    if str_eq id ""
    then (some e, some (text "job ID cannot be empty"))
    else (some (record e { last_known_status = status; status_updated_at = now }), none)
job_step now later (stop id) none = (none, some not_tracked)
job_step now later (stop id) (some e) = (none, none)

-- A call does to the job that it names what that job's machine does, answers what the machine
-- answers, and leaves the execution of every other job as it was.
pub find-step :
    (now later : ℕ) (call : Call) (rt : RemoteTracker) (other : String)
    → let old = lookup (about call) rt.remote_executions in
      let new = step now later call rt in
      (new.1 ≡ (job_step now later call old).1)
      × (lookup other new.0.remote_executions ≡ (
          if str_eq (about call) other
          then (job_step now later call old).0
          else lookup other rt.remote_executions))
unfolding step job_step
find-step now later (track id peer job) rt other = ground (
  arith,
  str_eq_iff id other,
  lookup-insert id other (fresh_execution now later id peer job) rt.remote_executions,
)
find-step now later (update id none) rt other = ground (arith, str_eq_iff id other)
find-step now later (update id (some status)) rt other =
    elim (Option-cases (lookup id rt.remote_executions)) [
      | inl unknown ↦ ground (arith, str_eq_iff id other)
      | inr (e, known) ↦ ground (
        arith,
        str_eq_iff id other,
        lookup-insert id other (record e { last_known_status = status; status_updated_at = now })
            rt.remote_executions,
      )
    ]
find-step now later (stop id) rt other =
    ground (arith, str_eq_iff id other, lookup-delete id other rt.remote_executions)

empty {ℓ} : {A : Type ℓ} (xs : List A) → is_empty_list xs ≡ true → xs ≡ []
empty [] h = refl
empty (x ∷ xs) h = absurd (ground arith)

-- A prepared job names no input data by ID, keeps its embedded inputs or has those that
-- `embed` gave for the IDs, and is left as it is when it is prepared again. Preparation fails
-- only where embedding fails.
pub prepare_for_remote_lem :
    (embed again : List Text → Result (List JobData)) (job : Job)
    → ((k : Job) × (prepare_for_remote embed (some job) ≡ ok k)
        × (k.input_data_ids ≡ [])
        × ((k.inputs ≡ job.inputs) ⊎ (job.inputs ≡ []) × (embed job.input_data_ids ≡ ok k.inputs))
        × (prepare_for_remote again (some k) ≡ ok k))
      ⊎ ((e : Err) × (embed job.input_data_ids ≡ err e)
          × (job.inputs ≡ [])
          × (prepare_for_remote embed (some job) ≡ err embedding_failed))
unfolding prepare_for_remote
prepare_for_remote_lem embed again job = elim (Bool-cases (is_empty_list job.inputs)) [
  | inl bare ↦ elim (Bool-cases (is_empty_list job.input_data_ids)) [
    | inl unused ↦ inl (copy_for_remote job, rw (bare, unused) refl, refl, inl refl, rw bare refl)
    | inr ids ↦ elim (Result-cases (embed job.input_data_ids)) [
      | inl (inputs, e) ↦ inl (
        record (copy_for_remote job) { inputs = inputs },
        rw (bare, ids, e) refl,
        refl,
        inr (empty job.inputs bare, e),
        ground arith,
      )
      | inr (e, fails) ↦ inr (e, fails, empty job.inputs bare, rw (bare, ids, fails) refl)
    ]
  ]
  | inr carried ↦ inl (copy_for_remote job, rw carried refl, refl, inl refl, rw carried refl)
]
