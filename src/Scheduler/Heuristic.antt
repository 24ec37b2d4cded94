-- ===== src/Scheduler/Heuristic.antt =====
-- pkg/scheduler/heuristics: where a job is to run. The runtime manager is an argument.
pub mod Placement
pub mod Limits
use Prim.Native.String.{◌++◌ as append}
use buildozer.Common.{ℕ, String, Bool, Option, none, some, List, [], ◌∷◌, if◌then◌else◌, str_eq}
use buildozer.Proto.Runtime.{Runtime}
use buildozer.Proto.Job.{
  Job, RuntimeMatchQuery, RuntimeRequirement, runtime, runtime_match_query, unset,
}
use buildozer.Runtimes.{RuntimeImpl, RuntimeManager}
use buildozer.Errors.{Err, sentinel, text, wrapped, Result, ok, err, Sentinel}

pub record SchedulingDecision : Type 0 where
  pub peer_id : String
  pub selected_runtime : Runtime
  pub reason : String

-- The literal `&SchedulingDecision{…}`.
abbrev pub placed : String → Runtime → String → SchedulingDecision
placed peer rt why = record { peer_id = peer; selected_runtime = rt; reason = why }

pub record SchedulingContext : Type 0 where
  pub job : Option Job
  pub runtime_manager : Option RuntimeManager
  pub local_daemon_id : String
  pub job_count : ℕ

-- `peerIds[0]`, or the empty text.
abbrev pub first_peer : List String → String
first_peer [] = ""
first_peer (p ∷ ps) = p

-- `_, err := GetRuntimeByID(ctx, id)` with `err == nil`.
abbrev pub answers : Result (Option RuntimeImpl) → Bool
answers (ok _) = Bool.true
answers (err _) = Bool.false

-- An explicit runtime: here if the manager returns no error for it, else on its first peer.
unfoldable pub schedule_explicit : RuntimeManager → String → Runtime → Result SchedulingDecision
schedule_explicit manager local rt =
    if answers (manager.get_runtime_by_id rt.id)
    then ok (placed local rt "Using explicitly specified local runtime")
    else if str_eq (first_peer rt.peer_ids) ""
    then err (
        text (
          append "explicit runtime "
            (append rt.id " not available locally and no remote peer found")))
    else ok (placed (first_peer rt.peer_ids) rt "Explicit runtime available on remote peer")

-- The loop over the matches: the first for which the manager returns no error.
unfoldable pub first_local : RuntimeManager → List Runtime → Option Runtime
first_local manager [] = none
first_local manager (rt ∷ rest) =
    if answers (manager.get_runtime_by_id rt.id) then some rt else first_local manager rest

-- No match is local: the first match, on its first peer.
unfoldable pub schedule_remote : Runtime → Result SchedulingDecision
schedule_remote rt =
    if str_eq (first_peer rt.peer_ids) ""
    then err (
        text
          (append "no local match and selected remote runtime " (append rt.id " has no peer ID")))
    else ok
        (placed (first_peer rt.peer_ids) rt "Selected remote runtime - no local match available")

unfoldable pub schedule_matches :
    RuntimeManager → String → Result (List Runtime) → Result SchedulingDecision
unfolding first_local schedule_remote
schedule_matches manager local (err e) = err (wrapped "failed to find matching runtimes" e)
schedule_matches manager local (ok []) = err (sentinel Sentinel.heuristics_no_matching_runtimes)
schedule_matches manager local (ok (rt ∷ rest)) = elim (first_local manager (rt ∷ rest)) [
  | some found ↦ ok (placed local found "Selected available local runtime matching query")
  | none ↦ schedule_remote rt
]

unfoldable pub schedule_requirement :
    RuntimeManager → String → RuntimeRequirement → Result SchedulingDecision
unfolding schedule_explicit schedule_matches
schedule_requirement manager local (runtime none) = err (sentinel Sentinel.heuristics_nil_runtime)
schedule_requirement manager local (runtime (some rt)) = schedule_explicit manager local rt
schedule_requirement manager local (runtime_match_query none) =
    err (sentinel Sentinel.heuristics_nil_runtime_match_query)
schedule_requirement manager local (runtime_match_query (some query)) =
    schedule_matches manager local (manager.match_runtimes query)
schedule_requirement manager local unset = err (sentinel Sentinel.heuristics_no_runtime_requirement)

-- `SimpleLocalFirstHeuristic.Schedule`
unfoldable pub simple_local_first : Option SchedulingContext → Result SchedulingDecision
unfolding schedule_requirement
simple_local_first none = err (sentinel Sentinel.heuristics_nil_scheduling_context)
simple_local_first (some c) = elim c.job [
  | none ↦ err (sentinel Sentinel.heuristics_nil_job)
  | some job ↦ elim c.runtime_manager [
    | none ↦ err (sentinel Sentinel.heuristics_nil_runtime_manager)
    | some manager ↦ schedule_requirement manager c.local_daemon_id job.runtime_requirement
  ]
]
