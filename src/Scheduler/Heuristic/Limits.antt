-- ===== src/Scheduler/Heuristic/Limits.antt =====
-- What the local-first heuristic never does: say that the runtimes are busy, or leave a daemon
-- whose manager returns no error for any ID.
use buildozer.Common.{
  String, true, false, none, some, List, [], ◌∷◌, ◌≡◌, refl, inl, inr, Option-cases, arith,
}
use buildozer.Proto.Runtime.{Runtime}
use buildozer.Proto.Job.{RuntimeMatchQuery, RuntimeRequirement, runtime, runtime_match_query, unset}
use buildozer.Runtimes.{RuntimeManager}
use buildozer.Errors.{Err, Result, ok, err, is_busy}
use buildozer.Scheduler.Heuristic.{
  SchedulingDecision, SchedulingContext, answers, first_local, schedule_matches,
  schedule_requirement, simple_local_first,
}

-- The manager's `Match` never fails with an error that says that the runtimes are busy.
abbrev pub IsQuiet : RuntimeManager → Type 0
IsQuiet m =
    (query : RuntimeMatchQuery) (f : Err) → m.match_runtimes query ≡ err f → is_busy f ≡ false

schedule_matches-ne-busy :
    (m : RuntimeManager) (local : String) (r : Result (List Runtime)) (e : Err)
    → ((f : Err) → r ≡ err f → is_busy f ≡ false)
    → schedule_matches m local r ≡ err e
    → is_busy e ≡ false
unfolding schedule_matches
schedule_matches-ne-busy m local (err f) e quiet h = ground (arith, quiet f refl)
schedule_matches-ne-busy m local (ok []) e quiet h = ground arith
schedule_matches-ne-busy m local (ok (rt ∷ rest)) e quiet h =
    elim (Option-cases (first_local m (rt ∷ rest))) [
      | inl away ↦ ground arith
      | inr (found, here) ↦ ground arith
    ]

schedule_requirement-ne-busy :
    (m : RuntimeManager) (local : String) (req : RuntimeRequirement) (e : Err)
    → IsQuiet m
    → schedule_requirement m local req ≡ err e
    → is_busy e ≡ false
unfolding schedule_requirement
schedule_requirement-ne-busy m local (runtime none) e quiet h = ground arith
schedule_requirement-ne-busy m local (runtime (some rt)) e quiet h = ground arith
schedule_requirement-ne-busy m local (runtime_match_query none) e quiet h = ground arith
schedule_requirement-ne-busy m local (runtime_match_query (some query)) e quiet h =
    schedule_matches-ne-busy m local (m.match_runtimes query) e (quiet query) h
schedule_requirement-ne-busy m local unset e quiet h = ground arith

schedule_matches-local :
    (m : RuntimeManager) (local : String) (r : Result (List Runtime)) (d : SchedulingDecision)
    → ((id : String) → answers (m.get_runtime_by_id id) ≡ true)
    → schedule_matches m local r ≡ ok d
    → d.peer_id ≡ local
unfolding schedule_matches
schedule_matches-local m local (err f) d all h = absurd (ground arith)
schedule_matches-local m local (ok []) d all h = absurd (ground arith)
schedule_matches-local m local (ok (rt ∷ rest)) d all h = ground (arith, all rt.id)

schedule_requirement-local :
    (m : RuntimeManager) (local : String) (req : RuntimeRequirement) (d : SchedulingDecision)
    → ((id : String) → answers (m.get_runtime_by_id id) ≡ true)
    → schedule_requirement m local req ≡ ok d
    → d.peer_id ≡ local
unfolding schedule_requirement
schedule_requirement-local m local (runtime none) d all h = absurd (ground arith)
schedule_requirement-local m local (runtime (some rt)) d all h = ground (arith, all rt.id)
schedule_requirement-local m local (runtime_match_query none) d all h = absurd (ground arith)
schedule_requirement-local m local (runtime_match_query (some query)) d all h =
    schedule_matches-local m local (m.match_runtimes query) d all h
schedule_requirement-local m local unset d all h = absurd (ground arith)

-- No error of the heuristic says that the runtimes are busy, unless the manager's `Match` says
-- so itself: what the scheduler takes for its reason to queue a job.
pub simple_local_first-ne-busy :
    (c : SchedulingContext) (m : RuntimeManager) (e : Err)
    → c.runtime_manager ≡ some m
    → IsQuiet m
    → simple_local_first (some c) ≡ err e
    → is_busy e ≡ false
unfolding simple_local_first
simple_local_first-ne-busy c m e hm quiet h = elim (Option-cases c.job) [
  | inl absent ↦ ground arith
  | inr (job, is_set) ↦
      schedule_requirement-ne-busy m c.local_daemon_id job.runtime_requirement e quiet
        (ground arith)
]

-- Where the manager returns no error for any ID, every decision names this daemon.
pub simple_local_first-local :
    (c : SchedulingContext) (m : RuntimeManager) (d : SchedulingDecision)
    → c.runtime_manager ≡ some m
    → ((id : String) → answers (m.get_runtime_by_id id) ≡ true)
    → simple_local_first (some c) ≡ ok d
    → d.peer_id ≡ c.local_daemon_id
unfolding simple_local_first
simple_local_first-local c m d hm all h = elim (Option-cases c.job) [
  | inl absent ↦ absurd (ground arith)
  | inr (job, has) ↦
      schedule_requirement-local m c.local_daemon_id job.runtime_requirement d all (ground arith)
]
