-- ===== src/Scheduler/Heuristic/Placement.antt =====
-- Where the local-first heuristic places a job.
use Prim.Native.String.{◌++◌ as append}
use buildozer.Common.{
  String, true, false, none, some, List, [], ◌∷◌, ◌++◌, ◌≡◌, ◌≢◌, refl, All, ◌⊎◌, inl, inr,
  Bool-cases, Option-cases, subst, str_eq, str_eq_iff, arith, ap,
}
use buildozer.Proto.Runtime.{Runtime}
use buildozer.Proto.Job.{Job, RuntimeMatchQuery, runtime, runtime_match_query}
use buildozer.Runtimes.{RuntimeManager}
use buildozer.Errors.{text, ok, err}
use buildozer.Scheduler.Heuristic.{
  SchedulingDecision, SchedulingContext, first_peer, placed, answers, first_local, schedule_remote,
  schedule_matches, schedule_explicit, simple_local_first,
}

-- The manager returns no error for the runtime.
abbrev pub IsLocal : RuntimeManager → Runtime → Type 0
IsLocal m rt = answers (m.get_runtime_by_id rt.id) ≡ true

abbrev pub IsNotLocal : RuntimeManager → Runtime → Type 0
IsNotLocal m rt = answers (m.get_runtime_by_id rt.id) ≡ false

-- `rt` is the first of the matches that is local.
pub record IsFirstLocal (m : RuntimeManager) (matches : List Runtime) (rt : Runtime) : Type 0 where
  pub before : List Runtime
  pub after : List Runtime
  pub whole : matches ≡ before ++ rt ∷ after
  pub is_local : IsLocal m rt
  pub none_before : All (IsNotLocal m) before

-- No match is local; `rt` is the first match and `peer` its first peer.
pub record IsFirstRemote (m : RuntimeManager) (matches : List Runtime) (rt : Runtime)
    (peer : String) : Type 0 where
  pub none_local : All (IsNotLocal m) matches
  pub rest : List Runtime
  pub whole : matches ≡ rt ∷ rest
  pub has_peer : peer ≢ ""
  pub first : peer ≡ first_peer rt.peer_ids

IsFirstLocal-head :
    (m : RuntimeManager) (rt : Runtime) (rest : List Runtime)
    → IsLocal m rt
    → IsFirstLocal m (rt ∷ rest) rt
IsFirstLocal-head m rt rest here = record {
  before = [];
  after = rest;
  whole = refl;
  is_local = here;
  none_before = tt;
}

IsFirstLocal-cons :
    (m : RuntimeManager) (r rt : Runtime) (rest : List Runtime)
    → IsNotLocal m r
    → IsFirstLocal m rest rt
    → IsFirstLocal m (r ∷ rest) rt
IsFirstLocal-cons m r rt rest there f = record {
  before = r ∷ f.before;
  after = f.after;
  whole = ap (λ l. r ∷ l) f.whole;
  is_local = f.is_local;
  none_before = (there, f.none_before);
}

first_local-some :
    (m : RuntimeManager) (matches : List Runtime) (rt : Runtime)
    → first_local m matches ≡ some rt
    → IsFirstLocal m matches rt
unfolding first_local
first_local-some m [] rt e = absurd (ground arith)
first_local-some m (r ∷ rest) rt e = elim (Bool-cases (answers (m.get_runtime_by_id r.id))) [
  | inl here ↦
      let same : r ≡ rt = ground arith in
      subst (IsFirstLocal m (r ∷ rest)) same (IsFirstLocal-head m r rest here)
  | inr there ↦ IsFirstLocal-cons m r rt rest there (first_local-some m rest rt (ground arith))
]

first_local-none :
    (m : RuntimeManager) (matches : List Runtime)
    → first_local m matches ≡ none
    → All (IsNotLocal m) matches
unfolding first_local
first_local-none m [] e = tt
first_local-none m (r ∷ rest) e = ground (arith, first_local-none m rest)

abbrev IsPlaced : RuntimeManager → String → List Runtime → SchedulingDecision → Type 0
IsPlaced m local matches d =
    (d.peer_id ≡ local) × IsFirstLocal m matches d.selected_runtime
    ⊎ IsFirstRemote m matches d.selected_runtime d.peer_id

schedule_remote-placement :
    (m : RuntimeManager) (rt : Runtime) (rest : List Runtime) (d : SchedulingDecision)
    → All (IsNotLocal m) (rt ∷ rest)
    → schedule_remote rt ≡ ok d
    → IsFirstRemote m (rt ∷ rest) d.selected_runtime d.peer_id
unfolding schedule_remote
schedule_remote-placement m rt rest d away e = record {
  none_local = away;
  rest = rest;
  whole = ground arith;
  has_peer = ground (arith, str_eq_iff (first_peer rt.peer_ids) "");
  first = ground arith;
}

schedule_matches-placement :
    (m : RuntimeManager) (local : String) (matches : List Runtime) (d : SchedulingDecision)
    → schedule_matches m local (ok matches) ≡ ok d
    → IsPlaced m local matches d
unfolding schedule_matches
schedule_matches-placement m local [] d e = absurd (ground arith)
schedule_matches-placement m local (rt ∷ rest) d e =
    elim (Option-cases (first_local m (rt ∷ rest))) [
      | inl away ↦ inr (
          schedule_remote-placement m rt rest d (first_local-none m (rt ∷ rest) away)
            (ground arith))
      | inr (found, here) ↦
          let same : found ≡ d.selected_runtime = ground arith in
          inl (
            ground arith,
            subst (IsFirstLocal m (rt ∷ rest)) same (first_local-some m _ found here),
          )
    ]

-- A job with a runtime query whose matches are `matches`: a decision either names this daemon
-- and the first match that is local, or no match is local, and it names the first match and
-- that runtime's first peer.
pub simple_local_first-placement :
    (c : SchedulingContext) (job : Job) (m : RuntimeManager) (query : RuntimeMatchQuery)
    (matches : List Runtime) (d : SchedulingDecision)
    → c.job ≡ some job
    → c.runtime_manager ≡ some m
    → job.runtime_requirement ≡ runtime_match_query (some query)
    → m.match_runtimes query ≡ ok matches
    → simple_local_first (some c) ≡ ok d
    → (d.peer_id ≡ c.local_daemon_id) × IsFirstLocal m matches d.selected_runtime
      ⊎ IsFirstRemote m matches d.selected_runtime d.peer_id
unfolding simple_local_first
simple_local_first-placement c job m query matches d hj hm hq hr h =
    schedule_matches-placement m c.local_daemon_id matches d (ground arith)

schedule_explicit-placement :
    (m : RuntimeManager) (local : String) (rt : Runtime)
    → ((d : SchedulingDecision) × (schedule_explicit m local rt ≡ ok d)
        × (d.selected_runtime ≡ rt)
        × (IsLocal m rt × (d.peer_id ≡ local)
            ⊎ IsNotLocal m rt × (d.peer_id ≡ first_peer rt.peer_ids) × (d.peer_id ≢ "")))
      ⊎ IsNotLocal m rt
        × (first_peer rt.peer_ids ≡ "")
        × ((t : String) × (schedule_explicit m local rt ≡ err (text t)))
unfolding schedule_explicit
schedule_explicit-placement m local rt = elim (Bool-cases (answers (m.get_runtime_by_id rt.id))) [
  | inl here ↦
      inl (
        placed local rt "Using explicitly specified local runtime",
        rw here,
        refl,
        inl (here, refl),
      )
  | inr away ↦ elim (Bool-cases (str_eq (first_peer rt.peer_ids) "")) [
    | inl empty ↦ inr (
      away,
      (str_eq_iff _ _).0 empty,
      (
        append "explicit runtime " (append rt.id " not available locally and no remote peer found"),
        rw (away, empty),
      ),
    )
    | inr named ↦ inl (
      placed (first_peer rt.peer_ids) rt "Explicit runtime available on remote peer",
      rw (away, named),
      refl,
      inr (away, refl, ground (arith, str_eq_iff (first_peer rt.peer_ids) "")),
    )
  ]
]

simple_local_first_explicit_lem :
    (c : SchedulingContext) (job : Job) (m : RuntimeManager) (rt : Runtime)
    → c.job ≡ some job
    → c.runtime_manager ≡ some m
    → job.runtime_requirement ≡ runtime (some rt)
    → simple_local_first (some c) ≡ schedule_explicit m c.local_daemon_id rt
unfolding simple_local_first
simple_local_first_explicit_lem c job m rt hj hm hq = ground arith

-- For a job that names its runtime, a decision keeps that runtime, on this daemon if
-- the manager returns no error for it, and otherwise on the runtime's first peer, whose name is
-- not empty. Otherwise the manager returns an error for it, the runtime has no first peer or an
-- empty one, and the result is an error.
pub simple_local_first-explicit :
    (c : SchedulingContext) (job : Job) (m : RuntimeManager) (rt : Runtime)
    → c.job ≡ some job
    → c.runtime_manager ≡ some m
    → job.runtime_requirement ≡ runtime (some rt)
    → ((d : SchedulingDecision) × (simple_local_first (some c) ≡ ok d)
        × (d.selected_runtime ≡ rt)
        × (IsLocal m rt × (d.peer_id ≡ c.local_daemon_id)
            ⊎ IsNotLocal m rt × (d.peer_id ≡ first_peer rt.peer_ids) × (d.peer_id ≢ "")))
      ⊎ IsNotLocal m rt
        × (first_peer rt.peer_ids ≡ "")
        × ((t : String) × (simple_local_first (some c) ≡ err (text t)))
simple_local_first-explicit c job m rt hj hm hq =
    rw (simple_local_first_explicit_lem c job m rt hj hm hq)
      (schedule_explicit-placement m c.local_daemon_id rt)
