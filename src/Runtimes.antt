-- ===== src/Runtimes.antt =====
-- pkg/runtimes/manager.go: which runtimes a daemon can use. `RuntimeManager` is the interface,
-- of which the scheduler calls two methods; a value of it stands for the answers given while
-- one decision is made. The local manager detects runtimes once and keeps them; the aggregated
-- one asks it and the manager of the peers' runtimes.
mod Samples
pub mod Lookup
pub mod Query
pub mod Aggregate
use buildozer.Common.{
  String, Bool, true, false, Option, none, some, List, [], ◌∷◌, ◌++◌, map, if◌then◌else◌, str_eq,
  lookup, insert,
}
use buildozer.Proto.Runtime.{Runtime}
use buildozer.Proto.Job.{RuntimeMatchQuery}
use buildozer.Errors.{Err, Result, ok, err}

-- runtime.Runtime, the interface of what executes a job, by the methods that are called here.
pub record RuntimeImpl : Type 0 where
  pub runtime_id : String
  pub proto : Result Runtime
  pub matches_query : RuntimeMatchQuery → Result Bool

-- `GetRuntimeByID` may return a nil runtime together with a nil error.
pub record RuntimeManager : Type 0 where
  pub get_runtime_by_id : String → Result (Option RuntimeImpl)
  pub match_runtimes : RuntimeMatchQuery → Result (List Runtime)

-- What a detection leaves: the runtimes, and the error where there was one.
pub record Detection : Type 0 where
  pub runtimes : List RuntimeImpl
  pub detection_err : Option Err

-- `detectedAt` is set exactly if a detection is kept.
pub record LocalRuntimesManager : Type 0 where
  pub detected : Option Detection

abbrev result_of : Detection → Result (List RuntimeImpl)
result_of d = elim d.detection_err [ none ↦ ok d.runtimes | some e ↦ err e ]

-- `GetRuntimes`, with what a detection would find now: it runs at the first call, and later
-- calls return what was kept. A caller that meets a detection in progress waits for it, and then
-- reads what it kept.
unfoldable pub get_runtimes :
    Detection → LocalRuntimesManager → LocalRuntimesManager × Result (List RuntimeImpl)
get_runtimes now m = elim m.detected [
  | some kept ↦ (m, result_of kept)
  | none ↦ (record { detected = some now }, result_of now)
]

unfoldable pub find_by_id : String → List RuntimeImpl → Option RuntimeImpl
find_by_id id [] = none
find_by_id id (rt ∷ rest) = if str_eq rt.runtime_id id then some rt else find_by_id id rest

-- `LocalRuntimesManager.GetRuntimeByID` behind the call of `GetRuntimes`.
unfoldable pub local_runtime_by_id :
    Result (List RuntimeImpl) → String → Result (Option RuntimeImpl)
unfolding find_by_id
local_runtime_by_id (err e) id = err e
local_runtime_by_id (ok runtimes) id = ok (find_by_id id runtimes)

-- One round of the loop of `Match`: a runtime whose test or conversion fails is skipped.
abbrev pub matching : RuntimeMatchQuery → RuntimeImpl → List Runtime
matching query rt = elim (rt.matches_query query) [
  | err e ↦ []
  | ok b ↦ if b then elim rt.proto [ err e ↦ [] | ok proto ↦ proto ∷ [] ] else []
]

unfoldable pub matching_runtimes : RuntimeMatchQuery → List RuntimeImpl → List Runtime
matching_runtimes query [] = []
matching_runtimes query (rt ∷ rest) = matching query rt ++ matching_runtimes query rest

-- `LocalRuntimesManager.Match`, of a query that is not nil.
unfoldable pub local_match : Result (List RuntimeImpl) → RuntimeMatchQuery → Result (List Runtime)
unfolding matching_runtimes
local_match (err e) query = err e
local_match (ok runtimes) query = ok (matching_runtimes query runtimes)

-- The matches that a manager's `Match` contributes: none where it fails.
abbrev pub matches_or_none : Result (List Runtime) → List Runtime
matches_or_none (ok matches) = matches
matches_or_none (err e) = []

-- `matchMap`: the local matches by ID, the last of an ID kept, then the remote ones whose ID is
-- new.
pub add_local : List (String × Runtime) → List Runtime → List (String × Runtime)
add_local found [] = found
add_local found (rt ∷ rest) = add_local (insert rt.id rt found) rest

abbrev pub add_if_new : List (String × Runtime) → Runtime → List (String × Runtime)
add_if_new found rt = elim (lookup rt.id found) [ none ↦ insert rt.id rt found | some old ↦ found ]

pub add_remote : List (String × Runtime) → List Runtime → List (String × Runtime)
add_remote found [] = found
add_remote found (rt ∷ rest) = add_remote (add_if_new found rt) rest

unfoldable pub match_map : List Runtime → List Runtime → List (String × Runtime)
unfolding add_local add_remote
match_map local remote = add_remote (add_local [] local) remote

-- The answer of `AggregatedRuntimesManager.Match`: an error only if both managers fail.
-- `order` is the order in which the map is walked, which Go leaves open.
unfoldable pub aggregated_match :
    (List Runtime → List Runtime)
    → Result (List Runtime)
    → Result (List Runtime)
    → Result (List Runtime)
unfolding match_map
aggregated_match order (err e) (err f) = err e
aggregated_match order local remote =
    ok (order (map (λ e. e.1) (match_map (matches_or_none local) (matches_or_none remote))))

-- `AggregatedRuntimesManager`, over what the local manager's `GetRuntimes` returns and the
-- `Match` of the remote manager.
unfoldable pub aggregated_manager :
    (List Runtime → List Runtime)
    → Result (List RuntimeImpl)
    → (RuntimeMatchQuery → Result (List Runtime))
    → RuntimeManager
unfolding local_runtime_by_id local_match aggregated_match
aggregated_manager order local remote_match = record {
  get_runtime_by_id = local_runtime_by_id local;
  match_runtimes = λ query. aggregated_match order (local_match local query) (remote_match query);
}
