-- ===== src/Runtimes/Aggregate.antt =====
-- Which runtimes the aggregated `Match` collects.
use buildozer.Common.{
  String, Option, none, some, List, [], ◌∷◌, ◌≡◌, refl, arith, ◌∙◌, if◌then◌else◌, inl, inr, str_eq,
  str_eq_iff, lookup, insert, lookup-insert, Option-cases, Table,
}
use buildozer.Proto.Runtime.{Runtime}
use buildozer.Runtimes.{add_local, add_if_new, add_remote, match_map}

-- The first choice, where there is one.
abbrev pub or_else {ℓ} : {A : Type ℓ} → Option A → Option A → Option A
or_else (some a) other = some a
or_else none other = other

abbrev pub first_with_id : String → List Runtime → Option Runtime
first_with_id id [] = none
first_with_id id (rt ∷ rest) = if str_eq rt.id id then some rt else first_with_id id rest

abbrev pub last_with_id : String → List Runtime → Option Runtime
last_with_id id [] = none
last_with_id id (rt ∷ rest) =
    or_else (last_with_id id rest) (if str_eq rt.id id then some rt else none)

lookup-add_local :
    (id : String) (found : Table Runtime) (runtimes : List Runtime)
    → lookup id (add_local found runtimes) ≡ or_else (last_with_id id runtimes) (lookup id found)
unfolding add_local
lookup-add_local id found [] = refl
lookup-add_local id found (rt ∷ rest) =
    lookup-add_local id (insert rt.id rt found) rest
    ∙ ground (arith, lookup-insert rt.id id rt found)

lookup-add_if_new :
    (id : String) (found : Table Runtime) (rt : Runtime)
    → lookup id (add_if_new found rt)
      ≡ or_else (lookup id found) (if str_eq rt.id id then some rt else none)
lookup-add_if_new id found rt = elim (Option-cases (lookup rt.id found)) [
  | inl new ↦ ground (arith, lookup-insert rt.id id rt found, str_eq_iff rt.id id, new)
  | inr (old, known) ↦ ground (arith, str_eq_iff rt.id id, known)
]

lookup-add_remote :
    (id : String) (found : Table Runtime) (runtimes : List Runtime)
    → lookup id (add_remote found runtimes) ≡ or_else (lookup id found) (first_with_id id runtimes)
unfolding add_remote
lookup-add_remote id found [] = ground arith
lookup-add_remote id found (rt ∷ rest) =
    lookup-add_remote id (add_if_new found rt) rest ∙ ground (arith, lookup-add_if_new id found rt)

-- Under each ID the aggregated matches hold the last local match with this ID, or, where no
-- local match has it, the first remote one, or nothing where neither has it.
pub lookup-match_map :
    (id : String) (local remote : List Runtime)
    → lookup id (match_map local remote) ≡ or_else (last_with_id id local) (first_with_id id remote)
unfolding match_map lookup
lookup-match_map id local remote =
    lookup-add_remote id (add_local [] local) remote ∙ ground (arith, lookup-add_local id [] local)
