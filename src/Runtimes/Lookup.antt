-- ===== src/Runtimes/Lookup.antt =====
-- What the local manager answers for an ID, and what the aggregated `Match` answers.
use buildozer.Common.{
  String, none, some, List, [], ◌∷◌, ◌++◌, ◌≡◌, refl, ◌⊎◌, inl, inr, Bool-cases, str_eq, str_eq_iff,
  arith, ap, All, ◌≢◌,
}
use buildozer.Runtimes.{RuntimeImpl, Detection, LocalRuntimesManager, get_runtimes, find_by_id}

-- `rt` is the first of the runtimes with the ID.
pub record IsFirstWithId (id : String) (runtimes : List RuntimeImpl) (rt : RuntimeImpl)
    : Type 0 where
  pub before : List RuntimeImpl
  pub after : List RuntimeImpl
  pub whole : runtimes ≡ before ++ rt ∷ after
  pub has_id : rt.runtime_id ≡ id
  pub none_before : All (λ r. r.runtime_id ≢ id) before

IsFirstWithId-cons :
    (id : String) (r rt : RuntimeImpl) (rest : List RuntimeImpl)
    → r.runtime_id ≢ id
    → IsFirstWithId id rest rt
    → IsFirstWithId id (r ∷ rest) rt
IsFirstWithId-cons id r rt rest other f = record {
  before = r ∷ f.before;
  after = f.after;
  whole = ap (λ l. r ∷ l) f.whole;
  has_id = f.has_id;
  none_before = (other, f.none_before);
}

-- The lookup by ID finds the first runtime with the ID, and finds none only if no runtime has it.
pub find_by_id_lem :
    (id : String) (runtimes : List RuntimeImpl)
    → ((rt : RuntimeImpl) × (find_by_id id runtimes ≡ some rt) × IsFirstWithId id runtimes rt)
      ⊎ (find_by_id id runtimes ≡ none) × All (λ r. r.runtime_id ≢ id) runtimes
unfolding find_by_id
find_by_id_lem id [] = inr (refl, tt)
find_by_id_lem id (r ∷ rest) = elim (Bool-cases (str_eq r.runtime_id id)) [
  | inl same ↦ inl (
    r,
    rw same,
    record {
      before = [];
      after = rest;
      whole = refl;
      has_id = (str_eq_iff r.runtime_id id).0 same;
      none_before = tt;
    },
  )
  | inr other ↦
      let differs : r.runtime_id ≢ id = ground (arith, str_eq_iff r.runtime_id id) in
      elim (find_by_id_lem id rest) [
        | inl (rt, e, f) ↦ inl (rt, rw other e, IsFirstWithId-cons id r rt rest differs f)
        | inr (e, nowhere) ↦ inr (rw other e, (differs, nowhere))
      ]
]

-- Once a detection is kept, no later call runs one: every call returns what was kept, and the
-- manager stays as it is. Before that, the first call keeps what it detects.
pub get_runtimes_once :
    (now later : Detection) (m : LocalRuntimesManager)
    → get_runtimes later (get_runtimes now m).0 ≡ get_runtimes now m
unfolding get_runtimes
get_runtimes_once now later m = ground arith
