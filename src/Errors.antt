-- ===== src/Errors.antt =====
-- Errors of pkg/scheduler/errors.go and pkg/scheduler/heuristics/errors.go, and the ways in
-- which a Go call ends.
use buildozer.Common.{String, Bool, true, false, ◌≡◌, refl, ◌⊎◌, inl, inr}

-- The package-level error values. Two packages declare a value of the same name; the
-- heuristics' ones carry the package's name.
pub data Sentinel : Type 0 where
  nil_job no_compatible_runtimes all_runtimes_busy job_data_embedding_failed : Sentinel
  heuristics_nil_scheduling_context heuristics_nil_job heuristics_nil_runtime : Sentinel
  heuristics_nil_runtime_manager heuristics_nil_runtime_match_query : Sentinel
  heuristics_no_runtime_requirement heuristics_no_matching_runtimes : Sentinel

-- `text` is a `fmt.Errorf` with no `%w`, and `wrapped` one with it.
pub data Err : Type 0 where
  sentinel : Sentinel → Err
  text : String → Err
  wrapped : String → Err → Err

abbrev pub is_busy_sentinel : Sentinel → Bool
is_busy_sentinel Sentinel.all_runtimes_busy = true
is_busy_sentinel _ = false

abbrev pub is_no_matching_sentinel : Sentinel → Bool
is_no_matching_sentinel Sentinel.heuristics_no_matching_runtimes = true
is_no_matching_sentinel _ = false

-- `err == ErrAllRuntimesBusy`
abbrev pub eq_busy : Err → Bool
eq_busy (sentinel s) = is_busy_sentinel s
eq_busy (text t) = false
eq_busy (wrapped t e) = false

-- `errors.Is(err, ErrAllRuntimesBusy)`: looks through what is wrapped.
abbrev pub is_busy : Err → Bool
is_busy (sentinel s) = is_busy_sentinel s
is_busy (text t) = false
is_busy (wrapped t e) = is_busy e

-- `errors.Is(err, heuristics.ErrNoMatchingRuntimes)`
abbrev pub is_no_matching : Err → Bool
is_no_matching (sentinel s) = is_no_matching_sentinel s
is_no_matching (text t) = false
is_no_matching (wrapped t e) = is_no_matching e

-- A Go pair `(value, error)` of which one part counts.
pub data Result {ℓ} (A : Type ℓ) : Type ℓ where
  ok : A → Result A
  err : Err → Result A

-- A call returns, or it dereferences a nil pointer.
pub data Outcome {ℓ} (A : Type ℓ) : Type ℓ where
  done : A → Outcome A
  panic : Outcome A

infixl 5 ◌>>=◌
abbrev pub ◌>>=◌ {ℓ κ} : {A : Type ℓ} {B : Type κ} → Outcome A → (A → Outcome B) → Outcome B
done a >>= f = f a
panic >>= f = panic

-- To split on a computed result and keep the equation.
pub Result-cases {ℓ} :
    {A : Type ℓ} (r : Result A) → ((a : A) × (r ≡ ok a)) ⊎ ((e : Err) × (r ≡ err e))
Result-cases (ok a) = inl (a, refl)
Result-cases (err e) = inr (e, refl)

pub Outcome-cases {ℓ} : {A : Type ℓ} (r : Outcome A) → ((a : A) × (r ≡ done a)) ⊎ (r ≡ panic)
Outcome-cases (done a) = inl (a, refl)
Outcome-cases panic = inr refl
