-- ===== src/Runtimes/Query/Meaning.antt =====
-- What a runtime query asks for.
use buildozer.Common.{
  String, true, Option, none, some, List, [], ◌∷◌, lookup, ◌≡◌, ◌⊎◌, ◌↔◌, refl, arith, All,
  str_eq_iff, inl, inr, Option-cases,
}
use buildozer.Proto.Runtime.{Runtime, RuntimePlatform, RuntimeToolchain}
use buildozer.Proto.Job.{RuntimeMatchQuery}
use buildozer.Runtimes.Query.{
  Names, same_platform, same_toolchain, any_platform, any_toolchain, string_in_list,
  extract_runtime_parameters, parameter_matches, parameters_match, runtime_matches_query,
}

-- `x` is an element of the list.
abbrev In : {A : Type 0} → A → List A → Type 0
In x [] = ⊥
In x (y ∷ ys) = (x ≡ y) ⊎ In x ys

-- A constraint on a value: an empty list allows every value.
abbrev Allows : {A : Type 0} → List A → A → Type 0
Allows qs x = (qs ≡ []) ⊎ In x qs

-- A constraint on a parameter: where it lists values, the runtime has the parameter, with one
-- of them.
abbrev Satisfies : List (String × String) → String × Option (List String) → Type 0
Satisfies params (name, none) = Unit
Satisfies params (name, some values) =
    (values ≡ []) ⊎ ((value : String) × (lookup name params ≡ some value) × In value values)

-- What a query asks of a runtime.
abbrev pub Meets : Names → RuntimeMatchQuery → Runtime → Type 0
Meets names query rt =
    Allows query.platforms rt.platform
    × Allows query.toolchains rt.toolchain
    × All (Satisfies (extract_runtime_parameters names rt)) query.params

same_platform_iff : (p q : RuntimePlatform) → (same_platform p q ≡ true) ↔ (p ≡ q)
same_platform_iff p q = ground arith

same_toolchain_iff : (p q : RuntimeToolchain) → (same_toolchain p q ≡ true) ↔ (p ≡ q)
same_toolchain_iff p q = ground arith

any_platform_iff :
    (p : RuntimePlatform) (qs : List RuntimePlatform) → (any_platform p qs ≡ true) ↔ In p qs
any_platform_iff p [] = ground arith
any_platform_iff p (q ∷ qs) = ground (arith, same_platform_iff p q, any_platform_iff p qs)

any_toolchain_iff :
    (t : RuntimeToolchain) (qs : List RuntimeToolchain) → (any_toolchain t qs ≡ true) ↔ In t qs
any_toolchain_iff t [] = ground arith
any_toolchain_iff t (q ∷ qs) = ground (arith, same_toolchain_iff t q, any_toolchain_iff t qs)

string_in_list_iff : (s : String) (list : List String) → (string_in_list s list ≡ true) ↔ In s list
string_in_list_iff s [] = ground arith
string_in_list_iff s (t ∷ list) = ground (arith, str_eq_iff s t, string_in_list_iff s list)

parameter_matches_iff :
    (params : List (String × String)) (c : String × Option (List String))
    → (parameter_matches params c ≡ true) ↔ Satisfies params c
unfolding parameter_matches
parameter_matches_iff params (name, none) = ground arith
parameter_matches_iff params (name, some []) = (λ h. inl refl, λ h. refl)
parameter_matches_iff params (name, some (v ∷ values)) = elim (Option-cases (lookup name params)) [
  | inl missing ↦ (
    λ h. absurd (ground (arith, h, missing)),
    λ s. elim s [
      | inl e ↦ absurd (ground (arith, e))
      | inr (x, e, i) ↦ absurd (ground (arith, e, missing))
    ],
  )
  | inr (value, found) ↦ (
    λ h. inr (value, found, (string_in_list_iff value (v ∷ values)).0 (ground (arith, h, found))),
    λ s. elim s [
      | inl e ↦ absurd (ground (arith, e))
      | inr (x, e, i) ↦
          let listed = (string_in_list_iff x (v ∷ values)).1 i in ground (arith, e, found, listed)
    ],
  )
]

parameters_match_iff :
    (params : List (String × String)) (cs : List (String × Option (List String)))
    → (parameters_match params cs ≡ true) ↔ All (Satisfies params) cs
unfolding parameters_match
parameters_match_iff params [] = ground arith
parameters_match_iff params (c ∷ cs) =
    ground (arith, parameter_matches_iff params c, parameters_match_iff params cs)

-- A runtime matches a query exactly if it meets the three constraints: its platform and its
-- toolchain are listed, where the query lists any, and each parameter with listed values is one
-- that the runtime has, with one of these values.
pub runtime_matches_query_iff :
    (names : Names) (rt : Runtime) (query : RuntimeMatchQuery)
    → (runtime_matches_query names rt query ≡ true) ↔ Meets names query rt
unfolding runtime_matches_query
runtime_matches_query_iff names rt query =
    let params = extract_runtime_parameters names rt in
    ground (
      arith,
      any_platform_iff rt.platform query.platforms,
      any_toolchain_iff rt.toolchain query.toolchains,
      parameters_match_iff params query.params,
    )
