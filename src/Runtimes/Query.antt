-- ===== src/Runtimes/Query.antt =====
-- pkg/daemon/runtime_matcher.go: whether a runtime meets a query. The names of enumerators and
-- the text of a version come from generated code, so they are the section's parameter.
pub mod Meaning
use buildozer.Common.{
  ℕ, String, Bool, true, false, not, ◌&&◌, ◌||◌, Option, none, some, List, [], ◌∷◌, ◌++◌,
  if◌then◌else◌, str_eq, lookup, is_empty_list,
}
use buildozer.Proto.Runtime.{
  Runtime, RuntimePlatform, RuntimeToolchain, CppToolchain, GoToolchain, RustToolchain,
  ToolchainSpec, cpp, go, rust, Version, CRuntime, CpuArchitecture, CppStdlib, CppCompiler,
}
use buildozer.Proto.Job.{RuntimeMatchQuery}

-- The `String` methods of the generated enumerations and of the message `Version`.
pub record Names : Type 0 where
  pub platform : RuntimePlatform → String
  pub toolchain : RuntimeToolchain → String
  pub c_runtime : CRuntime → String
  pub architecture : CpuArchitecture → String
  pub cpp_stdlib : CppStdlib → String
  pub compiler : CppCompiler → String
  pub version : Version → String

abbrev pub same_platform : RuntimePlatform → RuntimePlatform → Bool
same_platform RuntimePlatform.unspecified RuntimePlatform.unspecified = true
same_platform RuntimePlatform.native_linux RuntimePlatform.native_linux = true
same_platform RuntimePlatform.docker_linux RuntimePlatform.docker_linux = true
same_platform _ _ = false

abbrev pub same_toolchain : RuntimeToolchain → RuntimeToolchain → Bool
same_toolchain RuntimeToolchain.unspecified RuntimeToolchain.unspecified = true
same_toolchain RuntimeToolchain.c RuntimeToolchain.c = true
same_toolchain RuntimeToolchain.cpp RuntimeToolchain.cpp = true
same_toolchain RuntimeToolchain.go RuntimeToolchain.go = true
same_toolchain RuntimeToolchain.rust RuntimeToolchain.rust = true
same_toolchain _ _ = false

-- The loops over `query.Platforms` and `query.Toolchains`, and `stringInList`.
abbrev pub any_platform : RuntimePlatform → List RuntimePlatform → Bool
any_platform p [] = false
any_platform p (q ∷ qs) = same_platform p q || any_platform p qs

abbrev pub any_toolchain : RuntimeToolchain → List RuntimeToolchain → Bool
any_toolchain t [] = false
any_toolchain t (q ∷ qs) = same_toolchain t q || any_toolchain t qs

abbrev pub string_in_list : String → List String → Bool
string_in_list s [] = false
string_in_list s (item ∷ list) = str_eq s item || string_in_list s list

-- A parameter that is set only where its value is there.
abbrev version_param : (Version → String) → String → Option Version → List (String × String)
version_param show name none = []
version_param show name (some v) = (name, show v) ∷ []

abbrev has_stdlib : CppStdlib → Bool
has_stdlib CppStdlib.unspecified = false
has_stdlib _ = true

abbrev has_compiler : CppCompiler → Bool
has_compiler CppCompiler.unspecified = false
has_compiler _ = true

abbrev cpp_params : Names → CppToolchain → List (String × String)
cpp_params names t =
    ("c_runtime", names.c_runtime t.c_runtime)
      ∷ version_param names.version "c_runtime_version" t.c_runtime_version
    ++ (("architecture", names.architecture t.architecture)
        ∷ (if has_stdlib t.cpp_stdlib
            then ("cpp_stdlib", names.cpp_stdlib t.cpp_stdlib) ∷ []
            else []))
    ++ (if has_compiler t.compiler then ("compiler", names.compiler t.compiler) ∷ [] else [])
    ++ version_param names.version "compiler_version" t.compiler_version

abbrev spec_params : Names → Option ToolchainSpec → List (String × String)
spec_params names (some (cpp t)) = cpp_params names t
spec_params names (some (go t)) =
    ("goarch", t.goarch) ∷ ("goos", t.goos) ∷ version_param names.version "go_version" t.go_version
spec_params names (some (rust t)) =
    ("target_triple", t.target_triple)
    ∷ ("edition", t.edition)
    ∷ version_param names.version "rust_version" t.rust_version
spec_params names none = []

unfoldable pub extract_runtime_parameters : Names → Runtime → List (String × String)
extract_runtime_parameters names rt =
    ("platform", names.platform rt.platform)
    ∷ ("toolchain", names.toolchain rt.toolchain)
    ∷ spec_params names rt.toolchain_spec

-- One round of the loop over the query's parameters.
unfoldable pub parameter_matches : List (String × String) → String × Option (List String) → Bool
unfolding lookup
parameter_matches params (name, none) = true
parameter_matches params (name, some []) = true
parameter_matches params (name, some (v ∷ values)) = elim (lookup name params) [
  | none ↦ false
  | some value ↦ string_in_list value (v ∷ values)
]

unfoldable pub parameters_match :
    List (String × String) → List (String × Option (List String)) → Bool
unfolding parameter_matches
parameters_match params [] = true
parameters_match params (constraint ∷ rest) =
    parameter_matches params constraint && parameters_match params rest

unfoldable pub runtime_matches_query : Names → Runtime → RuntimeMatchQuery → Bool
unfolding extract_runtime_parameters parameters_match
runtime_matches_query names rt query =
    if not (is_empty_list query.platforms) && not (any_platform rt.platform query.platforms)
    then false
    else if not (is_empty_list query.toolchains)
        && not (any_toolchain rt.toolchain query.toolchains)
    then false
    else if not (is_empty_list query.params)
        && not (parameters_match (extract_runtime_parameters names rt) query.params)
    then false
    else true

-- `Match` behind the call of `ListRuntimes`, for a query that is not nil.
unfoldable pub match_query : Names → RuntimeMatchQuery → List Runtime → List Runtime
unfolding runtime_matches_query
match_query names query [] = []
match_query names query (rt ∷ rest) =
    let matches = match_query names query rest in
    if runtime_matches_query names rt query then rt ∷ matches else matches
