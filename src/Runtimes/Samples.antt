-- ===== src/Runtimes/Samples.antt =====
-- A small set of runtimes, on which the theorems about them are applied.
use buildozer.Common.{String, true, none, some, List, [], ◌∷◌, ◌≡◌, ◌↔◌}
use buildozer.Proto.Runtime.{
  Runtime, RuntimePlatform, RuntimeToolchain, CRuntime, CpuArchitecture, CppStdlib, CppCompiler,
  CppLanguage, cpp,
}
use buildozer.Proto.Job.{RuntimeMatchQuery}
use buildozer.Errors.{ok}
use buildozer.Runtimes.{RuntimeImpl, match_map}
use buildozer.Common.{lookup}
use buildozer.Runtimes.Aggregate.{or_else, first_with_id, last_with_id, lookup-match_map}
use buildozer.Runtimes.Query.{Names, runtime_matches_query}
use buildozer.Runtimes.Query.Meaning.{Meets, runtime_matches_query_iff}

abbrev gcc : Runtime
gcc = record {
  id = "gcc";
  platform = RuntimePlatform.native_linux;
  toolchain = RuntimeToolchain.c;
  toolchain_spec = some (
      cpp (record {
        language = CppLanguage.c;
        compiler = CppCompiler.gcc;
        compiler_version = none;
        architecture = CpuArchitecture.x86_64;
        c_runtime = CRuntime.glibc;
        c_runtime_version = none;
        cpp_stdlib = CppStdlib.unspecified;
      }));
  peer_ids = [];
}

abbrev impl : String → RuntimeImpl
impl id = record {
  runtime_id = id;
  proto = ok (record gcc { id = id });
  matches_query = λ q. ok true;
}

abbrev impls : List RuntimeImpl
impls = impl "gcc" ∷ impl "clang" ∷ impl "clang" ∷ []

abbrev names : Names
names = record {
  platform = λ p. "platform";
  toolchain = λ t. "toolchain";
  c_runtime = λ c. "C_RUNTIME_GLIBC";
  architecture = λ a. "CPU_ARCHITECTURE_X86_64";
  cpp_stdlib = λ l. "CPP_STDLIB_LIBSTDCXX";
  compiler = λ c. "CPP_COMPILER_GCC";
  version = λ v. "major:2";
}

abbrev query : RuntimeMatchQuery
query = record {
  platforms = RuntimePlatform.native_linux ∷ [];
  toolchains = RuntimeToolchain.cpp ∷ RuntimeToolchain.c ∷ [];
  params = ("c_runtime", some ("C_RUNTIME_GLIBC" ∷ [])) ∷ ("cpp_stdlib", some []) ∷ [];
}

runtime_matches_query_iff_example :
    (runtime_matches_query names gcc query ≡ true) ↔ Meets names query gcc
runtime_matches_query_iff_example = runtime_matches_query_iff names gcc query

abbrev clang : Runtime
clang = record gcc { id = "clang" }

lookup-match_map_example :
    lookup "clang" (match_map (gcc ∷ []) (gcc ∷ clang ∷ []))
    ≡ or_else (last_with_id "clang" (gcc ∷ [])) (first_with_id "clang" (gcc ∷ clang ∷ []))
lookup-match_map_example = lookup-match_map "clang" (gcc ∷ []) (gcc ∷ clang ∷ [])
