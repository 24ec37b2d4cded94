-- ===== src/Drivers/Ar/Archive.antt =====
-- pkg/drivers/cpp/ar_common/job.go: the archive job that asks for any runtime with the ABI of a
-- resolved one (CreateArchiveJobWithRuntimeABI, of arguments that are not nil). The names of the
-- enumerators and the texts of versions are those of the driver's binary, which need not be those
-- of the daemon's, `filepath.Rel` and the fresh ID are arguments.
use buildozer.Common.{String, Option, none, some, List, [], ◌∷◌, if◌then◌else◌, Text, str_eq}
use buildozer.Proto.Runtime.{Runtime, RuntimeToolchain, cpp, CppToolchain}
use buildozer.Proto.Job.{Job, cpp_archive, RuntimeMatchQuery, runtime_match_query}
use buildozer.Errors.{text, Result, ok, err}
use buildozer.Drivers.Ar.{ParsedArgs}
use buildozer.Drivers.Gcc.CppJob.{normalize_path, normalize_paths}
use buildozer.Runtimes.Query.{Names}

-- The C runtime, its version and the architecture, as names.
pub record Abi : Type 0 where
  pub c_runtime : String
  pub c_runtime_version : String
  pub architecture : String

unfoldable pub abi_of : Names → CppToolchain → Result Abi
abi_of names t =
    if str_eq (names.c_runtime t.c_runtime) "C_RUNTIME_UNSPECIFIED"
    then err (text "runtime c_runtime is unspecified")
    else elim t.c_runtime_version [
      | none ↦ err (text "runtime c_runtime_version is nil")
      | some v ↦
          if str_eq (names.architecture t.architecture) "CPU_ARCHITECTURE_UNSPECIFIED"
          then err (text "runtime architecture is unspecified")
          else ok (record {
            c_runtime = names.c_runtime t.c_runtime;
            c_runtime_version = names.version v;
            architecture = names.architecture t.architecture;
          })
    ]

abbrev pub archive_toolchains : List RuntimeToolchain
archive_toolchains = RuntimeToolchain.c ∷ RuntimeToolchain.cpp ∷ []

abbrev pub abi_query : Abi → RuntimeMatchQuery
abi_query abi = record {
  platforms = [];
  toolchains = archive_toolchains;
  params =
      ("c_runtime", some (abi.c_runtime ∷ []))
      ∷ ("c_runtime_version", some (abi.c_runtime_version ∷ []))
      ∷ ("architecture", some (abi.architecture ∷ []))
      ∷ ("cpp_stdlib", some [])
      ∷ [];
}

abbrev pub archive_job : (Text → Text → Option Text) → String → ParsedArgs → Abi → Text → Job
archive_job rel id p abi work_dir = record {
  id = id;
  runtime_requirement = runtime_match_query (some (abi_query abi));
  input_data_ids = [];
  job_spec = some (
      cpp_archive (record {
        input_files = normalize_paths rel p.input_files work_dir;
        ar_flags = p.flags;
        output_file = normalize_path rel p.output_file work_dir;
      }));
  content_hash = none;
  source_client_id = "";
  dependency_ids = [];
  inputs = [];
  outputs = [];
  cwd = work_dir;
}

unfoldable pub create_archive_job :
    Names → (Text → Text → Option Text) → String → ParsedArgs → Runtime → Text → Result Job
unfolding abi_of
create_archive_job names rel id p rt work_dir = elim rt.toolchain_spec [
  | some (cpp t) ↦ elim (abi_of names t) [
    | err e ↦ err e
    | ok abi ↦ ok (archive_job rel id p abi work_dir)
  ]
  | _ ↦ err (text "runtime toolchain spec is not CppToolchain or is nil")
]
