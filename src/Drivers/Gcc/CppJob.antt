-- ===== src/Drivers/Gcc/CppJob.antt =====
-- pkg/drivers/cpp/gcc_common/job.go: the job that a command line leads to. What the function
-- calls is an argument: `filepath.Rel`, the fresh ID, and the stager that reads the inputs.
use buildozer.Common.{
  Bool, true, false, Option, none, some, String, List, [], ◌∷◌, ◌++◌, if◌then◌else◌, map, Text,
  codes, has_prefix,
}
use buildozer.Proto.Runtime.{Runtime}
use buildozer.Proto.Job.{
  Job, JobData, JobSpec, cpp_compile, cpp_link, CppCompileJob, CppLinkJob, runtime,
}
use buildozer.Errors.{Result, ok, err}
use buildozer.Drivers.Gcc.{CompileMode, mode_link, ParsedArgs}

abbrev pub is_link : CompileMode → Bool
is_link mode_link = true
is_link _ = false

abbrev pub is_empty_text : Text → Bool
is_empty_text [] = true
is_empty_text (c ∷ s) = false

module _ (rel : Text → Text → Option Text) where
  -- A relative path stays; an absolute one is made relative to the working directory where
  -- `filepath.Rel` can.
  unfoldable pub normalize_path : Text → Text → Text
  unfolding has_prefix
  normalize_path path work_dir =
      if has_prefix path (codes "/")
      then (if is_empty_text work_dir
          then path
          else elim (rel work_dir path) [ none ↦ path | some short ↦ short ])
      else path

  unfoldable pub normalize_paths : List Text → Text → List Text
  normalize_paths paths work_dir = map (λ path. normalize_path path work_dir) paths

  unfoldable pub create_cpp_compile_job : ParsedArgs → Text → CppCompileJob
  unfolding normalize_paths normalize_path
  create_cpp_compile_job p work_dir = record {
    source_files = normalize_paths p.source_files work_dir;
    compiler_args = p.compiler_flags;
    include_dirs = normalize_paths p.include_dirs work_dir;
    defines = p.defines;
    output_file = normalize_path p.output_file work_dir;
  }

  unfoldable pub create_cpp_link_job : ParsedArgs → Text → CppLinkJob
  unfolding normalize_paths normalize_path
  create_cpp_link_job p work_dir = record {
    object_files = normalize_paths p.object_files work_dir;
    libraries = p.libraries;
    library_files = normalize_paths p.library_files work_dir;
    library_dirs = normalize_paths p.library_dirs work_dir;
    linker_args = p.linker_flags;
    output_file = normalize_path p.output_file work_dir;
    is_shared_library = p.is_shared_library;
  }

  -- `inputDataIDs`
  unfoldable pub input_data_ids : ParsedArgs → Text → List Text
  unfolding normalize_paths
  input_data_ids p work_dir =
      if is_link p.mode
      then normalize_paths p.source_files work_dir
        ++ (normalize_paths p.object_files work_dir ++ normalize_paths p.library_files work_dir)
      else normalize_paths p.source_files work_dir

  unfoldable pub job_spec : ParsedArgs → Text → JobSpec
  unfolding create_cpp_compile_job create_cpp_link_job
  job_spec p work_dir =
      if is_link p.mode
      then cpp_link (create_cpp_link_job p work_dir)
      else cpp_compile (create_cpp_compile_job p work_dir)

  -- `createJob`
  unfoldable pub create_cpp_job :
      (List Text → Result (List JobData)) → String → ParsedArgs → Runtime → Text → Result Job
  unfolding input_data_ids job_spec
  create_cpp_job stage id p rt work_dir = elim (stage (input_data_ids p work_dir)) [
    | err e ↦ err e
    | ok inputs ↦ ok (record {
      id = id;
      runtime_requirement = runtime (some rt);
      input_data_ids = [];
      job_spec = some (job_spec p work_dir);
      content_hash = none;
      source_client_id = "";
      dependency_ids = [];
      inputs = inputs;
      outputs =
          record {
            id = normalize_path p.output_file work_dir;
            path = normalize_path p.output_file work_dir;
            content = none;
          }
          ∷ [];
      cwd = work_dir;
    })
  ]
