-- ===== src/Proto/Job.antt =====
-- The job messages of buildozer/proto/v1/job.proto, with the query of runtime.proto.
use buildozer.Common.{ℕ, ℤ, String, List, Option, Bool, Text}
use buildozer.Proto.Runtime.{Runtime, RuntimePlatform, RuntimeToolchain}

-- `map<string, StringArray> params` is an association list; a nil array is `none`.
pub record RuntimeMatchQuery : Type 0 where
  pub platforms : List RuntimePlatform
  pub toolchains : List RuntimeToolchain
  pub params : List (String × Option (List String))

-- `oneof runtime_requirement`. The pointer inside a case may be nil.
pub data RuntimeRequirement : Type 0 where
  runtime : Option Runtime → RuntimeRequirement
  runtime_match_query : Option RuntimeMatchQuery → RuntimeRequirement
  unset : RuntimeRequirement

-- The data's identity, its file's path, and the file's content where it is embedded.
pub record JobData : Type 0 where
  pub id : Text
  pub path : Text
  pub content : Option (List ℕ)

pub record CppCompileJob : Type 0 where
  pub source_files : List Text
  pub compiler_args : List Text
  pub include_dirs : List Text
  pub defines : List Text
  pub output_file : Text

pub record CppLinkJob : Type 0 where
  pub object_files : List Text
  pub libraries : List Text
  pub library_files : List Text
  pub library_dirs : List Text
  pub linker_args : List Text
  pub output_file : Text
  pub is_shared_library : Bool

pub record CppArchiveJob : Type 0 where
  pub input_files : List Text
  pub ar_flags : List Text
  pub output_file : Text

-- `oneof job_spec`
pub data JobSpec : Type 0 where
  cpp_compile : CppCompileJob → JobSpec
  cpp_link : CppLinkJob → JobSpec
  cpp_archive : CppArchiveJob → JobSpec

pub record Job : Type 0 where
  pub id : String
  pub runtime_requirement : RuntimeRequirement
  pub input_data_ids : List Text
  pub job_spec : Option JobSpec
  pub content_hash : Option Text
  pub source_client_id : String
  pub dependency_ids : List String
  pub inputs : List JobData
  pub outputs : List JobData
  pub cwd : Text

-- `JobProgress.JobStatus`
pub data JobStatus : Type 0 where
  unspecified received ready scheduled input_transfer running completed output_transfer failed
        cancelled queued :
      JobStatus

-- `JobResult.JobStatus`
pub data ResultStatus : Type 0 where
  unspecified completed failed cancelled : ResultStatus

-- `exit_code` is an int32.
pub record JobResult : Type 0 where
  pub job_id : String
  pub status : ResultStatus
  pub exit_code : ℤ
  pub error_message : String
  pub executing_peer_id : String
  pub outputs : List JobData

pub record JobProgress : Type 0 where
  pub job_id : String
  pub status : JobStatus
  pub updated_at : ℕ
  pub log_output : String
  pub result : Option JobResult
