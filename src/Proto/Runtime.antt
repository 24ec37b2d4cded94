-- ===== src/Proto/Runtime.antt =====
-- The runtime messages of buildozer/proto/v1/runtime.proto.
-- A message pointer that may be nil is an `Option`.
use buildozer.Common.{ℕ, String, List, Option}

pub data RuntimePlatform : Type 0 where
  unspecified native_linux docker_linux : RuntimePlatform

pub data RuntimeToolchain : Type 0 where
  unspecified c cpp go rust : RuntimeToolchain

pub data CppLanguage : Type 0 where
  unspecified c cpp : CppLanguage

pub data CppCompiler : Type 0 where
  unspecified gcc clang : CppCompiler

pub data CpuArchitecture : Type 0 where
  unspecified x86_64 aarch64 arm : CpuArchitecture

pub data CRuntime : Type 0 where
  unspecified glibc musl : CRuntime

pub data CppStdlib : Type 0 where
  unspecified libstdcxx libcxx : CppStdlib

-- uint32 fields; `minor` and `patch` are optional.
pub record Version : Type 0 where
  pub major : ℕ
  pub minor : Option ℕ
  pub patch : Option ℕ

pub record CppToolchain : Type 0 where
  pub language : CppLanguage
  pub compiler : CppCompiler
  pub compiler_version : Option Version
  pub architecture : CpuArchitecture
  pub c_runtime : CRuntime
  pub c_runtime_version : Option Version
  pub cpp_stdlib : CppStdlib

pub record GoToolchain : Type 0 where
  pub go_version : Option Version
  pub goos : String
  pub goarch : String

pub record RustToolchain : Type 0 where
  pub rust_version : Option Version
  pub target_triple : String
  pub edition : String

-- `oneof toolchain_spec`
pub data ToolchainSpec : Type 0 where
  cpp : CppToolchain → ToolchainSpec
  go : GoToolchain → ToolchainSpec
  rust : RustToolchain → ToolchainSpec

pub record Runtime : Type 0 where
  pub id : String
  pub platform : RuntimePlatform
  pub toolchain : RuntimeToolchain
  pub toolchain_spec : Option ToolchainSpec
  pub peer_ids : List String
