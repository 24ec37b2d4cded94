-- ===== src/RuntimeId/Samples.antt =====
-- A runtime of C++ and its ID, on which the theorems are applied.
use buildozer.Common.{none, some, [], ◌≡◌, refl, arith, String, join, format_uint}
use buildozer.Proto.Runtime.{
  Runtime, RuntimePlatform, RuntimeToolchain, CppLanguage, CppCompiler, CpuArchitecture, CRuntime,
  CppStdlib, Version, CppToolchain, cpp,
}
use buildozer.Errors.{ok}
use buildozer.RuntimeId.Names.{version_to_string}
use buildozer.RuntimeId.Versions.{IsVersion, with_minor, with_patch}
use buildozer.RuntimeId.Parse.{parse_runtime_id, runtime_to_id}
use buildozer.RuntimeId.Parts.{IsNamed}
use buildozer.RuntimeId.RoundTrip.{parse_runtime_id-runtime_to_id}

abbrev gcc_version : Version
gcc_version = record { major = 10; minor = some 2; patch = some 1 }

abbrev glibc_version : Version
glibc_version = record { major = 2; minor = some 31; patch = none }

abbrev gxx : CppToolchain
gxx = record {
  language = CppLanguage.cpp;
  compiler = CppCompiler.gcc;
  compiler_version = some gcc_version;
  architecture = CpuArchitecture.x86_64;
  c_runtime = CRuntime.glibc;
  c_runtime_version = some glibc_version;
  cpp_stdlib = CppStdlib.libstdcxx;
}

gcc_version-IsVersion : IsVersion gcc_version
gcc_version-IsVersion = with_patch 10 2 1 (omega arith) (omega arith) (omega arith)

gxx-IsNamed : IsNamed gxx
gxx-IsNamed = record {
  compiler = refl;
  architecture = refl;
  c_runtime = refl;
  library = refl;
  version = gcc_version;
  has_version = refl;
  version_fine = gcc_version-IsVersion;
  c_version = glibc_version;
  has_c_version = refl;
  c_version_fine = with_minor 2 31 (omega arith) (omega arith);
}

abbrev on : RuntimePlatform → Runtime
on platform = record {
  id = "";
  platform = platform;
  toolchain = RuntimeToolchain.cpp;
  toolchain_spec = some (cpp gxx);
  peer_ids = [];
}

abbrev native_id : String
native_id = "native_linux-cpp-gcc-10.2.1-glibc-2.31-libstdc++-x86_64"

parse_runtime_id-runtime_to_id_example :
    parse_runtime_id native_id
    ≡ ok (record (on RuntimePlatform.native_linux) {
      id = native_id;
      toolchain = RuntimeToolchain.c;
      peer_ids = [];
    })
unfolding runtime_to_id version_to_string format_uint join
parse_runtime_id-runtime_to_id_example =
    parse_runtime_id-runtime_to_id (on RuntimePlatform.native_linux) gxx native_id refl refl
      gxx-IsNamed refl
