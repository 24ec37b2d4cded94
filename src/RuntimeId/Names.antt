-- ===== src/RuntimeId/Names.antt =====
-- pkg/runtime/proto.go: the names of the parts of an ID, and versions.
use buildozer.Common.{
  ℕ, Bool, true, false, ◌||◌, Option, none, some, List, [], ◌∷◌, ◌++◌, if◌then◌else◌, Text, codes,
  text_eq, format_uint, parse_uint32, split,
}
use buildozer.Proto.Runtime.{
  CppLanguage, CppCompiler, CpuArchitecture, CRuntime, CppStdlib, Version,
}
use buildozer.Errors.{text, Result, ok, err}

-- The package's own enumerations.
pub data IdPlatform : Type 0 where
  native_linux docker_linux : IdPlatform

pub data IdToolchain : Type 0 where
  c cpp : IdToolchain

unfoldable pub parse_runtime_platform : Text → Result IdPlatform
unfolding text_eq
parse_runtime_platform s =
    if text_eq s (codes "native_linux")
    then ok IdPlatform.native_linux
    else if text_eq s (codes "docker_linux")
    then ok IdPlatform.docker_linux
    else err (text "unknown runtime platform: %q")

unfoldable pub parse_runtime_toolchain : Text → Result IdToolchain
unfolding text_eq
parse_runtime_toolchain s =
    if text_eq s (codes "c")
    then ok IdToolchain.c
    else if text_eq s (codes "cpp")
    then ok IdToolchain.cpp
    else err (text "unknown runtime toolchain: %q")

unfoldable pub parse_compiler : Text → CppCompiler
unfolding text_eq
parse_compiler s =
    if text_eq s (codes "gcc")
    then CppCompiler.gcc
    else if text_eq s (codes "clang")
    then CppCompiler.clang
    else CppCompiler.unspecified

unfoldable pub parse_architecture : Text → CpuArchitecture
unfolding text_eq
parse_architecture s =
    if text_eq s (codes "x86_64")
    then CpuArchitecture.x86_64
    else if text_eq s (codes "aarch64")
    then CpuArchitecture.aarch64
    else if text_eq s (codes "arm")
    then CpuArchitecture.arm
    else CpuArchitecture.unspecified

unfoldable pub parse_c_runtime : Text → CRuntime
unfolding text_eq
parse_c_runtime s =
    if text_eq s (codes "glibc")
    then CRuntime.glibc
    else if text_eq s (codes "musl")
    then CRuntime.musl
    else CRuntime.unspecified

unfoldable pub parse_stdlib : Text → CppStdlib
unfolding text_eq
parse_stdlib s =
    if text_eq s (codes "libstdc++")
    then CppStdlib.libstdcxx
    else if text_eq s (codes "libc++")
    then CppStdlib.libcxx
    else CppStdlib.unspecified

-- A part that is no number of 32 bits leaves the field as it was.
abbrev pub major_of : List Text → ℕ
major_of [] = 0
major_of (part ∷ parts) = elim (parse_uint32 part) [ none ↦ 0 | some n ↦ n ]

abbrev pub second : List Text → Option ℕ
second (major ∷ part ∷ parts) = parse_uint32 part
second _ = none

abbrev pub third : List Text → Option ℕ
third (major ∷ minor ∷ part ∷ parts) = parse_uint32 part
third _ = none

unfoldable pub parse_version : Text → Version
unfolding text_eq
parse_version s =
    if text_eq s [] || text_eq s (codes "unknown")
    then record { major = 0; minor = none; patch = none }
    else let parts = split b'.' s in
      record { major = major_of parts; minor = second parts; patch = third parts }

abbrev pub language_to_string : CppLanguage → Text
language_to_string CppLanguage.c = codes "c"
language_to_string CppLanguage.cpp = codes "cpp"
language_to_string CppLanguage.unspecified = codes "unknown"

abbrev pub compiler_to_string : CppCompiler → Text
compiler_to_string CppCompiler.gcc = codes "gcc"
compiler_to_string CppCompiler.clang = codes "clang"
compiler_to_string CppCompiler.unspecified = codes "unknown"

abbrev pub architecture_to_string : CpuArchitecture → Text
architecture_to_string CpuArchitecture.x86_64 = codes "x86_64"
architecture_to_string CpuArchitecture.aarch64 = codes "aarch64"
architecture_to_string CpuArchitecture.arm = codes "arm"
architecture_to_string CpuArchitecture.unspecified = codes "unknown"

abbrev pub c_runtime_to_string : CRuntime → Text
c_runtime_to_string CRuntime.glibc = codes "glibc"
c_runtime_to_string CRuntime.musl = codes "musl"
c_runtime_to_string CRuntime.unspecified = codes "unknown"

abbrev pub stdlib_to_string : CppStdlib → Text
stdlib_to_string CppStdlib.libstdcxx = codes "libstdc++"
stdlib_to_string CppStdlib.libcxx = codes "libc++"
stdlib_to_string CppStdlib.unspecified = codes "unknown"

abbrev dotted : Option ℕ → Text
dotted none = []
dotted (some n) = b'.' ∷ format_uint n

unfoldable pub version_to_string : Option Version → Text
version_to_string none = codes "0"
version_to_string (some v) = (format_uint v.major ++ dotted v.minor) ++ dotted v.patch

abbrev pub is_compiler : CppCompiler → Bool
is_compiler CppCompiler.unspecified = false
is_compiler _ = true

abbrev pub is_c_runtime : CRuntime → Bool
is_c_runtime CRuntime.unspecified = false
is_c_runtime _ = true

abbrev pub is_architecture : CpuArchitecture → Bool
is_architecture CpuArchitecture.unspecified = false
is_architecture _ = true

abbrev pub is_stdlib : CppStdlib → Bool
is_stdlib CppStdlib.unspecified = false
is_stdlib _ = true
