-- ===== src/RuntimeId/Parts.antt =====
-- The parts of an ID: which toolchains have one, and that each part is read back.
use buildozer.Common.{true, some, List, ◌∷◌, Text, ◌≡◌, refl, arith, free, all_free}
use buildozer.Proto.Runtime.{
  CppLanguage, CppCompiler, CpuArchitecture, CRuntime, CppStdlib, Version, CppToolchain,
}
use buildozer.RuntimeId.Names.{
  parse_compiler, parse_architecture, parse_c_runtime, parse_stdlib, language_to_string,
  compiler_to_string, architecture_to_string, c_runtime_to_string, stdlib_to_string,
  version_to_string, is_compiler, is_c_runtime, is_architecture, is_stdlib,
}
use buildozer.RuntimeId.Versions.{IsVersion, version_to_string-free}
use buildozer.RuntimeId.Parse.{last_parts}

-- The languages of a toolchain, with the library that each has.
abbrev pub HasLibrary : CppLanguage → CppStdlib → Type 0
HasLibrary CppLanguage.c lib = lib ≡ CppStdlib.unspecified
HasLibrary CppLanguage.cpp lib = is_stdlib lib ≡ true
HasLibrary CppLanguage.unspecified lib = ⊥

-- A toolchain as detection leaves it: everything is specified, but the library of C.
pub record IsNamed (t : CppToolchain) : Type 0 where
  pub compiler : is_compiler t.compiler ≡ true
  pub architecture : is_architecture t.architecture ≡ true
  pub c_runtime : is_c_runtime t.c_runtime ≡ true
  pub library : HasLibrary t.language t.cpp_stdlib
  pub version : Version
  pub has_version : t.compiler_version ≡ some version
  pub version_fine : IsVersion version
  pub c_version : Version
  pub has_c_version : t.c_runtime_version ≡ some c_version
  pub c_version_fine : IsVersion c_version

pub parse_compiler-name : (x : CppCompiler) → parse_compiler (compiler_to_string x) ≡ x
unfolding parse_compiler
parse_compiler-name CppCompiler.gcc = refl
parse_compiler-name CppCompiler.clang = refl
parse_compiler-name CppCompiler.unspecified = refl

pub parse_architecture-name :
    (x : CpuArchitecture) → parse_architecture (architecture_to_string x) ≡ x
unfolding parse_architecture
parse_architecture-name CpuArchitecture.x86_64 = refl
parse_architecture-name CpuArchitecture.aarch64 = refl
parse_architecture-name CpuArchitecture.arm = refl
parse_architecture-name CpuArchitecture.unspecified = refl

pub parse_c_runtime-name : (x : CRuntime) → parse_c_runtime (c_runtime_to_string x) ≡ x
unfolding parse_c_runtime
parse_c_runtime-name CRuntime.glibc = refl
parse_c_runtime-name CRuntime.musl = refl
parse_c_runtime-name CRuntime.unspecified = refl

pub parse_stdlib-name : (x : CppStdlib) → parse_stdlib (stdlib_to_string x) ≡ x
unfolding parse_stdlib
parse_stdlib-name CppStdlib.libstdcxx = refl
parse_stdlib-name CppStdlib.libcxx = refl
parse_stdlib-name CppStdlib.unspecified = refl

-- The parts behind the platform's name.
abbrev pub parts_of : CppToolchain → List Text
parts_of t =
    language_to_string t.language
    ∷ compiler_to_string t.compiler
    ∷ version_to_string t.compiler_version
    ∷ c_runtime_to_string t.c_runtime
    ∷ version_to_string t.c_runtime_version
    ∷ last_parts t

compiler-free : (x : CppCompiler) → free b'-' (compiler_to_string x) ≡ true
compiler-free x = ground arith

architecture-free : (x : CpuArchitecture) → free b'-' (architecture_to_string x) ≡ true
architecture-free x = ground arith

c_runtime-free : (x : CRuntime) → free b'-' (c_runtime_to_string x) ≡ true
c_runtime-free x = ground arith

stdlib-free : (x : CppStdlib) → free b'-' (stdlib_to_string x) ≡ true
stdlib-free x = ground arith

language-free : (x : CppLanguage) → free b'-' (language_to_string x) ≡ true
language-free x = ground arith

last_parts-free : (t : CppToolchain) → all_free b'-' (last_parts t) ≡ true
last_parts-free t = ground (arith, stdlib-free t.cpp_stdlib, architecture-free t.architecture)

pub parts_of-free : (t : CppToolchain) → IsNamed t → all_free b'-' (parts_of t) ≡ true
parts_of-free t h =
    rw (h.has_version, h.has_c_version)
      (ground (
        arith,
        language-free t.language,
        compiler-free t.compiler,
        version_to_string-free h.version h.version_fine,
        c_runtime-free t.c_runtime,
        version_to_string-free h.c_version h.c_version_fine,
        last_parts-free t,
      ))
