-- ===== src/RuntimeId/RoundTrip.antt =====
-- From a runtime to its ID and back.
use buildozer.Common.{
  ℕ, String, true, false, some, List, [], ◌∷◌, Text, codes, text_eq, join, ◌≡◌, refl, arith, ◌∙◌,
  free, split-join, subst,
}
use buildozer.Proto.Runtime.{
  Runtime, RuntimePlatform, RuntimeToolchain, CppLanguage, CppCompiler, CpuArchitecture, CRuntime,
  CppStdlib, Version, CppToolchain, cpp,
}
use buildozer.Errors.{text, Result, ok, err}
use buildozer.RuntimeId.Names.{
  parse_runtime_toolchain, language_to_string, compiler_to_string, c_runtime_to_string,
  version_to_string, is_compiler, is_c_runtime, is_architecture,
}
use buildozer.RuntimeId.Versions.{IsVersion, parse_version-version_to_string}
use buildozer.RuntimeId.Parse.{
  parsed_runtime, parse_cpp, choose_platform, parse_parts, parse_runtime_id, last_parts,
  runtime_to_id,
}
use buildozer.RuntimeId.Parts.{
  HasLibrary, IsNamed, parse_compiler-name, parse_architecture-name, parse_c_runtime-name,
  parse_stdlib-name, parts_of, parts_of-free,
}

-- A runtime as its ID gives it.
abbrev from_id : String → CppToolchain → Runtime
from_id id t = record (parsed_runtime t) { id = id; platform = RuntimePlatform.native_linux }

abbrev toolchain_of :
    CppLanguage
    → CppCompiler
    → CpuArchitecture
    → CRuntime
    → CppStdlib
    → Version
    → Version
    → CppToolchain
toolchain_of lang comp arch crt lib v cv = record {
  language = lang;
  compiler = comp;
  compiler_version = some v;
  architecture = arch;
  c_runtime = crt;
  c_runtime_version = some cv;
  cpp_stdlib = lib;
}

parse_cpp_lem :
    (lang : CppLanguage) (comp : CppCompiler) (arch : CpuArchitecture) (crt : CRuntime)
    (lib : CppStdlib) (v cv : Version)
    → is_compiler comp ≡ true
    → is_architecture arch ≡ true
    → is_c_runtime crt ≡ true
    → HasLibrary lang lib
    → IsVersion v
    → IsVersion cv
    → let t = toolchain_of lang comp arch crt lib v cv in
      parse_cpp (
        compiler_to_string comp
        ∷ version_to_string (some v)
        ∷ c_runtime_to_string crt
        ∷ version_to_string (some cv)
        ∷ last_parts t)
      ≡ ok (parsed_runtime t)
unfolding parse_cpp
parse_cpp_lem CppLanguage.c comp arch crt lib v cv hc ha hr hl hv hw = rw (
  parse_compiler-name comp,
  parse_c_runtime-name crt,
  parse_architecture-name arch,
  hc,
  hr,
  ha,
  parse_version-version_to_string v hv,
  parse_version-version_to_string cv hw,
  hl,
)
parse_cpp_lem CppLanguage.cpp comp arch crt lib v cv hc ha hr hl hv hw = rw (
  parse_compiler-name comp,
  parse_c_runtime-name crt,
  parse_architecture-name arch,
  parse_stdlib-name lib,
  hc,
  hr,
  ha,
  hl,
  parse_version-version_to_string v hv,
  parse_version-version_to_string cv hw,
)
parse_cpp_lem CppLanguage.unspecified comp arch crt lib v cv hc ha hr hl hv hw = absurd hl

-- The error for a platform without a parser.
abbrev pub unregistered : Result Runtime
unregistered = err (text "no parser registered for %s")

parse_parts-native :
    (id : String) (lang : CppLanguage) (comp : CppCompiler) (arch : CpuArchitecture)
    (crt : CRuntime) (lib : CppStdlib) (v cv : Version)
    → is_compiler comp ≡ true
    → is_architecture arch ≡ true
    → is_c_runtime crt ≡ true
    → HasLibrary lang lib
    → IsVersion v
    → IsVersion cv
    → let t = toolchain_of lang comp arch crt lib v cv in
      parse_parts id (codes "native_linux" ∷ parts_of t) ≡ ok (from_id id t)
unfolding choose_platform parse_runtime_toolchain
parse_parts-native id CppLanguage.c comp arch crt lib v cv hc ha hr hl hv hw =
    rw (parse_cpp_lem CppLanguage.c comp arch crt lib v cv hc ha hr hl hv hw)
parse_parts-native id CppLanguage.cpp comp arch crt lib v cv hc ha hr hl hv hw =
    rw (parse_cpp_lem CppLanguage.cpp comp arch crt lib v cv hc ha hr hl hv hw)
parse_parts-native id CppLanguage.unspecified comp arch crt lib v cv hc ha hr hl hv hw = absurd hl

parse_parts-docker :
    (id : String) (lang : CppLanguage) (lib : CppStdlib) (x₁ x₂ x₃ x₄ : Text) (last : List Text)
    → HasLibrary lang lib
    → parse_parts id (codes "docker_linux" ∷ language_to_string lang ∷ x₁ ∷ x₂ ∷ x₃ ∷ x₄ ∷ last)
      ≡ unregistered
unfolding choose_platform parse_runtime_toolchain
parse_parts-docker id CppLanguage.c lib x₁ x₂ x₃ x₄ last h = ground arith
parse_parts-docker id CppLanguage.cpp lib x₁ x₂ x₃ x₄ last h = ground arith
parse_parts-docker id CppLanguage.unspecified lib x₁ x₂ x₃ x₄ last h = absurd h

join-ne-nil :
    (sep c : ℕ) (name : Text) (parts : List Text) → text_eq (join sep (c ∷ name) parts) [] ≡ false
unfolding join text_eq
join-ne-nil sep c name [] = refl
join-ne-nil sep c name (part ∷ parts) = refl

parse_parts-named :
    (id : String) (t : CppToolchain)
    → IsNamed t
    → parse_parts id (codes "native_linux" ∷ parts_of t) ≡ ok (from_id id t)
parse_parts-named id t h =
    let same : toolchain_of t.language t.compiler t.architecture t.c_runtime t.cpp_stdlib h.version
          h.c_version
        ≡ t =
      ground (arith, h.has_version, h.has_c_version) in
    subst (λ u. parse_parts id (codes "native_linux" ∷ parts_of u) ≡ ok (from_id id u)) same
      (parse_parts-native id t.language t.compiler t.architecture t.c_runtime t.cpp_stdlib h.version
        h.c_version h.compiler h.architecture h.c_runtime h.library h.version_fine h.c_version_fine)

-- The parts of the ID are found in it again.
parse_runtime_id-parts :
    (id : String) (c : ℕ) (name : Text) (t : CppToolchain)
    → IsNamed t
    → free b'-' (c ∷ name) ≡ true
    → codes id ≡ join b'-' (c ∷ name) (parts_of t)
    → parse_runtime_id id ≡ parse_parts id ((c ∷ name) ∷ parts_of t)
unfolding parse_runtime_id
parse_runtime_id-parts id c name t h f e = rw (
  e,
  split-join b'-' (c ∷ name) (parts_of t) f (parts_of-free t h),
  join-ne-nil b'-' c name (parts_of t),
)

-- The ID of a C or C++ runtime on native Linux, whose toolchain is specified, is parsed as this
-- runtime again, under the ID, with no peers, and with the toolchain C, also for a C++ runtime.
pub parse_runtime_id-runtime_to_id :
    (rt : Runtime) (t : CppToolchain) (id : String)
    → rt.platform ≡ RuntimePlatform.native_linux
    → rt.toolchain_spec ≡ some (cpp t)
    → IsNamed t
    → codes id ≡ runtime_to_id rt
    → parse_runtime_id id
      ≡ ok (record rt { id = id; toolchain = RuntimeToolchain.c; peer_ids = [] })
unfolding runtime_to_id
parse_runtime_id-runtime_to_id rt t id hp ht h e =
    parse_runtime_id-parts id b'n' (codes "ative_linux") t h refl (rw (hp, ht) at e)
    ∙ (parse_parts-named id t h ∙ ground (arith, hp, ht))

-- The ID of such a runtime on Docker is not parsed: no parser is registered for it.
parse_runtime_id-docker :
    (rt : Runtime) (t : CppToolchain) (id : String)
    → rt.platform ≡ RuntimePlatform.docker_linux
    → rt.toolchain_spec ≡ some (cpp t)
    → IsNamed t
    → codes id ≡ runtime_to_id rt
    → parse_runtime_id id ≡ unregistered
unfolding runtime_to_id
parse_runtime_id-docker rt t id hp ht h e =
    parse_runtime_id-parts id b'd' (codes "ocker_linux") t h refl (rw (hp, ht) at e)
    ∙ parse_parts-docker id t.language t.cpp_stdlib _ _ _ _ _ h.library
