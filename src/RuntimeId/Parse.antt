-- ===== src/RuntimeId/Parse.antt =====
-- pkg/runtime/proto.go (ParseRuntimeID, RuntimeToID) and parsers.go. The ID that the message
-- keeps is the argument itself.
use buildozer.Common.{
  ltb, length, String, Bool, true, false, ◌||◌, some, List, [], ◌∷◌, ◌++◌, if◌then◌else◌, Text,
  codes, text_eq, split, join,
}
use buildozer.Proto.Runtime.{
  Runtime, RuntimePlatform, RuntimeToolchain, CppLanguage, CpuArchitecture, CppStdlib, CppToolchain,
  cpp,
}
use buildozer.Errors.{text, wrapped, Result, ok, err}
use buildozer.RuntimeId.Names.{
  IdPlatform, IdToolchain, parse_runtime_platform, parse_runtime_toolchain, parse_compiler,
  parse_architecture, parse_c_runtime, parse_stdlib, parse_version, language_to_string,
  compiler_to_string, architecture_to_string, c_runtime_to_string, stdlib_to_string,
  version_to_string, is_compiler, is_c_runtime, is_architecture, is_stdlib,
}

-- The message that `Parse` returns; its ID and platform are set behind the call.
abbrev pub parsed_runtime : CppToolchain → Runtime
parsed_runtime t = record {
  id = "";
  platform = RuntimePlatform.unspecified;
  toolchain = RuntimeToolchain.c;
  toolchain_spec = some (cpp t);
  peer_ids = [];
}

-- The parts behind the version of the C runtime.
abbrev pub parse_last : CppToolchain → List Text → Result Runtime
parse_last t [] = err (text "C/C++ runtime ID requires at least 5 parts, got %d")
parse_last t (arch ∷ []) =
    if is_architecture (parse_architecture arch)
    then ok (
        parsed_runtime
          (record t { language = CppLanguage.c; architecture = parse_architecture arch }))
    else err (text "invalid architecture: %q")
parse_last t (stdlib ∷ arch ∷ []) =
    if is_stdlib (parse_stdlib stdlib)
    then (if is_architecture (parse_architecture arch)
        then ok (
            parsed_runtime (record t {
              language = CppLanguage.cpp;
              architecture = parse_architecture arch;
              cpp_stdlib = parse_stdlib stdlib;
            }))
        else err (text "invalid architecture: %q"))
    else err (text "invalid cpp_stdlib: %q")
parse_last t (stdlib ∷ arch ∷ more ∷ parts) =
    err (text "C/C++ runtime ID must have 5 or 6 parts, got %d")

-- `CppRuntimeParser.Parse`
unfoldable pub parse_cpp : List Text → Result Runtime
parse_cpp (compiler ∷ version ∷ crt ∷ crt_version ∷ last ∷ parts) =
    if is_compiler (parse_compiler compiler)
    then (if is_c_runtime (parse_c_runtime crt)
        then parse_last
            (record {
              language = CppLanguage.unspecified;
              compiler = parse_compiler compiler;
              compiler_version = some (parse_version version);
              architecture = CpuArchitecture.unspecified;
              c_runtime = parse_c_runtime crt;
              c_runtime_version = some (parse_version crt_version);
              cpp_stdlib = CppStdlib.unspecified;
            })
            (last ∷ parts)
        else err (text "invalid c_runtime: %q"))
    else err (text "invalid compiler: %q")
parse_cpp _ = err (text "C/C++ runtime ID requires at least 5 parts, got %d")

abbrev pub single_part : Text → List Text → Result (IdPlatform × List Text)
single_part name parts = elim (parse_runtime_platform name) [ ok p ↦ ok (p, parts) | err e ↦ err e ]

-- The platform, and the parts behind it.
unfoldable pub choose_platform : List Text → Result (IdPlatform × List Text)
unfolding parse_runtime_platform text_eq
choose_platform [] = err (text "invalid runtime ID %q")
choose_platform (name ∷ []) = err (text "invalid runtime ID %q")
choose_platform (name ∷ os ∷ parts) =
    let single = single_part name (os ∷ parts) in
    if text_eq name (codes "native") || text_eq name (codes "docker")
    then elim (parse_runtime_platform (name ++ b'_' ∷ os)) [ ok p ↦ ok (p, parts) | err e ↦ single ]
    else single

-- `runtimeParsers`, as `init` registers them: the parser of C and C++ on native Linux.
abbrev pub registered : IdPlatform → IdToolchain → Bool
registered IdPlatform.native_linux toolchain = true
registered IdPlatform.docker_linux toolchain = false

abbrev pub platform_of : IdPlatform → RuntimePlatform
platform_of IdPlatform.native_linux = RuntimePlatform.native_linux
platform_of IdPlatform.docker_linux = RuntimePlatform.docker_linux

-- The stages behind the platform.
abbrev pub parse_behind : String → IdPlatform → List Text → Result Runtime
parse_behind id p [] = err (text "invalid runtime ID %q: missing toolchain after platform")
parse_behind id p (toolchain ∷ parts) = elim (parse_runtime_toolchain toolchain) [
  | err e ↦ err e
  | ok t ↦
      if registered p t
      then elim (parse_cpp parts) [
        | err e ↦ err (wrapped "failed to parse runtime ID %q: %w" e)
        | ok rt ↦ ok (record rt { id = id; platform = platform_of p })
      ]
      else err (text "no parser registered for %s")
]

-- `ParseRuntimeID` behind the test for an empty ID.
abbrev pub parse_parts : String → List Text → Result Runtime
parse_parts id parts =
    if ltb (length parts) 4
    then err (text "invalid runtime ID %q: expected at least 4 parts")
    else elim (choose_platform parts) [ err e ↦ err e | ok (p, rest) ↦ parse_behind id p rest ]

unfoldable pub parse_runtime_id : String → Result Runtime
parse_runtime_id id =
    if text_eq (codes id) []
    then err (text "empty runtime ID")
    else parse_parts id (split b'-' (codes id))

abbrev pub platform_name : RuntimePlatform → Text
platform_name RuntimePlatform.docker_linux = codes "docker_linux"
platform_name _ = codes "native_linux"

-- The parts of an ID behind the version of the C runtime.
abbrev pub last_parts : CppToolchain → List Text
last_parts t = elim t.language [
  | CppLanguage.cpp ↦ stdlib_to_string t.cpp_stdlib ∷ architecture_to_string t.architecture ∷ []
  | _ ↦ architecture_to_string t.architecture ∷ []
]

-- `RuntimeToID`: each `Sprintf` sets dashes between its arguments.
unfoldable pub runtime_to_id : Runtime → Text
runtime_to_id rt = elim rt.toolchain_spec [
  | some (cpp t) ↦ join b'-' (platform_name rt.platform) (
      language_to_string t.language
      ∷ compiler_to_string t.compiler
      ∷ version_to_string t.compiler_version
      ∷ c_runtime_to_string t.c_runtime
      ∷ version_to_string t.c_runtime_version
      ∷ last_parts t)
  | _ ↦ codes rt.id
]
