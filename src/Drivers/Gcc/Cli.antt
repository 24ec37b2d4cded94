-- ===== src/Drivers/Gcc/Cli.antt =====
-- pkg/drivers/cpp/gcc_common/cli_validation.go: the check of a command line against the flags
-- that the compilers know, and the language, standard and library that it reads.
pub mod Accepted
use buildozer.Common.{
  ℕ, Bool, true, false, ◌||◌, ◌&&◌, not, Option, none, some, String, List, [], ◌∷◌, ◌++◌,
  if◌then◌else◌, Text, codes, text_eq, has_prefix, trim_prefix,
}
use buildozer.Drivers.Gcc.{one_of, has_prefix_of}

pub data CompilerType : Type 0 where
  gcc gxx clang clang_cxx : CompilerType

pub record CliConfig : Type 0 where
  pub name : Text
  pub type : CompilerType
  pub supports_stdlib : Bool

pub record ParsedCliArgs : Type 0 where
  pub language : Text
  pub standard : Text
  pub std_lib : Text

abbrev pub is_gxx : CompilerType → Bool
is_gxx gxx = true
is_gxx _ = false

abbrev pub is_clang_cxx : CompilerType → Bool
is_clang_cxx clang_cxx = true
is_clang_cxx _ = false

abbrev pub exact_flags : List String
exact_flags =
    "-c" ∷ "-S" ∷ "-E" ∷ "-v" ∷ "-###" ∷ "-o" ∷ "-x" ∷ "-B" ∷ "-std" ∷ "-specs" ∷ "-Xassembler"
    ∷ "-Xpreprocessor" ∷ "-Xlinker" ∷ []

abbrev pub assignment_prefixes : List String
assignment_prefixes =
    "-std=" ∷ "--sysroot=" ∷ "-specs=" ∷ "-print-file-name=" ∷ "-print-prog-name=" ∷ "-save-temps="
    ∷ []

abbrev pub common_prefixes : List String
common_prefixes =
    "-O" ∷ "-g" ∷ "-f" ∷ "-W" ∷ "-m" ∷ "-D" ∷ "-I" ∷ "-L" ∷ "-l" ∷ "-Wl" ∷ "-Wp" ∷ "-Wa" ∷ "--param"
    ∷ []

abbrev pub long_flags : List String
long_flags =
    "--version" ∷ "--help" ∷ "--target-help" ∷ "-pass-exit-codes" ∷ "-dumpspecs" ∷ "-dumpversion"
    ∷ "-dumpmachine" ∷ "-print-search-dirs" ∷ "-print-libgcc-file-name" ∷ "-print-multiarch"
    ∷ "-print-multi-directory" ∷ "-print-multi-lib" ∷ "-print-multi-os-directory" ∷ "-print-sysroot"
    ∷ "-print-sysroot-headers-suffix" ∷ "-pipe" ∷ "-time" ∷ "-no-canonical-prefixes" ∷ "-save-temps"
    ∷ "-shared" ∷ "-pie" ∷ []

-- `IsValidCompilerFlag`
unfoldable pub is_valid_compiler_flag : Text → CompilerType → Bool
unfolding one_of has_prefix_of text_eq has_prefix
is_valid_compiler_flag flag ct =
    one_of flag exact_flags
    || ((is_gxx ct || is_clang_cxx ct) && text_eq flag (codes "-stdlib"))
    || has_prefix_of flag assignment_prefixes
    || (is_gxx ct && has_prefix flag (codes "-stdlib="))
    || has_prefix_of flag common_prefixes
    || one_of flag long_flags
    || has_prefix flag (codes "--help=")

-- A valid flag, or a file.
unfoldable pub is_accepted : CompilerType → Text → Bool
unfolding is_valid_compiler_flag
is_accepted ct arg = is_valid_compiler_flag arg ct || not (has_prefix arg (codes "-"))

-- What a valid flag with an argument behind it does; a file goes straight to the next argument.
pub data Action : Type 0 where
  language standard standard_assigned std_lib std_lib_assigned nothing : Action

abbrev pub reads_stdlib : CliConfig → Bool
reads_stdlib cfg = cfg.supports_stdlib || is_clang_cxx cfg.type

unfoldable pub action : CliConfig → Text → Action
unfolding is_valid_compiler_flag
action cfg arg =
    if not (is_valid_compiler_flag arg cfg.type)
    then nothing
    else if text_eq arg (codes "-x")
    then language
    else if text_eq arg (codes "-std")
    then standard
    else if has_prefix arg (codes "-std=")
    then standard_assigned
    else if reads_stdlib cfg && text_eq arg (codes "-stdlib")
    then std_lib
    else if reads_stdlib cfg && has_prefix arg (codes "-stdlib=")
    then std_lib_assigned
    else nothing

-- Whether the argument behind is its value.
abbrev pub reads_value : Action → Bool
reads_value language = true
reads_value standard = true
reads_value std_lib = true
reads_value _ = false

unfoldable pub apply : Action → Text → Text → ParsedCliArgs → ParsedCliArgs
unfolding trim_prefix
apply language arg next p = record p { language = next }
apply standard arg next p = record p { standard = next }
apply standard_assigned arg next p = record p { standard = trim_prefix arg (codes "-std=") }
apply std_lib arg next p = record p { std_lib = next }
apply std_lib_assigned arg next p = record p { std_lib = trim_prefix arg (codes "-stdlib=") }
apply nothing arg next p = p

-- The parsed arguments, or the argument that is refused.
pub data CliResult : Type 0 where
  parsed : ParsedCliArgs → CliResult
  unrecognized : Text → CliResult

-- The loop. Every extraction asks for an argument behind the flag, also where the flag carries
-- its value itself.
unfoldable pub validate_from : CliConfig → List Text → ParsedCliArgs → CliResult
unfolding is_accepted action apply
validate_from cfg [] p = parsed p
validate_from cfg (arg ∷ []) p = if is_accepted cfg.type arg then parsed p else unrecognized arg
validate_from cfg (arg ∷ next ∷ rest) p =
    let with_value = validate_from cfg rest (apply (action cfg arg) arg next p) in
    let alone = validate_from cfg (next ∷ rest) (apply (action cfg arg) arg next p) in
    if is_accepted cfg.type arg
    then (if reads_value (action cfg arg) then with_value else alone)
    else unrecognized arg

abbrev pub no_cli_args : ParsedCliArgs
no_cli_args = record { language = []; standard = []; std_lib = [] }

unfoldable pub validate_and_parse_args : List Text → CliConfig → CliResult
unfolding validate_from
validate_and_parse_args args cfg = validate_from cfg args no_cli_args
