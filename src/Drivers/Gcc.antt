-- ===== src/Drivers/Gcc.antt =====
-- pkg/drivers/cpp/gcc_common: the command line of gcc and g++, as the driver reads it.
pub mod Tokens
pub mod Mode
pub mod Spelling
pub mod Words
pub mod CppJob
pub mod Cli
pub mod Linking
use buildozer.Common.{
  ℕ, Bool, true, false, ◌||◌, ◌&&◌, not, String, List, [], ◌∷◌, ◌++◌, if◌then◌else◌, length, drop,
  leb, ltb, Text, codes, text_eq, has_prefix, has_suffix,
}

-- types.go
pub data CompileMode : Type 0 where
  mode_unknown mode_compile_only mode_link mode_compile_and_link : CompileMode

pub record ParsedArgs : Type 0 where
  pub source_files : List Text
  pub object_files : List Text
  pub output_file : Text
  pub defines : List Text
  pub include_dirs : List Text
  pub libraries : List Text
  pub library_files : List Text
  pub library_dirs : List Text
  pub compiler_flags : List Text
  pub linker_flags : List Text
  pub mode : CompileMode
  pub is_shared_library : Bool
  pub original_args : List Text

-- Membership in a table of literals.
unfoldable pub one_of : Text → List String → Bool
unfolding text_eq
one_of arg [] = false
one_of arg (s ∷ rest) = text_eq arg (codes s) || one_of arg rest

unfoldable pub has_prefix_of : Text → List String → Bool
unfolding has_prefix
has_prefix_of arg [] = false
has_prefix_of arg (s ∷ rest) = has_prefix arg (codes s) || has_prefix_of arg rest

unfoldable pub has_suffix_of : Text → List String → Bool
unfolding has_suffix
has_suffix_of arg [] = false
has_suffix_of arg (s ∷ rest) = has_suffix arg (codes s) || has_suffix_of arg rest

abbrev pub exact_compiler_flags : List String
exact_compiler_flags =
    "-c" ∷ "-S" ∷ "-E" ∷ "-M" ∷ "-MM" ∷ "-fPIC" ∷ "-fPIE" ∷ "-fno-PIC" ∷ "-fno-PIE" ∷ "-nostdinc"
    ∷ "-nostdinc++" ∷ "-trigraphs" ∷ "-notrigraphs" ∷ []

abbrev pub compiler_flag_prefixes : List String
compiler_flag_prefixes = "-std=" ∷ "-march=" ∷ "-mtune=" ∷ "-m64" ∷ "-m32" ∷ "-O" ∷ "-g" ∷ "-W" ∷ []

unfoldable pub is_compiler_only_flag : Text → Bool
unfolding one_of has_prefix_of
is_compiler_only_flag flag =
    one_of flag exact_compiler_flags || has_prefix_of flag compiler_flag_prefixes

abbrev pub source_suffixes : List String
source_suffixes = ".c" ∷ ".cpp" ∷ ".cc" ∷ ".cxx" ∷ ".C" ∷ ".c++" ∷ []

abbrev pub library_suffixes : List String
library_suffixes = ".a" ∷ ".so" ∷ ".lib" ∷ ".dll" ∷ []

-- The case of the `switch` that an argument falls into.
pub data Kind : Type 0 where
  compile_only shared output include_dir define library library_dir version : Kind
  compiler_flag linker_flag source object library_file ignored : Kind

-- The `default` case: an input file by its ending.
unfoldable pub file_kind : Text → Kind
unfolding has_suffix_of
file_kind arg =
    if has_suffix_of arg source_suffixes
    then source
    else if has_suffix arg (codes ".o")
    then object
    else if has_suffix_of arg library_suffixes
    then library_file
    else ignored

-- The conditions of the `switch`, in order.
unfoldable pub kind : Text → Kind
unfolding one_of has_prefix is_compiler_only_flag file_kind
kind arg =
    if text_eq arg (codes "-c")
    then compile_only
    else if text_eq arg (codes "-shared")
    then shared
    else if text_eq arg (codes "-o")
    then output
    else if has_prefix arg (codes "-I")
    then include_dir
    else if has_prefix arg (codes "-D")
    then define
    else if has_prefix arg (codes "-l")
    then library
    else if has_prefix arg (codes "-L")
    then library_dir
    else if one_of arg ("--version" ∷ "-v" ∷ "-print-version" ∷ [])
    then version
    else if has_prefix arg (codes "-")
    then (if is_compiler_only_flag arg then compiler_flag else linker_flag)
    else file_kind arg

-- Whether the case reads the next argument, where there is one.
abbrev pub wants_value : Kind → Text → Bool
wants_value output arg = true
wants_value include_dir arg = leb (length arg) 2
wants_value define arg = leb (length arg) 2
wants_value library arg = leb (length arg) 2
wants_value library_dir arg = leb (length arg) 2
wants_value _ arg = false

-- A case that takes the argument alone. `-o`, and a bare `-I`, `-D`, `-l` or `-L`, come here
-- only as the last argument, and change nothing.
unfoldable pub take_alone : Kind → Text → ParsedArgs → ParsedArgs
take_alone compile_only arg p = record p { mode = mode_compile_only }
take_alone shared arg p = record p {
  is_shared_library = true;
  linker_flags = p.linker_flags ++ arg ∷ [];
}
take_alone output arg p = p
take_alone include_dir arg p =
    if leb (length arg) 2 then p else record p { include_dirs = p.include_dirs ++ drop 2 arg ∷ [] }
take_alone define arg p =
    if leb (length arg) 2 then p else record p { defines = p.defines ++ drop 2 arg ∷ [] }
take_alone library arg p =
    if leb (length arg) 2 then p else record p { libraries = p.libraries ++ drop 2 arg ∷ [] }
take_alone library_dir arg p =
    if leb (length arg) 2 then p else record p { library_dirs = p.library_dirs ++ drop 2 arg ∷ [] }
take_alone version arg p = record p { compiler_flags = p.compiler_flags ++ arg ∷ [] }
take_alone compiler_flag arg p = record p { compiler_flags = p.compiler_flags ++ arg ∷ [] }
take_alone linker_flag arg p = record p { linker_flags = p.linker_flags ++ arg ∷ [] }
take_alone source arg p = record p { source_files = p.source_files ++ arg ∷ [] }
take_alone object arg p = record p { object_files = p.object_files ++ arg ∷ [] }
take_alone library_file arg p = record p { library_files = p.library_files ++ arg ∷ [] }
take_alone ignored arg p = p

-- A case that takes the next argument.
unfoldable pub take_value : Kind → Text → ParsedArgs → ParsedArgs
take_value output value p = record p { output_file = value }
take_value include_dir value p = record p { include_dirs = p.include_dirs ++ value ∷ [] }
take_value define value p = record p { defines = p.defines ++ value ∷ [] }
take_value library value p = record p { libraries = p.libraries ++ value ∷ [] }
take_value library_dir value p = record p { library_dirs = p.library_dirs ++ value ∷ [] }
take_value _ value p = p

-- The loop of `ParseCommandLine`.
unfoldable pub parse_from : List Text → ParsedArgs → ParsedArgs
unfolding kind take_alone take_value
parse_from [] p = p
parse_from (arg ∷ []) p = take_alone (kind arg) arg p
parse_from (arg ∷ next ∷ rest) p =
    let with_value = parse_from rest (take_value (kind arg) next p) in
    let alone = parse_from (next ∷ rest) (take_alone (kind arg) arg p) in
    if wants_value (kind arg) arg then with_value else alone

abbrev pub empty_args : List Text → ParsedArgs
empty_args args = record {
  source_files = [];
  object_files = [];
  output_file = [];
  defines = [];
  include_dirs = [];
  libraries = [];
  library_files = [];
  library_dirs = [];
  compiler_flags = [];
  linker_flags = [];
  mode = mode_compile_and_link;
  is_shared_library = false;
  original_args = args;
}

abbrev pub is_compile_only : CompileMode → Bool
is_compile_only mode_compile_only = true
is_compile_only _ = false

abbrev pub is_empty : List Text → Bool
is_empty [] = true
is_empty (x ∷ xs) = false

-- The post-processing: objects and no sources, with no `-c`, make a link job.
unfoldable pub detect_link : ParsedArgs → ParsedArgs
detect_link p =
    if not (is_compile_only p.mode) && is_empty p.source_files && not (is_empty p.object_files)
    then record p { mode = mode_link }
    else p

unfoldable pub parse_command_line : List Text → ParsedArgs
unfolding parse_from detect_link
parse_command_line args = detect_link (parse_from args (empty_args args))
