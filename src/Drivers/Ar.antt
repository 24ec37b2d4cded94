-- ===== src/Drivers/Ar.antt =====
-- pkg/drivers/cpp/ar_common: the command line of ar, `[options] command [options] archive file…`.
-- The index into the arguments is the list of those that are left.
pub mod Layout
pub mod Archive
use buildozer.Common.{
  ℕ, Bool, true, false, ◌||◌, ◌&&◌, not, Option, none, some, String, List, [], ◌∷◌, ◌++◌,
  if◌then◌else◌, map, Text, codes, text_eq, has_prefix, ◌==◌, leb, length, ltb, ◌+◌,
}

-- types.go
pub data ArchiveMode : Type 0 where
  mode_write mode_update mode_create mode_verbose mode_quick : ArchiveMode

pub record ParsedArgs : Type 0 where
  pub flags : List Text
  pub input_files : List Text
  pub output_file : Text
  pub original_args : List Text
  pub mode : ArchiveMode

pub data ArError : Type 0 where
  missing_arg no_output_file : ArError

-- Membership of a byte in a table.
unfoldable pub byte_in : ℕ → Text → Bool
byte_in c [] = false
byte_in c (d ∷ ds) = c == d || byte_in c ds

abbrev pub command_bytes : Text
command_bytes = codes "dDmMpPqQrRsStTxX"

abbrev pub modifier_bytes : Text
modifier_bytes = codes "aAbBcCDfFiIlLMNoOPsSTuUvV"

unfoldable pub all_modifiers : Text → Bool
unfolding byte_in
all_modifiers [] = true
all_modifiers (c ∷ s) = byte_in c modifier_bytes && all_modifiers s

-- The leading dash off.
unfoldable pub strip_dash : Text → Text
strip_dash [] = []
strip_dash (c ∷ s) = if c == b'-' then s else c ∷ s

unfoldable pub is_command : Text → Bool
unfolding all_modifiers
is_command [] = false
is_command (c ∷ s) = byte_in c command_bytes && all_modifiers s

unfoldable pub is_command_string : Text → Bool
unfolding is_command strip_dash
is_command_string s = is_command (strip_dash s)

-- One flag for each byte; a command string is ASCII.
unfoldable pub extract_command_and_modifiers : Text → List Text
unfolding strip_dash
extract_command_and_modifiers s = map (λ c. c ∷ []) (strip_dash s)

-- How many arguments `skipOption` skips at an argument: none, it, or it and its value.
pub data Skip : Type 0 where
  stay skip_one skip_two : Skip

unfoldable pub skip_option : Text → Skip
unfolding byte_in has_prefix text_eq is_command_string
skip_option arg =
    if has_prefix arg (codes "--") && byte_in b'=' arg
    then skip_one
    else if text_eq arg (codes "--plugin")
        || (text_eq arg (codes "--target") || text_eq arg (codes "--output"))
    then skip_two
    else if has_prefix arg (codes "@")
    then skip_one
    else if has_prefix arg (codes "--")
    then skip_one
    else if has_prefix arg (codes "-") && not (is_command_string arg)
    then skip_one
    else stay

-- Step 1: the flags of the first command string behind skipped options, and what is left. With
-- no command string there are no flags, and the argument that stopped the search is left.
unfoldable pub find_command : List Text → List Text × List Text
unfolding skip_option extract_command_and_modifiers
find_command [] = ([], [])
find_command (arg ∷ []) =
    if is_command_string arg
    then (extract_command_and_modifiers arg, [])
    else elim (skip_option arg) [ stay ↦ ([], arg ∷ []) | _ ↦ ([], []) ]
find_command (arg ∷ next ∷ rest) =
    let one = find_command (next ∷ rest) in
    let two = find_command rest in
    if is_command_string arg
    then (extract_command_and_modifiers arg, next ∷ rest)
    else elim (skip_option arg) [ stay ↦ ([], arg ∷ next ∷ rest) | skip_one ↦ one | skip_two ↦ two ]

-- Step 2: the options behind the command.
unfoldable pub skip_options : List Text → List Text
unfolding skip_option
skip_options [] = []
skip_options (arg ∷ []) = elim (skip_option arg) [ stay ↦ arg ∷ [] | _ ↦ [] ]
skip_options (arg ∷ next ∷ rest) =
    let one = skip_options (next ∷ rest) in
    let two = skip_options rest in
    elim (skip_option arg) [ stay ↦ arg ∷ next ∷ rest | skip_one ↦ one | skip_two ↦ two ]

-- `strings.ToLower` of a flag of one byte.
abbrev pub to_lower : ℕ → ℕ
to_lower c = if leb b'A' c && leb c b'Z' then c + 32 else c

-- The `switch` of `updateModeFromFlags`.
abbrev pub mode_of : ℕ → ArchiveMode → ArchiveMode
mode_of c mode =
    if c == b'r'
    then mode_write
    else if c == b'u'
    then mode_update
    else if c == b'c'
    then mode_create
    else if c == b'v'
    then mode_verbose
    else if c == b'q'
    then mode_quick
    else mode

-- A flag of more or fewer bytes than one falls through the `switch`.
abbrev pub flag_mode : Text → ArchiveMode → ArchiveMode
flag_mode [] mode = mode
flag_mode (c ∷ []) mode = mode_of (to_lower c) mode
flag_mode (c ∷ d ∷ s) mode = mode

unfoldable pub mode_from : List Text → ArchiveMode → ArchiveMode
mode_from [] mode = mode
mode_from (flag ∷ flags) mode = mode_from flags (flag_mode flag mode)

-- Step 3 and step 4.
abbrev pub finish : List Text → List Text → List Text → ParsedArgs
finish args flags [] = record {
  flags = flags;
  input_files = [];
  output_file = [];
  original_args = args;
  mode = mode_from flags mode_write;
}
finish args flags (archive ∷ files) = record {
  flags = flags;
  input_files = files;
  output_file = archive;
  original_args = args;
  mode = mode_from flags mode_write;
}

unfoldable pub parse_command_line : List Text → ParsedArgs
unfolding find_command skip_options mode_from
parse_command_line args =
    let (flags, rest) = find_command args in finish args flags (skip_options rest)

-- What a call returns: the parsed arguments, or an error.
pub data ArResult : Type 0 where
  parsed : ParsedArgs → ArResult
  failed : ArError → ArResult

unfoldable pub validate_and_parse_args : List Text → ArResult
unfolding parse_command_line text_eq
validate_and_parse_args args =
    if ltb (length args) 2
    then failed missing_arg
    else if text_eq (parse_command_line args).output_file []
    then failed no_output_file
    else parsed (parse_command_line args)
