-- ===== src/Drivers/Flags.antt =====
-- The flags of a driver: `FlagSet` of pkg/drivers/flagparser.go. `strconv.Atoi` is a parameter. A
-- value of an enumeration is known by its `String()`. The pointer that a registration returns
-- points to the `value` of the flag's entry, and holds nil where that is `none`.
pub mod ByName
use buildozer.Common.{
  ℕ, zero, suc, ℤ, Bool, true, false, ◌||◌, Option, none, some, List, [], ◌∷◌, ◌++◌, if◌then◌else◌,
  Text, codes, text_eq, has_prefix, drop, length,
}
use buildozer.Errors.{Err, text, wrapped, Result, ok, err}

pub data Value : Type 0 where
  string_value : Text → Value
  int_value : ℤ → Value
  bool_value : Bool → Value
  enum_value : Text → Value

pub record FlagInfo : Type 0 where
  pub name : Text
  pub value : Option Value
  pub parser : Text → Result Value
  pub is_optional : Bool
  pub is_bool : Bool

-- A map from names: an entry stands under its own name.
abbrev pub FlagSet : Type 0
FlagSet = List FlagInfo

abbrev pub new_flag_set : FlagSet
new_flag_set = []

-- `fs.flags[name] = …`
unfoldable pub register_flag : FlagInfo → FlagSet → FlagSet
register_flag info [] = info ∷ []
register_flag info (f ∷ fs) =
    let later = register_flag info fs in if text_eq f.name info.name then info ∷ fs else f ∷ later

abbrev string_parser : Text → Result Value
string_parser s = ok (string_value s)

abbrev int_parser : (Text → Result ℤ) → Text → Result Value
int_parser atoi s = elim (atoi s) [
  | ok n ↦ ok (int_value n)
  | err e ↦ err (wrapped "invalid int: %w" e)
]

abbrev says_yes : Text → Bool
says_yes s = text_eq s (codes "true") || text_eq s (codes "1") || text_eq s (codes "yes")

abbrev is_listed : Text → List Text → Bool
is_listed s [] = false
is_listed s (x ∷ xs) = if text_eq x s then true else is_listed s xs

abbrev enum_parser : List Text → Text → Result Value
enum_parser valid s =
    if is_listed s valid
    then ok (enum_value s)
    else err (text "invalid enum value: %s (valid values: %v)")

abbrev flag_info : Text → Option Value → (Text → Result Value) → FlagInfo
flag_info name value parser = record {
  name = name;
  value = value;
  parser = parser;
  is_optional = false;
  is_bool = false;
}

abbrev pub string_flag : Text → Text → FlagSet → FlagSet
string_flag name default fs =
    register_flag (flag_info name (some (string_value default)) string_parser) fs

abbrev pub string_opt : Text → FlagSet → FlagSet
string_opt name fs =
    register_flag (record (flag_info name none string_parser) { is_optional = true }) fs

abbrev pub int_flag : (Text → Result ℤ) → Text → ℤ → FlagSet → FlagSet
int_flag atoi name default fs =
    register_flag (flag_info name (some (int_value default)) (int_parser atoi)) fs

abbrev pub int_opt : (Text → Result ℤ) → Text → FlagSet → FlagSet
int_opt atoi name fs =
    register_flag (record (flag_info name none (int_parser atoi)) { is_optional = true }) fs

abbrev pub bool_flag : Text → Bool → FlagSet → FlagSet
bool_flag name default fs =
    register_flag
      (record (flag_info name (some (bool_value default))
        (λ s. ok (bool_value (says_yes s || text_eq s [])))) { is_bool = true })
      fs

-- The flag is no `is_bool`: it takes the next argument for its value.
abbrev pub bool_opt : Text → FlagSet → FlagSet
bool_opt name fs =
    register_flag
      (record (flag_info name none (λ s. ok (bool_value (says_yes s)))) { is_optional = true }) fs

abbrev pub enum_flag : Text → Text → List Text → FlagSet → FlagSet
enum_flag name default valid fs =
    register_flag (flag_info name (some (enum_value default)) (enum_parser valid)) fs

abbrev pub enum_opt : Text → List Text → FlagSet → FlagSet
enum_opt name valid fs =
    register_flag (record (flag_info name none (enum_parser valid)) { is_optional = true }) fs

abbrev pub prefix : Text
prefix = codes "--buildozer-"

abbrev pub equals : Text
equals = codes "="

-- `args[i]` of the arguments behind, where there is one, and the arguments taken then.
abbrev pub next_of : ℕ → List Text → Option (Text × ℕ)
next_of taken rest = elim (drop taken rest) [ [] ↦ none | value ∷ _ ↦ some (value, suc taken) ]

-- The text that an argument gives for a flag, when `taken` of the arguments behind it are taken
-- already, and the number of those taken then.
unfoldable pub offered : FlagInfo → Text → List Text → ℕ → Option (Text × ℕ)
unfolding text_eq has_prefix
offered info arg rest taken =
    let flag = prefix ++ info.name in
    if text_eq arg flag
    then (if info.is_bool then some (codes "true", taken) else next_of taken rest)
    else if has_prefix arg (flag ++ equals)
    then some (drop (length (flag ++ equals)) arg, taken)
    else none

-- The value is written through the flag's pointer.
unfoldable pub set_value : Text → Value → FlagSet → FlagSet
set_value name v [] = []
set_value name v (f ∷ fs) =
    (if text_eq f.name name then record f { value = some v } else f) ∷ set_value name v fs

-- Whether a flag was set, the number of arguments taken, and the flags.
abbrev pub Matched : Type 0
Matched = Bool × ℕ × FlagSet

-- The loop over the flags, in the order in which Go walks the map. A text that the parser refuses
-- stays taken.
unfoldable pub match_flags : List FlagInfo → Text → List Text → ℕ → FlagSet → Matched
match_flags [] arg rest taken fs = (false, taken, fs)
match_flags (info ∷ infos) arg rest taken fs = elim (offered info arg rest taken) [
  | none ↦ match_flags infos arg rest taken fs
  | some (given, now_taken) ↦ elim (info.parser given) [
    | err e ↦ match_flags infos arg rest now_taken fs
    | ok v ↦ (true, now_taken, set_value info.name v fs)
  ]
]

-- The order of the walk over the map in each round.
abbrev pub Order : Type 0
Order = ℕ → FlagSet → List FlagInfo

abbrev pub kept_if : Bool → Text → List Text × FlagSet → List Text × FlagSet
kept_if true arg (tool, fs) = (tool, fs)
kept_if false arg (tool, fs) = (arg ∷ tool, fs)

-- The loop over the arguments from the round `i` on, of which the first `taken` are passed over.
unfoldable pub parse_rounds : Order → ℕ → ℕ → List Text → FlagSet → List Text × FlagSet
parse_rounds order i taken [] fs = ([], fs)
parse_rounds order i (suc taken) (arg ∷ rest) fs = parse_rounds order (suc i) taken rest fs
parse_rounds order i zero (arg ∷ rest) fs =
    let m = match_flags (order i fs) arg rest 0 fs in
    kept_if m.0 arg (parse_rounds order (suc i) m.1 rest m.2)

-- `FlagSet.Parse`: the arguments for the tool, and the flags.
unfoldable pub parse_flags : Order → List Text → FlagSet → List Text × FlagSet
parse_flags order args fs = parse_rounds order 0 0 args fs

-- `StandardDriverFlags`
abbrev pub standard_driver_flags : (Text → Result ℤ) → FlagSet
standard_driver_flags atoi = int_opt atoi (codes "daemon-port") (
    string_opt (codes "daemon-host") (
      bool_flag (codes "standalone") false (
        bool_flag (codes "list-runtimes") false (
          string_flag (codes "runtime") [] (
            string_flag (codes "config") []
              (string_flag (codes "log-level") (codes "warn") new_flag_set))))))
