-- ===== src/Drivers/Gcc/Tokens.antt =====
-- The command line as a list of tokens, each an argument with the value that it reads, and what
-- `ParseCommandLine` makes of them.
use buildozer.Common.{
  Bool, true, false, ◌||◌, Option, none, some, List, [], ◌∷◌, ◌++◌, if◌then◌else◌, length, drop,
  leb, Text, ◌≡◌, refl, arith, Bool-cases, inl, inr, append_assoc, append-nil, ap, sym, ◌∙◌, All,
}
use buildozer.Drivers.Gcc.{
  ParsedArgs, Kind, compile_only, shared, output, include_dir, define, library, library_dir,
  version, compiler_flag, linker_flag, source, object, library_file, kind, wants_value, take_alone,
  take_value, parse_from, empty_args, detect_link, parse_command_line,
}

pub record Token : Type 0 where
  pub arg : Text
  pub value : Option Text

unfoldable pub tokens : List Text → List Token
tokens [] = []
tokens (arg ∷ []) = record { arg = arg; value = none } ∷ []
tokens (arg ∷ next ∷ rest) =
    let with_value = record { arg = arg; value = some next } ∷ tokens rest in
    let alone = record { arg = arg; value = none } ∷ tokens (next ∷ rest) in
    if wants_value (kind arg) arg then with_value else alone

abbrev pub gather : (Token → List Text) → List Token → List Text
gather f [] = []
gather f (t ∷ ts) = f t ++ gather f ts

-- The lists of `ParsedArgs`.
pub data Field : Type 0 where
  source_files object_files defines include_dirs libraries library_files library_dirs : Field
  compiler_flags linker_flags : Field

abbrev pub get : Field → ParsedArgs → List Text
get Field.source_files p = p.source_files
get Field.object_files p = p.object_files
get Field.defines p = p.defines
get Field.include_dirs p = p.include_dirs
get Field.libraries p = p.libraries
get Field.library_files p = p.library_files
get Field.library_dirs p = p.library_dirs
get Field.compiler_flags p = p.compiler_flags
get Field.linker_flags p = p.linker_flags

-- The list that an argument of a kind goes to.
abbrev pub goes_to : Field → Kind → Bool
goes_to Field.source_files source = true
goes_to Field.object_files object = true
goes_to Field.defines define = true
goes_to Field.include_dirs include_dir = true
goes_to Field.libraries library = true
goes_to Field.library_files library_file = true
goes_to Field.library_dirs library_dir = true
goes_to Field.compiler_flags version = true
goes_to Field.compiler_flags compiler_flag = true
goes_to Field.linker_flags shared = true
goes_to Field.linker_flags linker_flag = true
goes_to _ _ = false

abbrev pub is_option_with_value : Kind → Bool
is_option_with_value include_dir = true
is_option_with_value define = true
is_option_with_value library = true
is_option_with_value library_dir = true
is_option_with_value _ = false

-- What is stored: the value read; or what stands behind `-I`, `-D`, `-l` or `-L` in the argument
-- itself, if anything; or the argument.
abbrev pub stored : Kind → Token → List Text
stored k t = elim t.value [
  | some v ↦ v ∷ []
  | none ↦
      if is_option_with_value k
      then (if leb (length t.arg) 2 then [] else drop 2 t.arg ∷ [])
      else t.arg ∷ []
]

abbrev pub contribution : Field → Token → List Text
contribution f t = if goes_to f (kind t.arg) then stored (kind t.arg) t else []

abbrev pub any_kind : (Kind → Bool) → List Token → Bool
any_kind test [] = false
any_kind test (t ∷ ts) = test (kind t.arg) || any_kind test ts

get-take_alone :
    (f : Field) (k : Kind) (arg : Text) (p : ParsedArgs)
    → get f (take_alone k arg p)
      ≡ get f p ++ (if goes_to f k then stored k (record { arg = arg; value = none }) else [])
unfolding take_alone
get-take_alone f compile_only arg p = ground (arith, append-nil (get f p))
get-take_alone f _ arg p = ground (arith, append-nil (get f p))

get-take_value :
    (f : Field) (k : Kind) (arg value : Text) (p : ParsedArgs)
    → wants_value k arg ≡ true
    → get f (take_value k value p)
      ≡ get f p ++ (if goes_to f k then stored k (record { arg = arg; value = some value }) else [])
unfolding take_value
get-take_value f output arg value p h = ground (arith, append-nil (get f p))
get-take_value f _ arg value p h = ground (arith, append-nil (get f p))

-- One token, whichever of the two ways it is taken.
abbrev pub take : Token → ParsedArgs → ParsedArgs
take t p = elim t.value [
  | none ↦ take_alone (kind t.arg) t.arg p
  | some v ↦ take_value (kind t.arg) v p
]

abbrev pub take_all : List Token → ParsedArgs → ParsedArgs
take_all [] p = p
take_all (t ∷ ts) p = take_all ts (take t p)

-- The loop takes the tokens from left to right.
pub parse_from-tokens :
    (args : List Text) (p : ParsedArgs) → parse_from args p ≡ take_all (tokens args) p
unfolding parse_from tokens
parse_from-tokens [] p = refl
parse_from-tokens (arg ∷ []) p = refl
parse_from-tokens (arg ∷ next ∷ rest) p = elim (Bool-cases (wants_value (kind arg) arg)) [
  | inl wants ↦ rw wants (parse_from-tokens rest (take_value (kind arg) next p))
  | inr alone ↦ rw alone (parse_from-tokens (next ∷ rest) (take_alone (kind arg) arg p))
]

-- Every token that reads a value is of a kind that wants one.
abbrev pub IsLexed : Token → Type 0
IsLexed t = elim t.value [ none ↦ Unit | some v ↦ wants_value (kind t.arg) t.arg ≡ true ]

pub tokens-IsLexed : (args : List Text) → All IsLexed (tokens args)
unfolding tokens
tokens-IsLexed [] = tt
tokens-IsLexed (arg ∷ []) = (tt, tt)
tokens-IsLexed (arg ∷ next ∷ rest) = elim (Bool-cases (wants_value (kind arg) arg)) [
  | inl wants ↦ rw wants (wants, tokens-IsLexed rest)
  | inr alone ↦ rw alone (tt, tokens-IsLexed (next ∷ rest))
]

get-take :
    (f : Field) (arg : Text) (value : Option Text) (p : ParsedArgs)
    → let t : Token = record { arg = arg; value = value } in
      IsLexed t → get f (take t p) ≡ get f p ++ contribution f t
get-take f arg none p h = get-take_alone f (kind arg) arg p
get-take f arg (some v) p h = get-take_value f (kind arg) arg v p h

get-take_all :
    (f : Field) (ts : List Token) (p : ParsedArgs)
    → All IsLexed ts
    → get f (take_all ts p) ≡ get f p ++ gather (contribution f) ts
get-take_all f [] p h = sym (append-nil (get f p))
get-take_all f (t ∷ ts) p (h, hs) =
    get-take_all f ts (take t p) hs
    ∙ (ap (λ l. l ++ gather (contribution f) ts) (get-take f t.arg t.value p h)
        ∙ append_assoc (get f p) _ _)

-- The post-processing touches no list.
get-detect_link : (f : Field) (p : ParsedArgs) → get f (detect_link p) ≡ get f p
unfolding detect_link
get-detect_link f p = ground arith

get-empty_args : (f : Field) (args : List Text) → get f (empty_args args) ≡ []
get-empty_args f args = ground arith

-- Each of the nine lists of the result holds, in order, what the tokens of the command line
-- contribute to it, and nothing else.
pub get-parse_command_line :
    (f : Field) (args : List Text)
    → get f (parse_command_line args) ≡ gather (contribution f) (tokens args)
unfolding parse_command_line
get-parse_command_line f args =
    get-detect_link f _
    ∙ (ap (get f) (parse_from-tokens args (empty_args args))
        ∙ (get-take_all f (tokens args) (empty_args args) (tokens-IsLexed args)
            ∙ ap (λ l. l ++ gather (contribution f) (tokens args)) (get-empty_args f args)))
