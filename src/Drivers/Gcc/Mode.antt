-- ===== src/Drivers/Gcc/Mode.antt =====
-- The mode, the output file and the `-shared` mark of the result, by the tokens of the command
-- line, and what becomes of linker options spelled `-Wl,…`.
use buildozer.Common.{
  Bool, true, false, ◌||◌, ◌&&◌, not, Option, none, some, List, [], ◌∷◌, ◌++◌, if◌then◌else◌, Text,
  codes, ◌≡◌, refl, arith, ap, ◌∙◌, All,
}
use buildozer.Drivers.Gcc.{
  CompileMode, mode_compile_only, mode_link, mode_compile_and_link, ParsedArgs, Kind, compile_only,
  shared, output, compiler_flag, kind, take_alone, take_value, empty_args, is_empty, detect_link,
  parse_command_line,
}
use buildozer.Drivers.Gcc.Tokens.{
  Token, tokens, Field, get, any_kind, take, take_all, IsLexed, tokens-IsLexed, parse_from-tokens,
  get-parse_command_line, gather, contribution, goes_to,
}

abbrev pub is_c : Kind → Bool
is_c compile_only = true
is_c _ = false

abbrev pub is_shared : Kind → Bool
is_shared shared = true
is_shared _ = false

abbrev pub is_output : Kind → Bool
is_output output = true
is_output _ = false

-- The value of the last `-o` that has one.
abbrev pub last_output : Text → List Token → Text
last_output found [] = found
last_output found (t ∷ ts) =
    last_output
      (if is_output (kind t.arg) then elim t.value [ none ↦ found | some v ↦ v ] else found) ts

take_scalars :
    (arg : Text) (value : Option Text) (p : ParsedArgs)
    → let t : Token = record { arg = arg; value = value } in
      IsLexed t
      → ((take t p).mode ≡ (if is_c (kind arg) then mode_compile_only else p.mode))
        × ((take t p).is_shared_library ≡ (is_shared (kind arg) || p.is_shared_library))
        × ((take t p).output_file ≡ (
            if is_output (kind arg)
            then elim value [ none ↦ p.output_file | some v ↦ v ]
            else p.output_file))
        × ((take t p).original_args ≡ p.original_args)
unfolding take_alone take_value
take_scalars arg none p h = ground arith
take_scalars arg (some v) p h = ground arith

take_all_scalars :
    (ts : List Token) (p : ParsedArgs)
    → All IsLexed ts
    → ((take_all ts p).mode ≡ (if any_kind is_c ts then mode_compile_only else p.mode))
      × ((take_all ts p).is_shared_library ≡ (any_kind is_shared ts || p.is_shared_library))
      × ((take_all ts p).output_file ≡ last_output p.output_file ts)
      × ((take_all ts p).original_args ≡ p.original_args)
take_all_scalars [] p h = (refl, refl, refl, refl)
take_all_scalars (t ∷ ts) p (h, hs) =
    let (m, s, o, a) = take_scalars t.arg t.value p h in
    let (ms, ss, os, as_) = take_all_scalars ts (take t p) hs in
    (ground arith, ground arith, os ∙ ap (λ v. last_output v ts) o, as_ ∙ a)

-- The mode that the tokens and the files of the result call for.
abbrev pub expected_mode : List Token → ParsedArgs → CompileMode
expected_mode ts p =
    if any_kind is_c ts
    then mode_compile_only
    else if is_empty p.source_files && not (is_empty p.object_files)
    then mode_link
    else mode_compile_and_link

detect_link_scalars :
    (p : ParsedArgs)
    → ((detect_link p).is_shared_library ≡ p.is_shared_library)
      × ((detect_link p).output_file ≡ p.output_file)
      × ((detect_link p).original_args ≡ p.original_args)
unfolding detect_link
detect_link_scalars p = ground arith

detect_link-mode :
    (p : ParsedArgs) (c : Bool)
    → p.mode ≡ (if c then mode_compile_only else mode_compile_and_link)
    → (detect_link p).mode ≡ (
        if c
        then mode_compile_only
        else if is_empty (detect_link p).source_files && not (is_empty (detect_link p).object_files)
        then mode_link
        else mode_compile_and_link)
unfolding detect_link
detect_link-mode p c h = ground arith

or-false : (b : Bool) → (b || false) ≡ b
or-false b = ground arith

-- The rest of the result: the mode is compile-only exactly if some argument is `-c` (the value
-- of an option does not count), otherwise link exactly if there are object files and no source
-- files, and otherwise compile-and-link; `-shared` is marked exactly if some argument is
-- `-shared`; the output file is the value of the last `-o` that has one, or empty; and the
-- command line is kept.
pub parse_command_line_scalars :
    (args : List Text)
    → let p = parse_command_line args in
      (p.mode ≡ expected_mode (tokens args) p)
      × (p.is_shared_library ≡ any_kind is_shared (tokens args))
      × (p.output_file ≡ last_output [] (tokens args))
      × (p.original_args ≡ args)
unfolding parse_command_line
parse_command_line_scalars args =
    let start = empty_args args in
    let lexed = tokens-IsLexed args in
    let p = take_all (tokens args) start in
    let (m, s, o, a) = take_all_scalars (tokens args) start lexed in
    let (s', o', a') = detect_link_scalars p in
    rw (parse_from-tokens args start)
      (detect_link-mode p _ m, s' ∙ (s ∙ or-false _), o' ∙ o, a' ∙ a)

pub kind-linker_option : (rest : Text) → kind (codes "-Wl," ++ rest) ≡ compiler_flag
unfolding kind
kind-linker_option rest = refl

pub tokens-linker_option :
    (rest : Text) (args : List Text)
    → tokens ((codes "-Wl," ++ rest) ∷ args)
      ≡ record { arg = codes "-Wl," ++ rest; value = none } ∷ tokens args
unfolding tokens
tokens-linker_option rest [] = refl
tokens-linker_option rest (a ∷ args) = rw (kind-linker_option rest)

contribution-linker_option :
    (f : Field) (rest : Text)
    → contribution f (record { arg = codes "-Wl," ++ rest; value = none })
      ≡ (if goes_to f compiler_flag then (codes "-Wl," ++ rest) ∷ [] else [])
contribution-linker_option f rest = rw (kind-linker_option rest)

-- An argument that starts with `-Wl,`, the compiler's spelling of options for the linker, goes
-- to the compiler flags. In front of any command line it adds itself to them, and adds nothing
-- to any other list, the linker flags included.
pub parse-linker_option :
    (f : Field) (rest : Text) (args : List Text)
    → get f (parse_command_line ((codes "-Wl," ++ rest) ∷ args)) ≡ (
        if goes_to f compiler_flag
        then (codes "-Wl," ++ rest) ∷ get f (parse_command_line args)
        else get f (parse_command_line args))
parse-linker_option f rest args =
    get-parse_command_line f _
    ∙ (ap (gather (contribution f)) (tokens-linker_option rest args)
        ∙ (ap (λ l. l ++ gather (contribution f) (tokens args)) (contribution-linker_option f rest)
            ∙ ground (arith, get-parse_command_line f args)))
