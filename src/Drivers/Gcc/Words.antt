-- ===== src/Drivers/Gcc/Words.antt =====
-- The command line of gcc by the literal spellings of its options.
use buildozer.Common.{
  Bool, false, ◌||◌, ◌&&◌, not, Option, none, some, List, [], ◌∷◌, if◌then◌else◌, Text, codes,
  text_eq, ◌≡◌, refl, arith, ap, ◌∙◌, map, Bool-cases, inl, inr,
}
use buildozer.Drivers.Gcc.{
  mode_compile_only, mode_link, mode_compile_and_link, Kind, kind, is_empty, parse_command_line,
}
use buildozer.Drivers.Gcc.Tokens.{Token, tokens, any_kind}
use buildozer.Drivers.Gcc.Mode.{is_c, is_shared, last_output, parse_command_line_scalars}
use buildozer.Drivers.Gcc.Spelling.{
  reads_next, wants_value-reads_next, is_c-text_eq, is_shared-text_eq, is_output-text_eq,
}

-- The arguments, each with its value where it has one.
pub words : List Text → List (Text × Option Text)
words [] = []
words (arg ∷ []) = (arg, none) ∷ []
words (arg ∷ next ∷ rest) =
    let with_value = (arg, some next) ∷ words rest in
    let alone = (arg, none) ∷ words (next ∷ rest) in if reads_next arg then with_value else alone

-- Whether the option stands on the command line, and not as the value of another one.
abbrev pub has_word : Text → List (Text × Option Text) → Bool
has_word option [] = false
has_word option ((arg, value) ∷ rest) = text_eq arg option || has_word option rest

-- The value of the last `-o` that has one.
abbrev pub value_of_o : Text → List (Text × Option Text) → Text
value_of_o found [] = found
value_of_o found ((arg, none) ∷ rest) = value_of_o found rest
value_of_o found ((arg, some value) ∷ rest) =
    value_of_o (if text_eq arg (codes "-o") then value else found) rest

abbrev token_of : Text × Option Text → Token
token_of (arg, value) = record { arg = arg; value = value }

tokens-words : (args : List Text) → tokens args ≡ map token_of (words args)
unfolding tokens words
tokens-words [] = refl
tokens-words (arg ∷ []) = refl
tokens-words (arg ∷ next ∷ rest) = elim (Bool-cases (reads_next arg)) [
  | inl reads ↦
      rw (wants_value-reads_next arg, reads)
        (ap (λ ts. token_of (arg, some next) ∷ ts) (tokens-words rest))
  | inr alone ↦
      rw (wants_value-reads_next arg, alone)
        (ap (λ ts. token_of (arg, none) ∷ ts) (tokens-words (next ∷ rest)))
]

any_kind-has_word :
    (test : Kind → Bool) (option : Text) (ws : List (Text × Option Text))
    → ((arg : Text) → test (kind arg) ≡ text_eq arg option)
    → any_kind test (map token_of ws) ≡ has_word option ws
any_kind-has_word test option [] h = refl
any_kind-has_word test option ((arg, value) ∷ ws) h =
    ground (arith, h arg, any_kind-has_word test option ws h)

last_output-value_of_o :
    (found : Text) (ws : List (Text × Option Text))
    → last_output found (map token_of ws) ≡ value_of_o found ws
last_output-value_of_o found [] = refl
last_output-value_of_o found ((arg, none) ∷ ws) = ground (arith, last_output-value_of_o found ws)
last_output-value_of_o found ((arg, some v) ∷ ws) =
    ap (λ b. last_output (if b then v else found) (map token_of ws)) (is_output-text_eq arg)
    ∙ last_output-value_of_o (if text_eq arg (codes "-o") then v else found) ws

-- The rest of the result, by the literal spellings of the options, where what follows `-o`, or a
-- bare `-I`, `-D`, `-l` or `-L`, is a value and no option: the mode is compile-only exactly if `-c`
-- is given, otherwise link exactly if there are object files and no source files, and otherwise
-- compile-and-link; the library is marked as shared exactly if `-shared` is given; the output file
-- is the value of the last `-o` that has one, or empty; and the command line is kept.
pub parse_command_line-words :
    (args : List Text)
    → let p = parse_command_line args in
      (p.mode ≡ (
        if has_word (codes "-c") (words args)
        then mode_compile_only
        else if is_empty p.source_files && not (is_empty p.object_files)
        then mode_link
        else mode_compile_and_link))
      × (p.is_shared_library ≡ has_word (codes "-shared") (words args))
      × (p.output_file ≡ value_of_o [] (words args))
      × (p.original_args ≡ args)
parse_command_line-words args =
    let (mode, lib, out, kept) = parse_command_line_scalars args in
    let same = tokens-words args in
    let ws = words args in
    let p = parse_command_line args in
    (
      mode
          ∙ ap
              (λ (b : Bool).
                if b
                then mode_compile_only
                else if is_empty p.source_files && not (is_empty p.object_files)
                then mode_link
                else mode_compile_and_link)
              (ap (any_kind is_c) same ∙ any_kind-has_word is_c (codes "-c") ws is_c-text_eq),
      lib
          ∙ (ap (any_kind is_shared) same
              ∙ any_kind-has_word is_shared (codes "-shared") ws is_shared-text_eq),
      out ∙ (ap (last_output []) same ∙ last_output-value_of_o [] ws),
      kept,
    )
