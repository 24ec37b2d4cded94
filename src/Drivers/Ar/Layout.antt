-- ===== src/Drivers/Ar/Layout.antt =====
-- How a command line of ar is laid out, and what is read from it.
use buildozer.Common.{
  ℕ, true, false, List, [], ◌∷◌, ◌≡◌, ◌≢◌, Text, arith, Bool-cases, inl, inr, ◌⊎◌, length, ◌≤◌, ltb,
  text_eq, text_eq_iff,
}
use buildozer.Drivers.Ar.{
  is_command_string, skip_one, skip_two, skip_option, parse_command_line, parsed, failed,
  missing_arg, no_output_file, validate_and_parse_args,
}

-- Arguments that are all options, with their values, and no command string.
pub data IsOptions : List Text → Type 0 where
  no_options : IsOptions []
  option :
      (arg : Text) (rest : List Text)
      → is_command_string arg ≡ false
      → skip_option arg ≡ skip_one
      → IsOptions rest
      → IsOptions (arg ∷ rest)
  option_with_value :
      (arg value : Text) (rest : List Text)
      → is_command_string arg ≡ false
      → skip_option arg ≡ skip_two
      → IsOptions rest
      → IsOptions (arg ∷ value ∷ rest)

ltb→le2 : (n : ℕ) → ltb n 2 ≡ true → n ≤ 1
ltb→le2 n h = ground arith

ltb→ge2 : (n : ℕ) → ltb n 2 ≡ false → 2 ≤ n
ltb→ge2 n h = ground arith

-- The two errors of the validation, and only they: fewer than two arguments, or no archive. An
-- accepted command line has an archive, and is parsed as `ParseCommandLine` does.
validate_and_parse_args_cases :
    (args : List Text)
    → ((length args ≤ 1) × (validate_and_parse_args args ≡ failed missing_arg))
      ⊎ ((2 ≤ length args)
          × ((parse_command_line args).output_file ≡ [])
          × (validate_and_parse_args args ≡ failed no_output_file))
      ⊎ ((2 ≤ length args)
          × ((parse_command_line args).output_file ≢ [])
          × (validate_and_parse_args args ≡ parsed (parse_command_line args)))
unfolding validate_and_parse_args
validate_and_parse_args_cases args =
    let out = (parse_command_line args).output_file in
    elim (Bool-cases (ltb (length args) 2)) [
      | inl few ↦ inl (ltb→le2 _ few, rw few)
      | inr many ↦ elim (Bool-cases (text_eq out [])) [
        | inl empty ↦ inr (inl (ltb→ge2 _ many, (text_eq_iff out []).0 empty, rw (many, empty)))
        | inr named ↦
            inr (inr (ltb→ge2 _ many, ground (arith, text_eq_iff out []), rw (many, named)))
      ]
    ]
