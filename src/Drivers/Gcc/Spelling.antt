-- ===== src/Drivers/Gcc/Spelling.antt =====
-- What the parser of gcc does with an argument, by the literal spellings of the options.
use buildozer.Common.{
  ℕ, Bool, true, false, ◌||◌, ◌&&◌, not, [], ◌∷◌, if◌then◌else◌, Text, codes, text_eq, has_prefix,
  leb, length, ◌≡◌, refl, arith, ap, sym, subst, ◌∙◌, text_eq_iff, Bool-cases, inl, inr,
}
use buildozer.Drivers.Gcc.{
  Kind, compile_only, shared, output, include_dir, define, library, library_dir, version,
  compiler_flag, linker_flag, kind, file_kind, one_of, is_compiler_only_flag, wants_value,
}
use buildozer.Drivers.Gcc.Mode.{is_c, is_shared, is_output}

-- The arguments that are followed by their value.
abbrev pub reads_next : Text → Bool
reads_next arg =
    text_eq arg (codes "-o")
    || text_eq arg (codes "-I")
    || text_eq arg (codes "-D")
    || text_eq arg (codes "-l")
    || text_eq arg (codes "-L")

-- The `switch` by its conditions.
record Tests : Type 0 where
  c : Bool
  s : Bool
  o : Bool
  i : Bool
  d : Bool
  l : Bool
  dir : Bool
  v : Bool
  dash : Bool
  flag : Bool

abbrev chosen : Tests → Kind → Kind
chosen t file =
    if t.c
    then compile_only
    else if t.s
    then shared
    else if t.o
    then output
    else if t.i
    then include_dir
    else if t.d
    then define
    else if t.l
    then library
    else if t.dir
    then library_dir
    else if t.v
    then version
    else if t.dash
    then (if t.flag then compiler_flag else linker_flag)
    else file

abbrev tests_of : Text → Tests
tests_of arg = record {
  c = text_eq arg (codes "-c");
  s = text_eq arg (codes "-shared");
  o = text_eq arg (codes "-o");
  i = has_prefix arg (codes "-I");
  d = has_prefix arg (codes "-D");
  l = has_prefix arg (codes "-l");
  dir = has_prefix arg (codes "-L");
  v = one_of arg ("--version" ∷ "-v" ∷ "-print-version" ∷ []);
  dash = has_prefix arg (codes "-");
  flag = is_compiler_only_flag arg;
}

-- What is read off a case, for any conditions.
abbrev IsPlain : Kind → Type 0
IsPlain k =
    (is_c k ≡ false)
    × (is_shared k ≡ false)
    × (is_output k ≡ false)
    × ((arg : Text) → wants_value k arg ≡ false)

file_kind-IsPlain : (arg : Text) → IsPlain (file_kind arg)
unfolding file_kind
file_kind-IsPlain arg = (ground arith, ground arith, ground arith, λ a. ground arith)

kind-chosen : (arg : Text) → kind arg ≡ chosen (tests_of arg) (file_kind arg)
unfolding kind
kind-chosen arg = refl

is_c-chosen : (t : Tests) (file : Kind) → IsPlain file → is_c (chosen t file) ≡ t.c
is_c-chosen t file (h, _, _, _) = ground (arith, h)

is_shared-chosen :
    (t : Tests) (file : Kind) → IsPlain file → is_shared (chosen t file) ≡ (not t.c && t.s)
is_shared-chosen t file (_, h, _, _) = ground (arith, h)

is_output-chosen :
    (t : Tests) (file : Kind)
    → IsPlain file
    → is_output (chosen t file) ≡ (not t.c && (not t.s && t.o))
is_output-chosen t file (_, _, h, _) = ground (arith, h)

wants_value-chosen :
    (t : Tests) (file : Kind) (arg : Text)
    → IsPlain file
    → wants_value (chosen t file) arg
      ≡ (not t.c && (not t.s && (t.o || ((t.i || t.d || t.l || t.dir) && leb (length arg) 2))))
wants_value-chosen t file arg (_, _, _, h) = ground (arith, h arg)

-- What holds of a literal holds of an argument that is spelled like it.
at_literal :
    (P : Text → Type 0) (arg literal : Text) → text_eq arg literal ≡ true → P literal → P arg
at_literal P arg literal e h = subst P (sym ((text_eq_iff arg literal).0 e)) h

bare-option :
    (x : ℕ) (arg : Text)
    → (has_prefix arg (45 ∷ x ∷ []) && leb (length arg) 2) ≡ text_eq arg (45 ∷ x ∷ [])
unfolding has_prefix text_eq
bare-option x [] = ground arith
bare-option x (a ∷ []) = ground arith
bare-option x (a ∷ b ∷ []) = ground arith
bare-option x (a ∷ b ∷ c ∷ rest) = ground arith

abbrev conditions : Text → Bool
conditions arg =
    not (text_eq arg (codes "-c"))
    && (not (text_eq arg (codes "-shared"))
        && (text_eq arg (codes "-o")
            || ((has_prefix arg (codes "-I")
                  || has_prefix arg (codes "-D")
                  || has_prefix arg (codes "-l")
                  || has_prefix arg (codes "-L"))
                && leb (length arg) 2)))

either-and :
    (i d l dir w : Bool)
    → ((i || d || l || dir) && w) ≡ ((i && w) || (d && w) || (l && w) || (dir && w))
either-and i d l dir w = ground arith

options-reads_next :
    (arg : Text)
    → text_eq arg (codes "-c") ≡ false
    → text_eq arg (codes "-shared") ≡ false
    → conditions arg ≡ reads_next arg
options-reads_next arg no_c no_s =
    rw
      (
        no_c,
        no_s,
        either-and (has_prefix arg (codes "-I")) (has_prefix arg (codes "-D"))
            (has_prefix arg (codes "-l")) (has_prefix arg (codes "-L")) (leb (length arg) 2),
        bare-option 73 arg,
        bare-option 68 arg,
        bare-option 108 arg,
        bare-option 76 arg,
      )
      (ground arith)

conditions-reads_next : (arg : Text) → conditions arg ≡ reads_next arg
unfolding text_eq has_prefix
conditions-reads_next arg = elim (Bool-cases (text_eq arg (codes "-c"))) [
  | inl c ↦ at_literal (λ a. conditions a ≡ reads_next a) arg (codes "-c") c refl
  | inr no_c ↦ elim (Bool-cases (text_eq arg (codes "-shared"))) [
    | inl s ↦ at_literal (λ a. conditions a ≡ reads_next a) arg (codes "-shared") s refl
    | inr no_s ↦ options-reads_next arg no_c no_s
  ]
]

pub wants_value-reads_next : (arg : Text) → wants_value (kind arg) arg ≡ reads_next arg
wants_value-reads_next arg =
    ap (λ k. wants_value k arg) (kind-chosen arg)
    ∙ wants_value-chosen (tests_of arg) (file_kind arg) arg (file_kind-IsPlain arg)
    ∙ conditions-reads_next arg

pub is_c-text_eq : (arg : Text) → is_c (kind arg) ≡ text_eq arg (codes "-c")
is_c-text_eq arg =
    ap is_c (kind-chosen arg) ∙ is_c-chosen (tests_of arg) (file_kind arg) (file_kind-IsPlain arg)

pub is_shared-text_eq : (arg : Text) → is_shared (kind arg) ≡ text_eq arg (codes "-shared")
unfolding text_eq
is_shared-text_eq arg =
    ap is_shared (kind-chosen arg)
    ∙ is_shared-chosen (tests_of arg) (file_kind arg) (file_kind-IsPlain arg)
    ∙ elim (Bool-cases (text_eq arg (codes "-c"))) [
      | inl c ↦
          at_literal
            (λ a.
              (not (text_eq a (codes "-c")) && text_eq a (codes "-shared"))
              ≡ text_eq a (codes "-shared"))
            arg (codes "-c") c refl
      | inr no_c ↦ ground (arith, no_c)
    ]

pub is_output-text_eq : (arg : Text) → is_output (kind arg) ≡ text_eq arg (codes "-o")
unfolding text_eq
is_output-text_eq arg =
    let P = λ (a : Text).
      (not (text_eq a (codes "-c"))
        && (not (text_eq a (codes "-shared")) && text_eq a (codes "-o")))
      ≡ text_eq a (codes "-o") in
    ap is_output (kind-chosen arg)
    ∙ is_output-chosen (tests_of arg) (file_kind arg) (file_kind-IsPlain arg)
    ∙ elim (Bool-cases (text_eq arg (codes "-o"))) [
      | inl o ↦ at_literal P arg (codes "-o") o refl
      | inr no_o ↦ ground (arith, no_o)
    ]
