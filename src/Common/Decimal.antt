-- ===== src/Common/Decimal.antt =====
-- Go's `strconv.FormatUint` and `strconv.ParseUint` in base 10, the latter for 32 bits.
use Prim.Native.Nat.{ℕ, zero, suc, ◌+◌, ◌-◌, ◌*◌, ◌/◌, ◌%◌, ◌<◌, ◌≤◌, ◌^◌}
use mathlib.Core.Path.{◌≡◌, refl, ap, ◌∙◌}
use mathlib.Core.Logic.{inl, inr, ◌≢◌}
use mathlib.Core.Bool.{Bool, true, false, ◌&&◌}
use mathlib.Core.Option.{Option, none, some}
use mathlib.Core.List.{[], ◌∷◌, ◌++◌}
use native.Mathlib.Omega.{arith}
use buildozer.Common.Tests.{ltb, leb, if◌then◌else◌, Bool-cases}
use buildozer.Common.Bytes.{Text}

abbrev pub is_digit : ℕ → Bool
is_digit c = leb 48 c && leb c 57

-- One digit per unit of fuel.
unfoldable pub format_from : ℕ → ℕ → Text
format_from zero n = []
format_from (suc fuel) n =
    let front = format_from fuel (n / 10) in
    if ltb n 10 then (48 + n) ∷ [] else front ++ (48 + n % 10) ∷ []

unfoldable pub format_uint : ℕ → Text
unfolding format_from
format_uint n = format_from (suc n) n

unfoldable pub read_digits : ℕ → Text → Option ℕ
read_digits acc [] = some acc
read_digits acc (c ∷ s) =
    let value = read_digits (acc * 10 + (c - 48)) s in if is_digit c then value else none

unfoldable pub parse_uint32 : Text → Option ℕ
unfolding read_digits
parse_uint32 [] = none
parse_uint32 (c ∷ s) = elim (read_digits 0 (c ∷ s)) [
  | none ↦ none
  | some n ↦ if ltb n (2 ^ 32) then some n else none
]

read_digits-snoc :
    (acc : ℕ) (s : Text) (d m : ℕ)
    → read_digits acc s ≡ some m
    → is_digit d ≡ true
    → read_digits acc (s ++ d ∷ []) ≡ some (m * 10 + (d - 48))
unfolding read_digits
read_digits-snoc acc [] d m h k = ground arith
read_digits-snoc acc (c ∷ s) d m h k = elim (Bool-cases (is_digit c)) [
  | inl digit ↦ ground (arith, read_digits-snoc (acc * 10 + (c - 48)) s d m (ground arith) k)
  | inr other ↦ absurd (ground arith)
]

is_digit-add : (d : ℕ) → d < 10 → is_digit (48 + d) ≡ true
is_digit-add d h = ground arith

mod_lt : (n : ℕ) → n % 10 < 10
mod_lt n = omega arith

value_snoc : (n : ℕ) → n / 10 * 10 + (48 + n % 10 - 48) ≡ n
value_snoc n = omega arith

div_lt : (n fuel : ℕ) → n < suc fuel → ltb n 10 ≡ false → n / 10 < fuel
div_lt n fuel h large = let big : 10 ≤ n = ground arith in omega arith

read_digits-format_from : (fuel n : ℕ) → n < fuel → read_digits 0 (format_from fuel n) ≡ some n
unfolding format_from read_digits
read_digits-format_from zero n h = absurd (omega arith)
read_digits-format_from (suc fuel) n h = elim (Bool-cases (ltb n 10)) [
  | inl small ↦ rw (small, is_digit-add n (ground arith)) (ap some (omega arith))
  | inr large ↦ rw large (
      read_digits-snoc 0 (format_from fuel (n / 10)) (48 + n % 10) (n / 10)
        (read_digits-format_from fuel (n / 10) (div_lt n fuel h large))
        (is_digit-add (n % 10) (mod_lt n))
      ∙ ap some (value_snoc n))
]

read_digits-format_uint : (n : ℕ) → read_digits 0 (format_uint n) ≡ some n
unfolding format_uint
read_digits-format_uint n = read_digits-format_from (suc n) n (omega arith)

-- Every byte is a digit.
abbrev pub all_digits : Text → Bool
all_digits [] = true
all_digits (c ∷ s) = is_digit c && all_digits s

all_digits-snoc :
    (s : Text) (d : ℕ) → all_digits s ≡ true → is_digit d ≡ true → all_digits (s ++ d ∷ []) ≡ true
all_digits-snoc [] d h k = ground arith
all_digits-snoc (c ∷ s) d h k = ground (arith, all_digits-snoc s d)

pub format_from-all_digits : (fuel n : ℕ) → all_digits (format_from fuel n) ≡ true
unfolding format_from
format_from-all_digits zero n = refl
format_from-all_digits (suc fuel) n = elim (Bool-cases (ltb n 10)) [
  | inl small ↦ rw (small, is_digit-add n (ground arith)) refl
  | inr large ↦ rw large (
      all_digits-snoc (format_from fuel (n / 10)) (48 + n % 10)
        (format_from-all_digits fuel (n / 10)) (is_digit-add (n % 10) (mod_lt n)))
]

pub format_uint-all_digits : (n : ℕ) → all_digits (format_uint n) ≡ true
unfolding format_uint
format_uint-all_digits n = format_from-all_digits (suc n) n

snoc-ne-nil : (s : Text) (d : ℕ) → s ++ d ∷ [] ≢ []
snoc-ne-nil [] d h = ground (arith, h)
snoc-ne-nil (c ∷ s) d h = ground (arith, h)

pub format_uint-ne-nil : (n : ℕ) → format_uint n ≢ []
unfolding format_uint
format_uint-ne-nil n = elim (Bool-cases (ltb n 10)) [
  | inl small ↦ rw small (λ h. ground (arith, h))
  | inr large ↦ rw large (snoc-ne-nil (format_from n (n / 10)) (48 + n % 10))
]

parse_uint32-digits :
    (s : Text) (n : ℕ) → s ≢ [] → read_digits 0 s ≡ some n → n < 2 ^ 32 → parse_uint32 s ≡ some n
unfolding parse_uint32
parse_uint32-digits [] n h e b = absurd (h refl)
parse_uint32-digits (c ∷ s) n h e b = rw (e, parse_uint32) (ground (arith, b))

-- A number of 32 bits is read back from its digits.
pub parse_uint32-format_uint : (n : ℕ) → n < 2 ^ 32 → parse_uint32 (format_uint n) ≡ some n
parse_uint32-format_uint n h =
    parse_uint32-digits (format_uint n) n (format_uint-ne-nil n) (read_digits-format_uint n) h
