-- ===== src/Common/Split.antt =====
-- Go's `strings.Split` at one byte, and the joining of parts by it.
use Prim.Native.Nat.{ℕ}
use mathlib.Core.Path.{◌≡◌, refl}
use mathlib.Core.Bool.{Bool, true, ◌&&◌, not}
use mathlib.Core.List.{List, [], ◌∷◌, ◌++◌}
use native.Mathlib.Omega.{arith}
use buildozer.Common.Tests.{◌==◌, if◌then◌else◌}
use buildozer.Common.Bytes.{Text}

abbrev pub push : ℕ → List Text → List Text
push c [] = (c ∷ []) ∷ []
push c (part ∷ parts) = (c ∷ part) ∷ parts

unfoldable pub split : ℕ → Text → List Text
split sep [] = [] ∷ []
split sep (c ∷ s) = let parts = split sep s in if c == sep then [] ∷ parts else push c parts

-- The parts with the separator between them.
unfoldable pub join : ℕ → Text → List Text → Text
join sep part [] = part
join sep part (next ∷ parts) = part ++ sep ∷ join sep next parts

-- The separator does not occur.
abbrev pub free : ℕ → Text → Bool
free sep [] = true
free sep (c ∷ s) = not (c == sep) && free sep s

abbrev pub all_free : ℕ → List Text → Bool
all_free sep [] = true
all_free sep (part ∷ parts) = free sep part && all_free sep parts

split-free : (sep : ℕ) (part : Text) → free sep part ≡ true → split sep part ≡ part ∷ []
unfolding split
split-free sep [] h = refl
split-free sep (c ∷ s) h = ground (arith, split-free sep s)

split-append :
    (sep : ℕ) (part rest : Text)
    → free sep part ≡ true
    → split sep (part ++ sep ∷ rest) ≡ part ∷ split sep rest
unfolding split
split-append sep [] rest h = ground arith
split-append sep (c ∷ s) rest h = ground (arith, split-append sep s rest)

-- Parts that are free of the separator are found again.
pub split-join :
    (sep : ℕ) (part : Text) (parts : List Text)
    → free sep part ≡ true
    → all_free sep parts ≡ true
    → split sep (join sep part parts) ≡ part ∷ parts
unfolding join
split-join sep part [] h k = split-free sep part h
split-join sep part (next ∷ parts) h k =
    rw (split-append sep part (join sep next parts) h) (ground (arith, split-join sep next parts))
