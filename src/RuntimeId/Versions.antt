-- ===== src/RuntimeId/Versions.antt =====
-- Versions as text, and back.
use buildozer.Common.{
  ℕ, ◌<◌, ◌^◌, true, false, ◌||◌, Option, none, some, List, [], ◌∷◌, ◌++◌, Text, codes, text_eq,
  format_uint, split, join, ◌≡◌, ◌≢◌, refl, arith, ap, ◌∙◌, is_digit, all_digits,
  format_uint-all_digits, parse_uint32-format_uint, format_uint-ne-nil, free, all_free, split-join,
  append_assoc, append-nil,
}
use buildozer.Proto.Runtime.{Version}
use buildozer.RuntimeId.Names.{parse_version, version_to_string, major_of, second, third}

-- The numbers of the version have 32 bits, and a patch number stands behind a minor one.
pub data IsVersion : Version → Type 0 where
  major_only : (a : ℕ) → a < 2 ^ 32 → IsVersion (record { major = a; minor = none; patch = none })
  with_minor :
      (a b : ℕ)
      → a < 2 ^ 32
      → b < 2 ^ 32
      → IsVersion (record { major = a; minor = some b; patch = none })
  with_patch :
      (a b c : ℕ)
      → a < 2 ^ 32
      → b < 2 ^ 32
      → c < 2 ^ 32
      → IsVersion (record { major = a; minor = some b; patch = some c })

all_digits-free :
    (sep : ℕ) (s : Text) → is_digit sep ≡ false → all_digits s ≡ true → free sep s ≡ true
all_digits-free sep [] h k = refl
all_digits-free sep (c ∷ s) h k = ground (arith, all_digits-free sep s h)

starts_with_digit :
    (s t : Text)
    → s ≢ []
    → all_digits s ≡ true
    → (text_eq (s ++ t) [] || text_eq (s ++ t) (codes "unknown")) ≡ false
unfolding text_eq
starts_with_digit [] t h k = absurd (h refl)
starts_with_digit (c ∷ s) t h k = ground arith

-- The parts behind the major number.
abbrev minor_parts : Option ℕ → Option ℕ → List Text
minor_parts none patch = []
minor_parts (some b) none = format_uint b ∷ []
minor_parts (some b) (some c) = format_uint b ∷ format_uint c ∷ []

version_to_string-join :
    (v : Version)
    → IsVersion v
    → version_to_string (some v) ≡ join b'.' (format_uint v.major) (minor_parts v.minor v.patch)
unfolding version_to_string join
version_to_string-join _ (major_only a ha) = append-nil _ ∙ append-nil _
version_to_string-join _ (with_minor a b ha hb) = append-nil _
version_to_string-join _ (with_patch a b c ha hb hc) = append_assoc (format_uint a) _ _

format_uint-free : (sep n : ℕ) → is_digit sep ≡ false → free sep (format_uint n) ≡ true
format_uint-free sep n h = all_digits-free sep (format_uint n) h (format_uint-all_digits n)

minor_parts-free : (v : Version) → IsVersion v → all_free b'.' (minor_parts v.minor v.patch) ≡ true
minor_parts-free _ (major_only a ha) = refl
minor_parts-free _ (with_minor a b ha hb) = ground (arith, format_uint-free b'.' b refl)
minor_parts-free _ (with_patch a b c ha hb hc) =
    ground (arith, format_uint-free b'.' b refl, format_uint-free b'.' c refl)

split-version_to_string :
    (v : Version)
    → IsVersion v
    → split b'.' (version_to_string (some v)) ≡ format_uint v.major ∷ minor_parts v.minor v.patch
split-version_to_string v h =
    ap (split b'.') (version_to_string-join v h)
    ∙ split-join b'.' (format_uint v.major) (minor_parts v.minor v.patch)
        (format_uint-free b'.' v.major refl) (minor_parts-free v h)

not_unknown :
    (v : Version)
    → (text_eq (version_to_string (some v)) []
        || text_eq (version_to_string (some v)) (codes "unknown"))
      ≡ false
unfolding version_to_string
not_unknown v = rw append_assoc (
    starts_with_digit (format_uint v.major) _ (format_uint-ne-nil v.major)
      (format_uint-all_digits v.major))

read_back :
    (v : Version)
    → IsVersion v
    → let parts = format_uint v.major ∷ minor_parts v.minor v.patch in
      record { major = major_of parts; minor = second parts; patch = third parts } ≡ v
read_back _ (major_only a ha) = ground (arith, parse_uint32-format_uint a ha)
read_back _ (with_minor a b ha hb) =
    ground (arith, parse_uint32-format_uint a ha, parse_uint32-format_uint b hb)
read_back _ (with_patch a b c ha hb hc) = ground (
  arith,
  parse_uint32-format_uint a ha,
  parse_uint32-format_uint b hb,
  parse_uint32-format_uint c hc,
)

-- A version of 32-bit numbers is read back from its text.
pub parse_version-version_to_string :
    (v : Version) → IsVersion v → parse_version (version_to_string (some v)) ≡ v
unfolding parse_version
parse_version-version_to_string v h =
    rw (not_unknown v, split-version_to_string v h) (read_back v h)

free-append :
    (sep : ℕ) (s t : Text) → free sep s ≡ true → free sep t ≡ true → free sep (s ++ t) ≡ true
free-append sep [] t h k = k
free-append sep (c ∷ s) t h k = ground (arith, free-append sep s t)

-- No dash stands in the text of a version.
pub version_to_string-free :
    (v : Version) → IsVersion v → free b'-' (version_to_string (some v)) ≡ true
unfolding version_to_string
version_to_string-free _ (major_only a ha) =
    rw (append-nil (format_uint a ++ []), append-nil (format_uint a)) (format_uint-free b'-' a refl)
version_to_string-free _ (with_minor a b ha hb) = rw append-nil (
    free-append b'-' (format_uint a) (b'.' ∷ format_uint b) (format_uint-free b'-' a refl)
      (format_uint-free b'-' b refl))
version_to_string-free _ (with_patch a b c ha hb hc) =
    free-append b'-' (format_uint a ++ b'.' ∷ format_uint b) (b'.' ∷ format_uint c)
      (free-append b'-' (format_uint a) (b'.' ∷ format_uint b) (format_uint-free b'-' a refl)
        (format_uint-free b'-' b refl))
      (format_uint-free b'-' c refl)
