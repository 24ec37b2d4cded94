-- ===== src/Drivers/Flags/ByName.antt =====
-- The flags' parser, described without a walk over the flags: an argument that starts with the
-- prefix names a flag up to its first `=`.
pub mod Naming
pub mod Walk
pub mod Parsing
pub mod Spellings
use buildozer.Common.{
  ℕ, zero, suc, ◌==◌, ℤ, Bool, true, false, ◌≡◌, ◌↔◌, Option, none, some, List, [], ◌∷◌, ◌++◌,
  if◌then◌else◌, Text, codes, text_eq, has_prefix, drop, length, free, All,
}
use buildozer.Errors.{Result, ok, err}
use mathlib.Core.List.{Memᴰ}
use buildozer.Drivers.Flags.{
  Value, FlagInfo, FlagSet, prefix, next_of, offered, set_value, Matched, match_flags, Order,
  kept_if,
}

-- What stands before the first `=`, and what stands behind it, if there is one.
unfoldable pub cut : Text → Text × Option Text
cut [] = ([], none)
cut (c ∷ s) = let r = cut s in if c == 61 then ([], some s) else (c ∷ r.0, r.1)

-- The name that an argument gives, and the value behind `=`.
unfoldable pub meaning : Text → Option (Text × Option Text)
unfolding has_prefix
meaning arg = if has_prefix arg prefix then some (cut (drop (length prefix) arg)) else none

unfoldable pub find_flag : Text → FlagSet → Option FlagInfo
find_flag name [] = none
find_flag name (f ∷ fs) =
    let later = find_flag name fs in if text_eq f.name name then some f else later

abbrev pub read_value : FlagInfo → Option Text → List Text → ℕ → Option (Text × ℕ)
read_value info (some value) rest taken = some (value, taken)
read_value info none rest taken =
    if info.is_bool then some (codes "true", taken) else next_of taken rest

abbrev pub write_parsed : FlagInfo → ℕ → Result Value → FlagSet → Matched
write_parsed info taken (err e) fs = (false, taken, fs)
write_parsed info taken (ok v) fs = (true, taken, set_value info.name v fs)

abbrev pub write_read : FlagInfo → ℕ → Option (Text × ℕ) → FlagSet → Matched
write_read info taken none fs = (false, taken, fs)
write_read info taken (some (given, now_taken)) fs =
    write_parsed info now_taken (info.parser given) fs

abbrev pub write_found : Option FlagInfo → Option Text → List Text → ℕ → FlagSet → Matched
write_found none given rest taken fs = (false, taken, fs)
write_found (some info) given rest taken fs =
    write_read info taken (read_value info given rest taken) fs

-- What an argument does that means this, where these are the flags.
abbrev pub write_named :
    List FlagInfo → Option (Text × Option Text) → List Text → ℕ → FlagSet → Matched
write_named infos none rest taken fs = (false, taken, fs)
write_named infos (some (name, given)) rest taken fs =
    write_found (find_flag name infos) given rest taken fs

unfoldable pub parse_by_name : ℕ → List Text → FlagSet → List Text × FlagSet
parse_by_name taken [] fs = ([], fs)
parse_by_name (suc taken) (arg ∷ rest) fs = parse_by_name taken rest fs
parse_by_name zero (arg ∷ rest) fs =
    let m = write_named fs (meaning arg) rest 0 fs in kept_if m.0 arg (parse_by_name m.1 rest m.2)

abbrev pub AreDistinct : List FlagInfo → Type 0
AreDistinct [] = Unit
AreDistinct (f ∷ fs) = All (λ g. text_eq f.name g.name ≡ false) fs × AreDistinct fs

-- The names have no `=`.
abbrev pub AreNames : List FlagInfo → Type 0
AreNames fs = All (λ f. free 61 f.name ≡ true) fs

abbrev pub IsWellFormed : FlagSet → Type 0
IsWellFormed fs = AreDistinct fs × AreNames fs

-- The order gives every flag of the map once.
abbrev pub IsWalk : Order → Type 0
IsWalk order =
    (i : ℕ) (fs : FlagSet)
    → AreDistinct fs
    → AreDistinct (order i fs)
      × ((info : FlagInfo)
          → (Memᴰ info (order i fs) → Memᴰ info fs) × (Memᴰ info fs → Memᴰ info (order i fs)))
