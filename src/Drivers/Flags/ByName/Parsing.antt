-- ===== src/Drivers/Flags/ByName/Parsing.antt =====
-- The parser of the flags reads what the arguments mean, whatever the order of its walks.
use buildozer.Common.{
  ℕ, zero, suc, true, false, ◌≡◌, refl, inl, inr, Bool-cases, Option, none, some, List, [], ◌∷◌,
  Text, text_eq, free, All,
}
use buildozer.Errors.{Result, ok, err}
use buildozer.Drivers.Flags.{Value, FlagInfo, FlagSet, set_value, Order, parse_rounds, parse_flags}
use buildozer.Drivers.Flags.ByName.{
  meaning, find_flag, read_value, write_parsed, write_read, write_found, write_named, parse_by_name,
  AreDistinct, IsWellFormed, IsWalk,
}
use buildozer.Drivers.Flags.ByName.Walk.{match_flags-meaning}

-- A value is set, and the names stay.
set_value-All :
    (P : Text → Type 0) (name : Text) (v : Value) (fs : FlagSet)
    → All (λ f. P f.name) fs
    → All (λ f. P f.name) (set_value name v fs)
unfolding set_value
set_value-All P name v [] h = tt
set_value-All P name v (f ∷ fs) h = (
  elim (Bool-cases (text_eq f.name name)) [ inl same ↦ rw same h.0 | inr other ↦ rw other h.0 ],
  set_value-All P name v fs h.1,
)

set_value-AreDistinct :
    (name : Text) (v : Value) (fs : FlagSet) → AreDistinct fs → AreDistinct (set_value name v fs)
unfolding set_value
set_value-AreDistinct name v [] h = tt
set_value-AreDistinct name v (f ∷ fs) h = (
  elim (Bool-cases (text_eq f.name name)) [
    | inl same ↦ rw same (set_value-All (λ n. text_eq f.name n ≡ false) name v fs h.0)
    | inr other ↦ rw other (set_value-All (λ n. text_eq f.name n ≡ false) name v fs h.0)
  ],
  set_value-AreDistinct name v fs h.1,
)

pub set_value-IsWellFormed :
    (name : Text) (v : Value) (fs : FlagSet) → IsWellFormed fs → IsWellFormed (set_value name v fs)
set_value-IsWellFormed name v fs h =
    (set_value-AreDistinct name v fs h.0, set_value-All (λ n. free 61 n ≡ true) name v fs h.1)

write_read-IsWellFormed :
    (info : FlagInfo) (taken : ℕ) (read : Option (Text × ℕ)) (fs : FlagSet)
    → IsWellFormed fs
    → IsWellFormed (write_read info taken read fs).2
write_read-IsWellFormed info taken none fs h = h
write_read-IsWellFormed info taken (some (given, now_taken)) fs h = go (info.parser given)
  where
    go : (r : Result Value) → IsWellFormed (write_parsed info now_taken r fs).2
    go (err e) = h
    go (ok v) = set_value-IsWellFormed info.name v fs h

write_found-IsWellFormed :
    (found : Option FlagInfo) (given : Option Text) (rest : List Text) (taken : ℕ) (fs : FlagSet)
    → IsWellFormed fs
    → IsWellFormed (write_found found given rest taken fs).2
write_found-IsWellFormed none given rest taken fs h = h
write_found-IsWellFormed (some info) given rest taken fs h =
    write_read-IsWellFormed info taken (read_value info given rest taken) fs h

write_named-IsWellFormed :
    (m : Option (Text × Option Text)) (rest : List Text) (fs : FlagSet)
    → IsWellFormed fs
    → IsWellFormed (write_named fs m rest 0 fs).2
write_named-IsWellFormed none rest fs h = h
write_named-IsWellFormed (some (name, given)) rest fs h =
    write_found-IsWellFormed (find_flag name fs) given rest 0 fs h

parse_rounds-by_name :
    (order : Order) (i taken : ℕ) (args : List Text) (fs : FlagSet)
    → IsWalk order
    → IsWellFormed fs
    → parse_rounds order i taken args fs ≡ parse_by_name taken args fs
unfolding parse_rounds parse_by_name
parse_rounds-by_name order i zero [] fs walk h = refl
parse_rounds-by_name order i (suc taken) [] fs walk h = refl
parse_rounds-by_name order i (suc taken) (arg ∷ rest) fs walk h =
    parse_rounds-by_name order (suc i) taken rest fs walk h
parse_rounds-by_name order i zero (arg ∷ rest) fs walk h =
    let m = write_named fs (meaning arg) rest 0 fs in
    rw
      (
        match_flags-meaning order i arg rest fs walk h,
        parse_rounds-by_name order (suc i) m.1 rest m.2 walk
            (write_named-IsWellFormed (meaning arg) rest fs h),
      )
      refl

-- Of flags with distinct names, none of which holds `=`, the parser reads what the arguments mean
-- one by one: an argument with the prefix names the flag with the name up to its first `=`, and
-- gives it what stands behind, or `true` or the next argument. The order in which Go walks the map
-- of the flags plays no part.
pub parse_flags-by_name :
    (order : Order) (args : List Text) (fs : FlagSet)
    → IsWalk order
    → IsWellFormed fs
    → parse_flags order args fs ≡ parse_by_name 0 args fs
unfolding parse_flags
parse_flags-by_name order args fs walk h = parse_rounds-by_name order 0 0 args fs walk h
