-- ===== src/Drivers/Flags/ByName/Spellings.antt =====
-- The two spellings of a flag with its value, and the registration of flags.
use buildozer.Common.{
  true, false, ◌≡◌, refl, sym, ap, subst, ◌∙◌, arith, inl, inr, Bool-cases, Option, none, some,
  List, [], ◌∷◌, ◌++◌, Text, text_eq, has_prefix, text_eq_iff, free, All,
}
use buildozer.Errors.{Err, Result, ok, err}
use buildozer.Drivers.Flags.{
  Value, FlagInfo, FlagSet, prefix, equals, register_flag, set_value, Order, kept_if, parse_flags,
}
use buildozer.Drivers.Flags.ByName.{
  cut, meaning, find_flag, write_parsed, write_found, parse_by_name, AreDistinct, IsWellFormed,
  IsWalk,
}
use buildozer.Drivers.Flags.ByName.Walk.{All-at, find_flag-Mem}
use buildozer.Drivers.Flags.ByName.Parsing.{set_value-IsWellFormed, parse_flags-by_name}

cut-free : (name : Text) → free 61 name ≡ true → cut name ≡ (name, none)
unfolding cut
cut-free [] h = refl
cut-free (c ∷ name) h = ground (arith, h, cut-free name)

cut-append : (name v : Text) → free 61 name ≡ true → cut (name ++ equals ++ v) ≡ (name, some v)
unfolding cut
cut-append [] v h = refl
cut-append (c ∷ name) v h = ground (arith, h, cut-append name v)

-- The names of registered flags have no `=`.
free-found :
    (name : Text) (fs : FlagSet) (f : FlagInfo)
    → IsWellFormed fs
    → find_flag name fs ≡ some f
    → (free 61 name ≡ true) × (f.name ≡ name)
free-found name fs f h found =
    let m = find_flag-Mem name fs f found in
    let same = (text_eq_iff f.name name).0 m.1 in
    (ap (λ n. free 61 n) (sym same) ∙ All-at (λ x. free 61 x.name ≡ true) fs f h.1 m.0, same)

meaning-alone : (name : Text) → free 61 name ≡ true → meaning (prefix ++ name) ≡ some (name, none)
unfolding meaning has_prefix
meaning-alone name h = ap (λ r. some r) (cut-free name h)

meaning-value :
    (name v : Text)
    → free 61 name ≡ true
    → meaning (prefix ++ (name ++ equals ++ v)) ≡ some (name, some v)
unfolding meaning has_prefix
meaning-value name v h = ap (λ r. some r) (cut-append name v h)

read_step :
    (arg : Text) (rest : List Text) (fs : FlagSet) (name : Text) (given : Option Text)
    (f : FlagInfo)
    → meaning arg ≡ some (name, given)
    → find_flag name fs ≡ some f
    → parse_by_name 0 (arg ∷ rest) fs ≡ (
        let m = write_found (some f) given rest 0 fs in
        kept_if m.0 arg (parse_by_name m.1 rest m.2))
unfolding parse_by_name
read_step arg rest fs name given f e found = rw (e, found) refl

-- The flag is given a value by the next argument.
next_step :
    (name v : Text) (rest : List Text) (fs : FlagSet) (f : FlagInfo) (r : Result Value)
    → IsWellFormed fs
    → find_flag name fs ≡ some f
    → f.is_bool ≡ false
    → f.parser v ≡ r
    → parse_by_name 0 ((prefix ++ name) ∷ v ∷ rest) fs
      ≡ (let m = write_parsed f 1 r fs in kept_if m.0 (prefix ++ name) (parse_by_name 0 rest m.2))
unfolding parse_by_name
next_step name v rest fs f (ok w) h found takes reads =
    read_step (prefix ++ name) (v ∷ rest) fs name none f
      (meaning-alone name (free-found name fs f h found).0) found
    ∙ rw (takes, reads) refl
next_step name v rest fs f (err e) h found takes reads =
    read_step (prefix ++ name) (v ∷ rest) fs name none f
      (meaning-alone name (free-found name fs f h found).0) found
    ∙ rw (takes, reads) refl

value_step :
    (name v : Text) (rest : List Text) (fs : FlagSet) (f : FlagInfo) (r : Result Value)
    → IsWellFormed fs
    → find_flag name fs ≡ some f
    → f.parser v ≡ r
    → parse_by_name 0 ((prefix ++ (name ++ equals ++ v)) ∷ rest) fs ≡ (
        let m = write_parsed f 0 r fs in
        kept_if m.0 (prefix ++ (name ++ equals ++ v)) (parse_by_name 0 rest m.2))
value_step name v rest fs f (ok w) h found reads =
    read_step (prefix ++ (name ++ equals ++ v)) rest fs name (some v) f
      (meaning-value name v (free-found name fs f h found).0) found
    ∙ rw reads refl
value_step name v rest fs f (err e) h found reads =
    read_step (prefix ++ (name ++ equals ++ v)) rest fs name (some v) f
      (meaning-value name v (free-found name fs f h found).0) found
    ∙ rw reads refl

-- The two spellings of a flag with its value are the same, where the flag takes a value and its
-- parser accepts this one: `--buildozer-name value` and `--buildozer-name=value`.
pub parse_flags-spellings :
    (order : Order) (name v : Text) (rest : List Text) (fs : FlagSet) (f : FlagInfo) (w : Value)
    → IsWalk order
    → IsWellFormed fs
    → find_flag name fs ≡ some f
    → f.is_bool ≡ false
    → f.parser v ≡ ok w
    → (parse_flags order ((prefix ++ name) ∷ v ∷ rest) fs
        ≡ parse_flags order ((prefix ++ (name ++ equals ++ v)) ∷ rest) fs)
      × (parse_flags order ((prefix ++ name) ∷ v ∷ rest) fs
          ≡ parse_flags order rest (set_value name w fs))
parse_flags-spellings order name v rest fs f w walk h found takes reads =
    let kept = set_value-IsWellFormed name w fs h in
    let same = (free-found name fs f h found).1 in
    let after = parse_flags-by_name order rest (set_value name w fs) walk kept in
    let one =
      parse_flags-by_name order ((prefix ++ name) ∷ v ∷ rest) fs walk h
      ∙ next_step name v rest fs f (ok w) h found takes reads in
    let two =
      parse_flags-by_name order ((prefix ++ (name ++ equals ++ v)) ∷ rest) fs walk h
      ∙ value_step name v rest fs f (ok w) h found reads in
    (one ∙ sym two, one ∙ ap (λ n. parse_by_name 0 rest (set_value n w fs)) same ∙ sym after)

-- A value that the flag's parser refuses, spelled as the next argument, is lost, and the flag is
-- passed on to the tool.
pub parse_flags-refused :
    (order : Order) (name v : Text) (rest : List Text) (fs : FlagSet) (f : FlagInfo) (e : Err)
    → IsWalk order
    → IsWellFormed fs
    → find_flag name fs ≡ some f
    → f.is_bool ≡ false
    → f.parser v ≡ err e
    → let r = parse_flags order rest fs in
      parse_flags order ((prefix ++ name) ∷ v ∷ rest) fs ≡ ((prefix ++ name) ∷ r.0, r.1)
parse_flags-refused order name v rest fs f e walk h found takes refuses =
    let after = parse_flags-by_name order rest fs walk h in
    parse_flags-by_name order ((prefix ++ name) ∷ v ∷ rest) fs walk h
    ∙ next_step name v rest fs f (err e) h found takes refuses
    ∙ ap (λ (r : List Text × FlagSet). kept_if false (prefix ++ name) r) (sym after)

register_flag-All :
    (P : Text → Type 0) (info : FlagInfo) (fs : FlagSet)
    → P info.name
    → All (λ f. P f.name) fs
    → All (λ f. P f.name) (register_flag info fs)
unfolding register_flag
register_flag-All P info [] own h = (own, tt)
register_flag-All P info (f ∷ fs) own h = elim (Bool-cases (text_eq f.name info.name)) [
  | inl same ↦ rw same (own, h.1)
  | inr other ↦ rw other (h.0, register_flag-All P info fs own h.1)
]

register_flag-AreDistinct :
    (info : FlagInfo) (fs : FlagSet) → AreDistinct fs → AreDistinct (register_flag info fs)
unfolding register_flag
register_flag-AreDistinct info [] h = (tt, tt)
register_flag-AreDistinct info (f ∷ fs) h = elim (Bool-cases (text_eq f.name info.name)) [
  | inl same ↦
      let e = (text_eq_iff f.name info.name).0 same in
      rw same (subst (λ n. All (λ g. text_eq n g.name ≡ false) fs) e h.0, h.1)
  | inr other ↦ rw other (
    register_flag-All (λ n. text_eq f.name n ≡ false) info fs other h.0,
    register_flag-AreDistinct info fs h.1,
  )
]

-- A registration under a name without `=` keeps the flags well-formed.
pub register_flag-IsWellFormed :
    (info : FlagInfo) (fs : FlagSet)
    → free 61 info.name ≡ true
    → IsWellFormed fs
    → IsWellFormed (register_flag info fs)
register_flag-IsWellFormed info fs own h = (
  register_flag-AreDistinct info fs h.0,
  register_flag-All (λ n. free 61 n ≡ true) info fs own h.1,
)
