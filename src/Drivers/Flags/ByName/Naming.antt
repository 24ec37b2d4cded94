-- ===== src/Drivers/Flags/ByName/Naming.antt =====
-- What an argument offers a flag, by the name that the argument gives.
use buildozer.Common.{
  ℕ, true, false, ◌&&◌, ◌≡◌, refl, arith, inl, inr, Bool-cases, Option-cases, Option, none, some,
  List, [], ◌∷◌, ◌++◌, if◌then◌else◌, append_assoc, Text, text_eq, has_prefix, drop, length, free,
  is_some,
}
use buildozer.Drivers.Flags.{FlagInfo, prefix, equals, offered}
use buildozer.Drivers.Flags.ByName.{cut, meaning, read_value}

text_eq-append :
    (p n a : Text) → text_eq a (p ++ n) ≡ (has_prefix a p && text_eq (drop (length p) a) n)
unfolding text_eq has_prefix
text_eq-append [] n a = refl
text_eq-append (c ∷ p) n [] = refl
text_eq-append (c ∷ p) n (d ∷ a) = ground (arith, text_eq-append p n a)

has_prefix-append :
    (p n a : Text) → has_prefix a (p ++ n) ≡ (has_prefix a p && has_prefix (drop (length p) a) n)
unfolding has_prefix
has_prefix-append [] n a = refl
has_prefix-append (c ∷ p) n [] = refl
has_prefix-append (c ∷ p) n (d ∷ a) = ground (arith, has_prefix-append p n a)

-- A text that is a name, or a name, `=` and a value.
text_eq-cut :
    (s n : Text)
    → free 61 n ≡ true
    → text_eq s n ≡ (text_eq (cut s).0 n && (if is_some (cut s).1 then false else true))
unfolding text_eq cut
text_eq-cut [] [] h = refl
text_eq-cut [] (d ∷ n) h = refl
text_eq-cut (c ∷ s) [] h = ground arith
text_eq-cut (c ∷ s) (d ∷ n) h = ground (arith, h, text_eq-cut s n)

has_prefix-cut :
    (s n : Text)
    → free 61 n ≡ true
    → has_prefix s (n ++ equals) ≡ (text_eq (cut s).0 n && is_some (cut s).1)
unfolding text_eq has_prefix cut
has_prefix-cut [] [] h = refl
has_prefix-cut [] (d ∷ n) h = refl
has_prefix-cut (c ∷ s) [] h = ground arith
has_prefix-cut (c ∷ s) (d ∷ n) h = ground (arith, h, has_prefix-cut s n)

drop-cut :
    (s n v : Text)
    → free 61 n ≡ true
    → text_eq (cut s).0 n ≡ true
    → (cut s).1 ≡ some v
    → drop (length (n ++ equals)) s ≡ v
unfolding text_eq cut
drop-cut [] n v h e k = absurd (ground (arith, k))
drop-cut (c ∷ s) [] v h e k = ground (arith, e, k)
drop-cut (c ∷ s) (d ∷ n) v h e k = ground (arith, h, e, k, drop-cut s n v)

drop-append : (p n a : Text) → drop (length (p ++ n)) a ≡ drop (length n) (drop (length p) a)
drop-append [] n a = refl
drop-append (c ∷ p) [] [] = refl
drop-append (c ∷ p) (d ∷ n) [] = refl
drop-append (c ∷ p) n (d ∷ a) = drop-append p n a

-- What an argument that means this offers a flag.
abbrev pub named : FlagInfo → Option (Text × Option Text) → List Text → ℕ → Option (Text × ℕ)
named info none rest taken = none
named info (some (name, given)) rest taken =
    if text_eq name info.name then read_value info given rest taken else none

-- What an argument that starts with the prefix and goes on like this offers a flag.
abbrev behind : FlagInfo → Text → List Text → ℕ → Option (Text × ℕ)
behind info s rest taken =
    if text_eq s info.name
    then read_value info none rest taken
    else if has_prefix s (info.name ++ equals)
    then some (drop (length (info.name ++ equals)) s, taken)
    else none

behind-cut :
    (info : FlagInfo) (s : Text) (rest : List Text) (taken : ℕ)
    → free 61 info.name ≡ true
    → behind info s rest taken ≡ named info (some (cut s)) rest taken
behind-cut info s rest taken h =
    let whole = text_eq-cut s info.name h in
    let start = has_prefix-cut s info.name h in
    elim (Bool-cases (text_eq (cut s).0 info.name)) [
      | inl same ↦ elim (Option-cases (cut s).1) [
        | inl alone ↦ ground (arith, whole, start, same, alone)
        | inr (v, given) ↦
            ground (arith, whole, start, same, given, drop-cut s info.name v h same given)
      ]
      | inr other ↦ ground (arith, whole, start, other)
    ]

-- As `offered`, behind any prefix.
abbrev offered_behind : Text → FlagInfo → Text → List Text → ℕ → Option (Text × ℕ)
offered_behind p info arg rest taken =
    if text_eq arg (p ++ info.name)
    then read_value info none rest taken
    else if has_prefix arg ((p ++ info.name) ++ equals)
    then some (drop (length ((p ++ info.name) ++ equals)) arg, taken)
    else none

offered_behind-behind :
    (p : Text) (info : FlagInfo) (arg : Text) (rest : List Text) (taken : ℕ)
    → offered_behind p info arg rest taken
      ≡ (if has_prefix arg p then behind info (drop (length p) arg) rest taken else none)
offered_behind-behind p info arg rest taken =
    rw
      (
        append_assoc p info.name equals,
        text_eq-append p info.name arg,
        has_prefix-append p (info.name ++ equals) arg,
        drop-append p (info.name ++ equals) arg,
      )
      (ground arith)

pub offered-meaning :
    (info : FlagInfo) (arg : Text) (rest : List Text) (taken : ℕ)
    → free 61 info.name ≡ true
    → offered info arg rest taken ≡ named info (meaning arg) rest taken
unfolding offered meaning
offered-meaning info arg rest taken h = ground (
  arith,
  offered_behind-behind prefix info arg rest taken,
  behind-cut info (drop (length prefix) arg) rest taken h,
)
