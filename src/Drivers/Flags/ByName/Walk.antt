-- ===== src/Drivers/Flags/ByName/Walk.antt =====
-- A walk over the flags finds the one that the argument names, in whatever order it goes.
use mathlib.Core.List.{Memᴰ}
use mathlib.Core.List.Memᴰ.{head, tail, not-nil}
use buildozer.Common.{
  ℕ, true, false, ◌≡◌, refl, sym, ap, subst, arith, inl, inr, Bool-cases, Option-cases, Option,
  none, some, List, [], ◌∷◌, ◌∙◌, Text, text_eq, text_eq_iff, free, All,
}
use buildozer.Errors.{Result-cases}
use buildozer.Drivers.Flags.{FlagInfo, FlagSet, offered, match_flags, Order}
use buildozer.Drivers.Flags.ByName.{
  meaning, find_flag, read_value, write_named, AreDistinct, AreNames, IsWellFormed, IsWalk,
}
use buildozer.Drivers.Flags.ByName.Naming.{offered-meaning}

-- A name that one flag has, and no flag behind it has the same, is no other flag's.
find_flag-absent :
    (f : FlagInfo) (name : Text) (fs : List FlagInfo)
    → text_eq f.name name ≡ true
    → All (λ g. text_eq f.name g.name ≡ false) fs
    → find_flag name fs ≡ none
unfolding find_flag
find_flag-absent f name [] e h = refl
find_flag-absent f name (g ∷ fs) e h = ground (
  arith,
  find_flag-absent f name fs e h.1,
  h.0,
  e,
  text_eq_iff f.name name,
  text_eq_iff f.name g.name,
  text_eq_iff g.name name,
)

pub find_flag-Mem :
    (name : Text) (fs : List FlagInfo) (f : FlagInfo)
    → find_flag name fs ≡ some f
    → Memᴰ f fs × (text_eq f.name name ≡ true)
unfolding find_flag
find_flag-Mem name [] f e = absurd (ground (arith, e))
find_flag-Mem name (g ∷ fs) f e = elim (Bool-cases (text_eq g.name name)) [
  | inl same ↦
      let eq : g ≡ f = ground (arith, e, same) in
      (head (sym eq), ap (λ (x : FlagInfo). text_eq x.name name) (sym eq) ∙ same)
  | inr other ↦
      let later = find_flag-Mem name fs f (ground (arith, e, other)) in (tail later.0, later.1)
]

pub All-at :
    (P : FlagInfo → Type 0) (fs : List FlagInfo) (f : FlagInfo) → All P fs → Memᴰ f fs → P f
All-at P [] f h m = absurd (not-nil m)
All-at P (g ∷ fs) f h (head e) = subst (λ x. P x) (sym e) h.0
All-at P (g ∷ fs) f h (tail m) = All-at P fs f h.1 m

All-of :
    (P : FlagInfo → Type 0) (fs : List FlagInfo) → ((f : FlagInfo) → Memᴰ f fs → P f) → All P fs
All-of P [] h = tt
All-of P (f ∷ fs) h = (h f (head refl), All-of P fs (λ g m. h g (tail m)))

find_flag-of_Mem :
    (name : Text) (fs : List FlagInfo) (f : FlagInfo)
    → AreDistinct fs
    → Memᴰ f fs
    → text_eq f.name name ≡ true
    → find_flag name fs ≡ some f
unfolding find_flag
find_flag-of_Mem name [] f h m same = absurd (not-nil m)
find_flag-of_Mem name (g ∷ fs) f h (head e) same =
    let equal = subst (λ (x : FlagInfo). text_eq x.name name ≡ true) e same in
    ground (arith, equal, ap (λ (x : FlagInfo). some x) (sym e))
find_flag-of_Mem name (g ∷ fs) f h (tail m) same = ground (
  arith,
  find_flag-of_Mem name fs f h.1 m same,
  same,
  All-at (λ x. text_eq g.name x.name ≡ false) fs f h.0 m,
  text_eq_iff f.name name,
  text_eq_iff g.name name,
  text_eq_iff g.name f.name,
)

-- Two lists with the same flags, each once.
find_flag-same :
    (name : Text) (xs ys : List FlagInfo)
    → AreDistinct xs
    → AreDistinct ys
    → ((f : FlagInfo) → (Memᴰ f xs → Memᴰ f ys) × (Memᴰ f ys → Memᴰ f xs))
    → find_flag name xs ≡ find_flag name ys
find_flag-same name xs ys hx hy both = elim (Option-cases (find_flag name xs)) [
  | inr (f, found) ↦
      let m = find_flag-Mem name xs f found in
      found ∙ sym (find_flag-of_Mem name ys f hy ((both f).0 m.0) m.1)
  | inl none_here ↦ elim (Option-cases (find_flag name ys)) [
    | inl none_there ↦ none_here ∙ sym none_there
    | inr (f, found) ↦
        let m = find_flag-Mem name ys f found in
        let there = find_flag-of_Mem name xs f hx ((both f).1 m.0) m.1 in
        absurd (ground (arith, none_here, there))
  ]
]

pub text_eq_comm : (s t : Text) → text_eq s t ≡ text_eq t s
text_eq_comm s t =
    ground
      (arith, text_eq_iff s t, text_eq_iff t s, Bool-cases (text_eq s t), Bool-cases (text_eq t s))

-- A walk over flags of which none has the name.
match_flags-absent :
    (infos : List FlagInfo) (arg : Text) (rest : List Text) (taken : ℕ) (fs : FlagSet) (name : Text)
    (given : Option Text)
    → AreNames infos
    → meaning arg ≡ some (name, given)
    → find_flag name infos ≡ none
    → match_flags infos arg rest taken fs ≡ (false, taken, fs)
unfolding match_flags find_flag
match_flags-absent [] arg rest taken fs name given h e missing = refl
match_flags-absent (f ∷ infos) arg rest taken fs name given h e missing =
    let offer = offered-meaning f arg rest taken h.0 in
    let later =
      match_flags-absent infos arg rest taken fs name given h.1 e (ground (arith, missing)) in
    ground (arith, offer, e, later, missing, text_eq_comm name f.name)

match_flags-meaningless :
    (infos : List FlagInfo) (arg : Text) (rest : List Text) (taken : ℕ) (fs : FlagSet)
    → AreNames infos
    → meaning arg ≡ none
    → match_flags infos arg rest taken fs ≡ (false, taken, fs)
unfolding match_flags
match_flags-meaningless [] arg rest taken fs h e = refl
match_flags-meaningless (f ∷ infos) arg rest taken fs h e =
    let offer = offered-meaning f arg rest taken h.0 in
    ground (arith, offer, e, match_flags-meaningless infos arg rest taken fs h.1 e)

offered-read_value :
    (f : FlagInfo) (arg : Text) (rest : List Text) (taken : ℕ) (name : Text) (given : Option Text)
    → free 61 f.name ≡ true
    → meaning arg ≡ some (name, given)
    → text_eq f.name name ≡ true
    → offered f arg rest taken ≡ read_value f given rest taken
offered-read_value f arg rest taken name given h e same =
    let offer = offered-meaning f arg rest taken h in
    ground (arith, offer, e, same, text_eq_comm name f.name)

offered-nothing :
    (f : FlagInfo) (arg : Text) (rest : List Text) (taken : ℕ) (name : Text) (given : Option Text)
    → free 61 f.name ≡ true
    → meaning arg ≡ some (name, given)
    → text_eq f.name name ≡ false
    → offered f arg rest taken ≡ none
offered-nothing f arg rest taken name given h e other =
    let offer = offered-meaning f arg rest taken h in
    ground (arith, offer, e, other, text_eq_comm name f.name)

-- A walk over distinct flags does what the argument means for the one that it names.
match_flags-write_named :
    (infos : List FlagInfo) (arg : Text) (rest : List Text) (fs : FlagSet) (name : Text)
    (given : Option Text)
    → AreDistinct infos
    → AreNames infos
    → meaning arg ≡ some (name, given)
    → match_flags infos arg rest 0 fs ≡ write_named infos (some (name, given)) rest 0 fs
unfolding match_flags find_flag
match_flags-write_named [] arg rest fs name given distinct names e = refl
match_flags-write_named (f ∷ infos) arg rest fs name given distinct names e =
    elim (Bool-cases (text_eq f.name name)) [
      | inl same ↦
          let only = find_flag-absent f name infos same distinct.0 in
          let offer = offered-read_value f arg rest 0 name given names.0 e same in
          elim (Option-cases (read_value f given rest 0)) [
            | inl nothing ↦
                let later = match_flags-absent infos arg rest 0 fs name given names.1 e only in
                ground (arith, offer, nothing, later, same)
            | inr ((value, taken), read) ↦
                let later = match_flags-absent infos arg rest taken fs name given names.1 e only in
                ground (arith, offer, read, later, same, Result-cases (f.parser value))
          ]
      | inr other ↦
          let offer = offered-nothing f arg rest 0 name given names.0 e other in
          let later = match_flags-write_named infos arg rest fs name given distinct.1 names.1 e in
          ground (arith, offer, later, other)
    ]

-- With the well-formed flags of a set, in the order of a walk over them.
pub match_flags-meaning :
    (order : Order) (i : ℕ) (arg : Text) (rest : List Text) (fs : FlagSet)
    → IsWalk order
    → IsWellFormed fs
    → match_flags (order i fs) arg rest 0 fs ≡ write_named fs (meaning arg) rest 0 fs
match_flags-meaning order i arg rest fs walk h =
    let w = walk i fs h.0 in
    let names : AreNames (order i fs) =
      All-of (λ f. free 61 f.name ≡ true) (order i fs)
        (λ f m. All-at (λ g. free 61 g.name ≡ true) fs f h.1 ((w.1 f).0 m)) in
    elim (Option-cases (meaning arg)) [
      | inl e ↦ match_flags-meaningless (order i fs) arg rest 0 fs names e ∙ rw e refl
      | inr ((name, given), e) ↦
          let met = match_flags-write_named (order i fs) arg rest fs name given w.0 names e in
          let same = find_flag-same name (order i fs) fs w.0 h.0 w.1 in
          met ∙ ground (arith, same, e)
    ]
