-- ===== src/Drivers/FlagSamples.antt =====
-- The standard flags of a driver, walked in another order than they were registered in, on which
-- the theorems of the flags' parser are applied.
use mathlib.Core.List.{Memᴰ}
use mathlib.Core.List.Memᴰ.{head, tail}
use buildozer.Common.{
  ℤ, pos, true, false, none, some, List, [], ◌∷◌, ◌++◌, ◌≡◌, refl, ◌∙◌, Text, codes, text_eq,
  if◌then◌else◌,
}
use buildozer.Errors.{text, wrapped, Result, ok, err}
use buildozer.Drivers.Flags.{
  int_value, FlagInfo, FlagSet, register_flag, prefix, equals, set_value, Order, parse_flags,
  standard_driver_flags,
}
use buildozer.Drivers.Flags.ByName.{IsWalk, IsWellFormed, find_flag, parse_by_name}
use buildozer.Drivers.Flags.ByName.Walk.{text_eq_comm}
use buildozer.Drivers.Flags.ByName.Parsing.{parse_flags-by_name}
use buildozer.Drivers.Flags.ByName.Spellings.{
  parse_flags-spellings, parse_flags-refused, register_flag-IsWellFormed,
}

-- The first two flags change places.
abbrev swapped : Order
swapped i [] = []
swapped i (f ∷ []) = f ∷ []
swapped i (f ∷ g ∷ fs) = g ∷ f ∷ fs

Mem-swap :
    (info f g : FlagInfo) (fs : List FlagInfo) → Memᴰ info (g ∷ f ∷ fs) → Memᴰ info (f ∷ g ∷ fs)
Mem-swap info f g fs (head e) = tail (head e)
Mem-swap info f g fs (tail (head e)) = head e
Mem-swap info f g fs (tail (tail m)) = tail (tail m)

swapped-IsWalk : IsWalk swapped
swapped-IsWalk i [] h = (h, λ info. (λ m. m, λ m. m))
swapped-IsWalk i (f ∷ []) h = (h, λ info. (λ m. m, λ m. m))
swapped-IsWalk i (f ∷ g ∷ fs) h = (
  ((text_eq_comm g.name f.name ∙ h.0.0, h.1.0), (h.0.1, h.1.1)),
  λ info. (Mem-swap info f g fs, Mem-swap info g f fs),
)

abbrev atoi : Text → Result ℤ
atoi s = if text_eq s (codes "80") then ok (pos 80) else err (text "invalid syntax")

abbrev flags : FlagSet
flags = standard_driver_flags atoi

flags-IsWellFormed : IsWellFormed flags
flags-IsWellFormed = register_flag-IsWellFormed _ _ refl (
    register_flag-IsWellFormed _ _ refl (
      register_flag-IsWellFormed _ _ refl (
        register_flag-IsWellFormed _ _ refl (
          register_flag-IsWellFormed _ _ refl
            (register_flag-IsWellFormed _ _ refl (register_flag-IsWellFormed _ _ refl (tt, tt)))))))

-- `gcc --buildozer-config=x -c --buildozer-standalone`
abbrev args : List Text
args = codes "--buildozer-config=x" ∷ codes "-c" ∷ codes "--buildozer-standalone" ∷ []

parse_flags-by_name_example : parse_flags swapped args flags ≡ parse_by_name 0 args flags
parse_flags-by_name_example =
    parse_flags-by_name swapped args flags swapped-IsWalk flags-IsWellFormed

abbrev port : Text
port = codes "daemon-port"

abbrev port_flag : FlagInfo
port_flag = record {
  name = port;
  value = none;
  parser =
      λ s. elim (atoi s) [ ok n ↦ ok (int_value n) | err e ↦ err (wrapped "invalid int: %w" e) ];
  is_optional = true;
  is_bool = false;
}

port-found : find_flag port flags ≡ some port_flag
unfolding find_flag register_flag text_eq
port-found = refl

-- `--buildozer-daemon-port 80 -c`
parse_flags-spellings_example :
    (parse_flags swapped ((prefix ++ port) ∷ codes "80" ∷ codes "-c" ∷ []) flags
      ≡ parse_flags swapped ((prefix ++ (port ++ equals ++ codes "80")) ∷ codes "-c" ∷ []) flags)
    × (parse_flags swapped ((prefix ++ port) ∷ codes "80" ∷ codes "-c" ∷ []) flags
        ≡ parse_flags swapped (codes "-c" ∷ []) (set_value port (int_value (pos 80)) flags))
unfolding text_eq
parse_flags-spellings_example =
    parse_flags-spellings swapped port (codes "80") (codes "-c" ∷ []) flags port_flag
      (int_value (pos 80)) swapped-IsWalk flags-IsWellFormed port-found refl refl

-- `--buildozer-daemon-port many -c`
parse_flags-refused_example :
    let r = parse_flags swapped (codes "-c" ∷ []) flags in
    parse_flags swapped ((prefix ++ port) ∷ codes "many" ∷ codes "-c" ∷ []) flags
    ≡ ((prefix ++ port) ∷ r.0, r.1)
unfolding text_eq
parse_flags-refused_example =
    parse_flags-refused swapped port (codes "many") (codes "-c" ∷ []) flags port_flag
      (wrapped "invalid int: %w" (text "invalid syntax")) swapped-IsWalk flags-IsWellFormed
      port-found refl refl
