-- ===== src/Logging/Registry/Routing/Nearest.antt =====
-- The configuration of a logger, described by the texts in front of the dots of its name.
use Prim.Native.Char.{Char}
use Prim.Native.String.{◌++◌ as append}
use text.Mathlib.TextLemmas.{append-nil, append_assoc, nil-append, cons-append}
use buildozer.Common.{
  String, Bool, true, false, Option, none, some, List, [], ◌∷◌, ◌++◌, ◌≡◌, refl, sym, ap, ◌∙◌,
  arith, inl, inr, Bool-cases, Option-cases, if◌then◌else◌, lookup, str_eq_iff,
}
use buildozer.Logging.Registry.{ConfiguredLogger, Registry}
use buildozer.Logging.Registry.Routing.{
  is_dot, with_first, split_dots, join_dots, prefixes, parent_names, first_configured, config_of,
  get_logger_config,
}

abbrev Configs : Type 0
Configs = List (String × ConfiguredLogger)

-- The configuration of the longest text that is the whole of `before` and `rest`, or is `before`
-- with what stands in front of a dot of `rest`.
pub nearest : Configs → String → String → Option ConfiguredLogger
nearest configs before String.[] = lookup before configs
nearest configs before (String.◌∷◌ c rest) =
    let longer = nearest configs (append before (String.◌∷◌ c "")) rest in
    let here = if is_dot c then lookup before configs else none in
    elim longer [ some config ↦ some config | none ↦ here ]

-- The texts of `prefixes`, of parts that stand behind this text.
names_behind : String → List String → List String
names_behind t [] = []
names_behind t (x ∷ []) = []
names_behind t (x ∷ y ∷ rest) = names_behind (append t (append x ".")) (y ∷ rest) ++ append t x ∷ []

-- Parts, each with a dot behind it.
glued : List String → String
glued [] = ""
glued (x ∷ xs) = append (append x ".") (glued xs)

glued-snoc :
    (taken : List String) (x : String)
    → glued (taken ++ x ∷ []) ≡ append (glued taken) (append x ".")
unfolding glued
glued-snoc [] x = append-nil _ ∙ sym (nil-append _)
glued-snoc (y ∷ taken) x =
    ap (append (append y ".")) (glued-snoc taken x) ∙ sym (append_assoc _ _ _)

join_dots-snoc :
    (taken : List String) (x : String) → join_dots (taken ++ x ∷ []) ≡ append (glued taken) x
unfolding glued join_dots
join_dots-snoc [] x = sym (nil-append x)
join_dots-snoc (y ∷ []) x =
    sym (ap (λ s. append s x) (append-nil (append y ".")) ∙ append_assoc y "." x)
join_dots-snoc (y ∷ z ∷ taken) x =
    let g = glued (z ∷ taken) in
    ap (λ s. append y (append "." s)) (join_dots-snoc (z ∷ taken) x)
    ∙ sym (append_assoc (append y ".") g x ∙ append_assoc y "." (append g x))

prefixes-names_behind :
    (taken parts : List String) → prefixes taken parts ≡ names_behind (glued taken) parts
unfolding prefixes names_behind
prefixes-names_behind taken [] = refl
prefixes-names_behind taken (x ∷ []) = refl
prefixes-names_behind taken (x ∷ y ∷ rest) =
    ap (λ ns. ns ++ join_dots (taken ++ x ∷ []) ∷ [])
      (prefixes-names_behind (taken ++ x ∷ []) (y ∷ rest))
    ∙ (ap (λ s. names_behind s (y ∷ rest) ++ join_dots (taken ++ x ∷ []) ∷ []) (glued-snoc taken x)
        ∙ ap (λ s. names_behind (append (glued taken) (append x ".")) (y ∷ rest) ++ s ∷ [])
            (join_dots-snoc taken x))

names_behind-with_first :
    (t piece x : String) (xs : List String)
    → names_behind t (with_first piece (x ∷ xs)) ≡ names_behind (append t piece) (x ∷ xs)
unfolding names_behind
names_behind-with_first t piece x [] = refl
names_behind-with_first t piece x (y ∷ rest) =
    rw (append_assoc t piece (append x "."), append_assoc t piece x, append_assoc piece x ".") refl

split_dots-cons : (s : String) → (x : String) × (xs : List String) × (split_dots s ≡ x ∷ xs)
unfolding split_dots
split_dots-cons String.[] = ("", [], refl)
split_dots-cons (String.◌∷◌ c s) =
    let (x, xs, e) = split_dots-cons s in
    elim (Bool-cases (is_dot c)) [
      | inl dot ↦ ("", split_dots s, rw dot refl)
      | inr no_dot ↦ (append (String.◌∷◌ c "") x, xs, rw (no_dot, e) refl)
    ]

first_configured-snoc :
    (names : List String) (name : String) (configs : Configs)
    → config_of (first_configured (names ++ name ∷ []) configs)
      ≡ elim (config_of (first_configured names configs)) [
        | some config ↦ some config
        | none ↦ lookup name configs
      ]
unfolding first_configured
first_configured-snoc [] name configs = ground (arith, Option-cases (lookup name configs))
first_configured-snoc (n ∷ names) name configs =
    ground (arith, first_configured-snoc names name configs, Option-cases (lookup n configs))

-- The configuration under this name, or else the first one of those.
abbrev own_or_first : Configs → String → List String → Option ConfiguredLogger
own_or_first configs name others = elim (lookup name configs) [
  | some config ↦ some config
  | none ↦ config_of (first_configured others configs)
]

own_or_first-snoc :
    (configs : Configs) (name last : String) (others : List String)
    → own_or_first configs name (others ++ last ∷ []) ≡ elim (own_or_first configs name others) [
      | some config ↦ some config
      | none ↦ lookup last configs
    ]
own_or_first-snoc configs name last others =
    ground (arith, first_configured-snoc others last configs, Option-cases (lookup name configs))

names_behind-dot :
    (t : String) (c : Char) (s : String)
    → is_dot c ≡ true
    → names_behind t (split_dots (String.◌∷◌ c s))
      ≡ names_behind (append t (String.◌∷◌ c "")) (split_dots s) ++ t ∷ []
unfolding split_dots names_behind
names_behind-dot t c s dot =
    let (x, xs, parts) = split_dots-cons s in
    let e = (str_eq_iff (String.◌∷◌ c "") ".").0 dot in
    rw (dot, parts, e, nil-append ".", append-nil t) refl

names_behind-no_dot :
    (t : String) (c : Char) (s : String)
    → is_dot c ≡ false
    → names_behind t (split_dots (String.◌∷◌ c s))
      ≡ names_behind (append t (String.◌∷◌ c "")) (split_dots s)
unfolding split_dots
names_behind-no_dot t c s no_dot =
    let (x, xs, parts) = split_dots-cons s in
    rw (no_dot, parts) (names_behind-with_first t (String.◌∷◌ c "") x xs)

abbrev or_else : Option ConfiguredLogger → Option ConfiguredLogger → Option ConfiguredLogger
or_else (some config) other = some config
or_else none other = other

nearest-cons :
    (configs : Configs) (t : String) (c : Char) (s : String)
    → nearest configs t (String.◌∷◌ c s)
      ≡ or_else
          (nearest configs (append t (String.◌∷◌ c "")) s)
          (if is_dot c then lookup t configs else none)
unfolding nearest
nearest-cons configs t c s =
    ground (arith, Option-cases (nearest configs (append t (String.◌∷◌ c "")) s))

or_else-none : (o : Option ConfiguredLogger) → or_else o none ≡ o
or_else-none none = refl
or_else-none (some config) = refl

own_or_first-or_else :
    (configs : Configs) (name last : String) (others : List String)
    → own_or_first configs name (others ++ last ∷ [])
      ≡ or_else (own_or_first configs name others) (lookup last configs)
own_or_first-or_else configs name last others = ground (
  arith,
  own_or_first-snoc configs name last others,
  Option-cases (own_or_first configs name others),
)

ends :
    (configs : Configs) (t : String)
    → nearest configs t "" ≡ own_or_first configs (append t "") (names_behind t (split_dots ""))
unfolding nearest split_dots names_behind first_configured
ends configs t =
    let own : lookup t configs ≡ own_or_first configs t [] =
      ground (arith, Option-cases (lookup t configs)) in
    own ∙ ap (λ n. own_or_first configs n []) (sym (append-nil t))

nearest-names_behind :
    (configs : Configs) (t s : String)
    → nearest configs t s ≡ own_or_first configs (append t s) (names_behind t (split_dots s))
nearest-names_behind configs t String.[] = ends configs t
nearest-names_behind configs t (String.◌∷◌ c s) =
    let here : String = append t (String.◌∷◌ c "") in
    let later = nearest-names_behind configs here s in
    let whole : append here s ≡ append t (String.◌∷◌ c s) =
      append_assoc t (String.◌∷◌ c "") s
      ∙ ap (append t) (cons-append c "" s ∙ ap (String.◌∷◌ c) (nil-append s)) in
    let found = later ∙ ap (λ n. own_or_first configs n (names_behind here (split_dots s))) whole in
    nearest-cons configs t c s
    ∙ (ap (λ o. or_else o (if is_dot c then lookup t configs else none)) found
        ∙ elim (Bool-cases (is_dot c)) [
          | inl dot ↦
              ap
                (λ (b : Bool).
                  or_else
                    (own_or_first configs (append t (String.◌∷◌ c s))
                      (names_behind here (split_dots s)))
                    (if b then lookup t configs else none))
                dot
              ∙ (sym (
                    own_or_first-or_else configs (append t (String.◌∷◌ c s)) t
                      (names_behind here (split_dots s)))
                  ∙ ap (own_or_first configs (append t (String.◌∷◌ c s)))
                      (sym (names_behind-dot t c s dot)))
          | inr no_dot ↦
              ap
                (λ (b : Bool).
                  or_else
                    (own_or_first configs (append t (String.◌∷◌ c s))
                      (names_behind here (split_dots s)))
                    (if b then lookup t configs else none))
                no_dot
              ∙ (or_else-none _
                  ∙ ap (own_or_first configs (append t (String.◌∷◌ c s)))
                      (sym (names_behind-no_dot t c s no_dot)))
        ])

-- A logger's configuration is the one under its name, or else under the longest text in front of
-- one of its dots that has one.
pub get_logger_config-nearest :
    (name : String) (r : Registry) → get_logger_config name r ≡ nearest r.logger_configs "" name
unfolding get_logger_config parent_names glued
get_logger_config-nearest name r =
    let all = nearest-names_behind r.logger_configs "" name in
    let parents = prefixes-names_behind [] (split_dots name) in
    sym (
      all
      ∙ (ap (λ n. own_or_first r.logger_configs n (names_behind "" (split_dots name)))
            (nil-append name)
          ∙ ap (own_or_first r.logger_configs name) (sym parents)))
