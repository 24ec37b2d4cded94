-- ===== src/Logging/Registry/Routing/Reach.antt =====
-- Which records reach which sinks.
use buildozer.Common.{
  pos, negsuc, String, Bool, true, false, ◌&&◌, Option, none, some, List, [], ◌∷◌, ◌≡◌, ◌↔◌, refl,
  arith, inl, inr, Bool-cases, Option-cases, if◌then◌else◌, lookup, lookup-insert, str_eq,
  str_eq_iff, sym,
}
use buildozer.Logging.Registry.{
  Level, level_leb, Sink, ConfiguredLogger, Registry, contains, set_sink_level,
}
use buildozer.Logging.Registry.Routing.Nearest.{nearest, get_logger_config-nearest}
use buildozer.Logging.Registry.Routing.{
  parent_names, first_configured, config_of, name_of, get_logger_config, find_resolved_logger_name,
  AttributeOrGroup, deliver, route, logger_of, log, receivers,
}

first_configured-lookup :
    (names : List String) (configs : List (String × ConfiguredLogger)) (config : ConfiguredLogger)
    → config_of (first_configured names configs) ≡ some config
    → lookup (name_of (first_configured names configs)) configs ≡ some config
unfolding first_configured
first_configured-lookup [] configs config e = absurd (ground (arith, e))
first_configured-lookup (name ∷ names) configs config e =
    elim (Option-cases (lookup name configs)) [
      | inl unset ↦
          rw (unset, first_configured)
            (first_configured-lookup names configs config (ground (arith, e, unset)))
      | inr (found, there) ↦ rw (there, first_configured) (ground (arith, e, there))
    ]

effective_level_lem :
    (c g l : Level)
    → level_leb (if level_leb c g then g else c) l ≡ (level_leb g l && level_leb c l)
unfolding level_leb
effective_level_lem (pos c) (pos g) (pos l) = ground arith
effective_level_lem (pos c) (pos g) (negsuc l) = ground arith
effective_level_lem (pos c) (negsuc g) (pos l) = ground arith
effective_level_lem (pos c) (negsuc g) (negsuc l) = ground arith
effective_level_lem (negsuc c) (pos g) (pos l) = ground arith
effective_level_lem (negsuc c) (pos g) (negsuc l) = ground arith
effective_level_lem (negsuc c) (negsuc g) (pos l) = ground arith
effective_level_lem (negsuc c) (negsuc g) (negsuc l) = ground arith

abbrev lets_pass : Level → Option Sink → Bool
lets_pass level none = false
lets_pass level (some sink) = sink.handler level

contains-deliver :
    (sink_name : String) (level : Level) (attrs : List AttributeOrGroup) (names : List String)
    (r : Registry)
    → contains sink_name (receivers (deliver level attrs names r))
      ≡ (contains sink_name names && lets_pass level (lookup sink_name r.sinks))
unfolding contains deliver
contains-deliver sink_name level attrs [] r = refl
contains-deliver sink_name level attrs (name ∷ names) r =
    elim (Option-cases (lookup name r.sinks)) [
      | inl missing ↦ ground (
        arith,
        missing,
        contains-deliver sink_name level attrs names r,
        str_eq_iff name sink_name,
      )
      | inr (sink, there) ↦ ground (
        arith,
        there,
        contains-deliver sink_name level attrs names r,
        str_eq_iff name sink_name,
        Bool-cases (sink.handler level),
      )
    ]

-- Where a configuration routes a logger's records, it is the one that is kept under the name that
-- the status reports for this logger.
find_resolved_logger_name-get_logger_config :
    (name : String) (r : Registry) (config : ConfiguredLogger)
    → get_logger_config name r ≡ some config
    → lookup (find_resolved_logger_name name r) r.logger_configs ≡ some config
unfolding get_logger_config find_resolved_logger_name
find_resolved_logger_name-get_logger_config name r config e =
    elim (Option-cases (lookup name r.logger_configs)) [
      | inl unset ↦
          rw (unset, find_resolved_logger_name)
            (first_configured-lookup (parent_names name) r.logger_configs config
              (ground (arith, e, unset)))
      | inr (own, there) ↦ rw (there, find_resolved_logger_name) (ground (arith, e, there))
    ]

contains-route :
    (name sink_name : String) (level : Level) (attrs : List AttributeOrGroup) (r : Registry)
    (config : ConfiguredLogger)
    → get_logger_config name r ≡ some config
    → contains sink_name (receivers (route name level attrs r)) ≡ (
        (level_leb r.global_level level && level_leb config.level level)
        && (contains sink_name config.sink_names && lets_pass level (lookup sink_name r.sinks)))
unfolding route contains
contains-route name sink_name level attrs r config set = ground (
  arith,
  set,
  effective_level_lem config.level r.global_level level,
  contains-deliver sink_name level attrs config.sink_names r,
)

contains-route_unset :
    (name sink_name : String) (level : Level) (attrs : List AttributeOrGroup) (r : Registry)
    → get_logger_config name r ≡ none
    → contains sink_name (receivers (route name level attrs r)) ≡ false
unfolding route contains
contains-route_unset name sink_name level attrs r unset = ground (arith, unset)

contains-route_iff :
    (name sink_name : String) (level : Level) (attrs : List AttributeOrGroup) (r : Registry)
    → (contains sink_name (receivers (route name level attrs r)) ≡ true) ↔ (
        (config : ConfiguredLogger) × (sink : Sink) × (get_logger_config name r ≡ some config)
        × (level_leb r.global_level level ≡ true)
        × (level_leb config.level level ≡ true)
        × (contains sink_name config.sink_names ≡ true)
        × (lookup sink_name r.sinks ≡ some sink)
        × (sink.handler level ≡ true))
contains-route_iff name sink_name level attrs r = (
  λ h. elim (Option-cases (get_logger_config name r)) [
    | inl unset ↦
        absurd (ground (arith, h, contains-route_unset name sink_name level attrs r unset))
    | inr (config, set) ↦
        let e = contains-route name sink_name level attrs r config set in
        elim (Option-cases (lookup sink_name r.sinks)) [
          | inl missing ↦ absurd (ground (arith, h, e, missing))
          | inr (sink, there) ↦ (
            config,
            sink,
            set,
            ground (arith, h, e),
            ground (arith, h, e),
            ground (arith, h, e),
            there,
            ground (arith, h, e, there),
          )
        ]
  ],
  λ (config, sink, set, above_global, above_own, listed, there, passes). ground (
    arith,
    contains-route name sink_name level attrs r config set,
    above_global,
    above_own,
    listed,
    there,
    passes,
  ),
)

-- A sink gets a record exactly if a configuration stands under the logger's name, or else under the
-- longest text in front of one of the name's dots that has one, and this configuration lists the
-- sink, the record's level reaches both the global level and the configuration's, the sink is
-- registered, and its handler lets the level pass. The logger is the record's, or its message
-- where the record names none.
pub contains-log_iff :
    (name message sink_name : String) (level : Level) (attrs : List AttributeOrGroup) (r : Registry)
    → (contains sink_name (receivers (log name message level attrs r)) ≡ true) ↔ (
        (config : ConfiguredLogger) × (sink : Sink) × (nearest r.logger_configs ""
            (if str_eq name "" then message else name)
          ≡ some config)
        × (level_leb r.global_level level ≡ true)
        × (level_leb config.level level ≡ true)
        × (contains sink_name config.sink_names ≡ true)
        × (lookup sink_name r.sinks ≡ some sink)
        × (sink.handler level ≡ true))
unfolding log
contains-log_iff name message sink_name level attrs r =
    let logger = logger_of name message in
    rw (sym (get_logger_config-nearest logger r))
      (contains-route_iff logger sink_name level attrs r)

-- The sinks' levels and those of the sinks that the handlers let pass.
abbrev HaveSameHandlers : Registry → Registry → Type 0
HaveSameHandlers r r' =
    (level : Level) (name : String)
    → lets_pass level (lookup name r.sinks) ≡ lets_pass level (lookup name r'.sinks)

deliver-same :
    (level : Level) (attrs : List AttributeOrGroup) (names : List String) (r r' : Registry)
    → HaveSameHandlers r r'
    → deliver level attrs names r ≡ deliver level attrs names r'
unfolding deliver
deliver-same level attrs [] r r' h = refl
deliver-same level attrs (name ∷ names) r r' h = elim (Option-cases (lookup name r.sinks)) [
  | inl missing ↦ elim (Option-cases (lookup name r'.sinks)) [
    | inl missing' ↦ ground (arith, missing, missing', deliver-same level attrs names r r' h)
    | inr (s', there') ↦
        ground (arith, missing, there', deliver-same level attrs names r r' h, h level name)
  ]
  | inr (s, there) ↦ elim (Option-cases (lookup name r'.sinks)) [
    | inl missing' ↦
        ground (arith, there, missing', deliver-same level attrs names r r' h, h level name)
    | inr (s', there') ↦
        ground (arith, there, there', deliver-same level attrs names r r' h, h level name)
  ]
]

set_sink_level-handlers :
    (sink_name : String) (level : Level) (r : Registry)
    → HaveSameHandlers (set_sink_level sink_name level r).0 r
unfolding set_sink_level
set_sink_level-handlers sink_name level r l name = elim (Option-cases (lookup sink_name r.sinks)) [
  | inl unknown ↦ ground (arith, unknown)
  | inr (s, known) ↦ ground (
    arith,
    known,
    lookup-insert sink_name name (record s { level = level }) r.sinks,
    str_eq_iff sink_name name,
  )
]

set_sink_level-rest :
    (sink_name : String) (level : Level) (r : Registry)
    → ((set_sink_level sink_name level r).0.logger_configs ≡ r.logger_configs)
      × ((set_sink_level sink_name level r).0.global_level ≡ r.global_level)
unfolding set_sink_level
set_sink_level-rest sink_name level r = elim (Option-cases (lookup sink_name r.sinks)) [
  | inl unknown ↦ (ground (arith, unknown), ground (arith, unknown))
  | inr (s, known) ↦ (ground (arith, known), ground (arith, known))
]

get_logger_config-same :
    (name : String) (r r' : Registry)
    → r.logger_configs ≡ r'.logger_configs
    → get_logger_config name r ≡ get_logger_config name r'
unfolding get_logger_config
get_logger_config-same name r r' same = rw same refl

route-same :
    (name : String) (level : Level) (attrs : List AttributeOrGroup) (r r' : Registry)
    → r.logger_configs ≡ r'.logger_configs
    → r.global_level ≡ r'.global_level
    → HaveSameHandlers r r'
    → route name level attrs r ≡ route name level attrs r'
unfolding route
route-same name level attrs r r' configs global h =
    let same = get_logger_config-same name r r' configs in
    elim (Option-cases (get_logger_config name r)) [
      | inl unset ↦ ground (arith, unset, same)
      | inr (config, set) ↦
          ground (arith, set, same, global, deliver-same level attrs config.sink_names r r' h)
    ]

-- The level of a sink is written and reported, but read by no routing: changing it changes no
-- record's way.
pub log-set_sink_level :
    (name message sink_name : String) (level new : Level) (attrs : List AttributeOrGroup)
    (r : Registry)
    → log name message level attrs (set_sink_level sink_name new r).0
      ≡ log name message level attrs r
unfolding log
log-set_sink_level name message sink_name level new attrs r =
    let (configs, global) = set_sink_level-rest sink_name new r in
    route-same (logger_of name message) level attrs (set_sink_level sink_name new r).0 r configs
      global (set_sink_level-handlers sink_name new r)
