-- ===== src/Logging/Registry/Integrity.antt =====
-- The references of the registry: every sink that a logger names is registered.
use buildozer.Common.{
  String, true, some, List, [], ◌∷◌, ◌≡◌, subst, arith, inl, inr, Bool-cases, Option-cases, is_some,
  lookup, insert, str_eq, str_eq_iff, lookup-insert,
}
use buildozer.Logging.Registry.{
  Level, Sink, ConfiguredLogger, Registry, contains, all_registered, register_sink,
  set_logger_sinks, with_sinks, set_logger_level, set_sink_level,
}

abbrev pub Sinks : Type 0
Sinks = List (String × Sink)

-- Every one of the names is a registered sink's.
abbrev pub AreRegistered : Sinks → List String → Type 0
AreRegistered sinks names =
    (name : String) → contains name names ≡ true → is_some (lookup name sinks) ≡ true

-- Every sink that a logger names is registered.
abbrev pub IsConsistent : Registry → Type 0
IsConsistent r =
    (logger : String) (config : ConfiguredLogger)
    → lookup logger r.logger_configs ≡ some config
    → AreRegistered r.sinks config.sink_names

all_registered-AreRegistered :
    (names : List String) (r : Registry)
    → all_registered names r ≡ true
    → AreRegistered r.sinks names
unfolding all_registered contains
all_registered-AreRegistered [] r h name listed = absurd (ground (arith, listed))
all_registered-AreRegistered (n ∷ names) r h name listed = ground (
  arith,
  h,
  listed,
  str_eq_iff n name,
  Bool-cases (contains name names),
  λ (e : contains name names ≡ true).
      all_registered-AreRegistered names r (ground (arith, h)) name e,
)

-- One logger's configuration is written.
pub with_config-IsConsistent :
    (logger : String) (config : ConfiguredLogger) (r : Registry)
    → IsConsistent r
    → AreRegistered r.sinks config.sink_names
    → IsConsistent (record r { logger_configs = insert logger config r.logger_configs })
with_config-IsConsistent logger config r h own other found e =
    elim (Bool-cases (str_eq logger other)) [
      | inl same ↦
          let there : config ≡ found =
            ground (arith, e, lookup-insert logger other config r.logger_configs, same) in
          subst (λ c. AreRegistered r.sinks c.sink_names) there own
      | inr differs ↦
          h other found
            (ground (arith, e, lookup-insert logger other config r.logger_configs, differs))
    ]

-- More sinks are registered.
pub with_sink-IsConsistent :
    (name : String) (sink : Sink) (r : Registry)
    → IsConsistent r
    → IsConsistent (record r { sinks = insert name sink r.sinks })
with_sink-IsConsistent name sink r h logger config e other listed =
    ground (arith, lookup-insert name other sink r.sinks, h logger config e other listed)

pub register_sink-IsConsistent :
    (sink : Sink) (r : Registry) → IsConsistent r → IsConsistent (register_sink sink r).0
unfolding register_sink
register_sink-IsConsistent sink r h = elim (Option-cases (lookup sink.name r.sinks)) [
  | inl new ↦ rw (new, register_sink) (with_sink-IsConsistent sink.name sink r h)
  | inr (old, known) ↦ rw (known, register_sink) h
]

pub set_sink_level-IsConsistent :
    (name : String) (level : Level) (r : Registry)
    → IsConsistent r
    → IsConsistent (set_sink_level name level r).0
unfolding set_sink_level
set_sink_level-IsConsistent name level r h = elim (Option-cases (lookup name r.sinks)) [
  | inl unknown ↦ rw (unknown, set_sink_level) h
  | inr (sink, known) ↦
      rw (known, set_sink_level) (with_sink-IsConsistent name (record sink { level = level }) r h)
]

pub set_logger_sinks-IsConsistent :
    (logger : String) (names : List String) (r : Registry)
    → IsConsistent r
    → IsConsistent (set_logger_sinks logger names r).0
unfolding set_logger_sinks
set_logger_sinks-IsConsistent logger names r h = elim (Bool-cases (all_registered names r)) [
  | inl all ↦
      rw (all, set_logger_sinks)
        (with_config-IsConsistent logger (with_sinks names (lookup logger r.logger_configs)) r h
          (elim (Option-cases (lookup logger r.logger_configs)) [
            | inl new ↦ rw new (all_registered-AreRegistered names r all)
            | inr (old, known) ↦ rw known (all_registered-AreRegistered names r all)
          ]))
  | inr missing ↦ rw (missing, set_logger_sinks) h
]

pub set_logger_level-IsConsistent :
    (logger : String) (level : Level) (r : Registry)
    → IsConsistent r
    → IsConsistent (set_logger_level logger level r).0
unfolding set_logger_level
set_logger_level-IsConsistent logger level r h =
    elim (Option-cases (lookup logger r.logger_configs)) [
      | inl unknown ↦ rw (unknown, set_logger_level) h
      | inr (config, known) ↦
          rw (known, set_logger_level)
            (with_config-IsConsistent logger (record config { level = level }) r h
              (h logger config known))
    ]
