-- ===== src/Logging/Registry/Upkeep.antt =====
-- Removing, attaching and detaching keep the references of the registry.
use buildozer.Common.{
  String, true, false, some, List, [], ◌∷◌, ◌++◌, ◌≡◌, ◌||◌, arith, inl, inr, Bool-cases,
  Option-cases, lookup, str_eq, str_eq_iff, lookup-delete,
}
use buildozer.Logging.Registry.{
  ConfiguredLogger, Registry, contains, in_use, remove_sink, remove_logger, attach_sink, without,
  detach_sink,
}
use buildozer.Logging.Registry.Integrity.{IsConsistent, with_config-IsConsistent}

contains-in_use :
    (name logger : String) (configs : List (String × ConfiguredLogger)) (config : ConfiguredLogger)
    → in_use name configs ≡ false
    → lookup logger configs ≡ some config
    → contains name config.sink_names ≡ false
unfolding in_use lookup
contains-in_use name logger [] config unused e = absurd (ground (arith, e))
contains-in_use name logger (entry ∷ rest) config unused e =
    elim (Bool-cases (str_eq entry.0 logger)) [
      | inl same ↦ ground (arith, unused, e, same)
      | inr differs ↦
          contains-in_use name logger rest config (ground (arith, unused))
            (ground (arith, e, differs))
    ]

pub remove_sink-IsConsistent :
    (name : String) (r : Registry) → IsConsistent r → IsConsistent (remove_sink name r).0
unfolding remove_sink
remove_sink-IsConsistent name r h = elim (Option-cases (lookup name r.sinks)) [
  | inl unknown ↦ rw (unknown, remove_sink) h
  | inr (sink, known) ↦ elim (Bool-cases (in_use name r.logger_configs)) [
    | inl used ↦ rw (known, remove_sink) (rw used h)
    | inr unused ↦
        rw (known, remove_sink)
          (rw unused (λ logger config e other listed. ground (
            arith,
            lookup-delete name other r.sinks,
            h logger config e other listed,
            contains-in_use name logger r.logger_configs config unused e,
            str_eq_iff name other,
            listed,
          )))
  ]
]

pub remove_logger-IsConsistent :
    (logger : String) (r : Registry) → IsConsistent r → IsConsistent (remove_logger logger r).0
unfolding remove_logger
remove_logger-IsConsistent logger r h = elim (Option-cases (lookup logger r.logger_configs)) [
  | inl unknown ↦ rw (unknown, remove_logger) h
  | inr (old, known) ↦
      rw (known, remove_logger)
        (λ other config e.
          h other config (ground (arith, e, lookup-delete logger other r.logger_configs)))
]

contains-snoc :
    (name added : String) (names : List String)
    → contains name (names ++ added ∷ []) ≡ (contains name names || str_eq added name)
unfolding contains
contains-snoc name added [] = ground arith
contains-snoc name added (n ∷ names) = ground (arith, contains-snoc name added names)

pub attach_sink-IsConsistent :
    (logger name : String) (r : Registry)
    → IsConsistent r
    → IsConsistent (attach_sink logger name r).0
unfolding attach_sink
attach_sink-IsConsistent logger name r h = elim (Option-cases (lookup name r.sinks)) [
  | inl unknown ↦ rw (unknown, attach_sink) h
  | inr (sink, there) ↦ elim (Option-cases (lookup logger r.logger_configs)) [
    | inl unset ↦ rw (there, attach_sink) (rw unset h)
    | inr (config, known) ↦ elim (Bool-cases (contains name config.sink_names)) [
      | inl attached ↦ rw (there, attach_sink) (rw known (rw attached h))
      | inr new ↦
          rw (there, attach_sink)
            (rw known (
              rw new (
                with_config-IsConsistent logger
                  (record config { sink_names = config.sink_names ++ name ∷ [] }) r h
                  (λ other listed. elim (Bool-cases (contains other config.sink_names)) [
                    | inl old ↦ h logger config known other old
                    | inr added ↦ ground (
                      arith,
                      there,
                      listed,
                      added,
                      contains-snoc other name config.sink_names,
                      str_eq_iff name other,
                    )
                  ]))))
    ]
  ]
]

contains-without :
    (other name : String) (names : List String)
    → contains other (without name names) ≡ true
    → contains other names ≡ true
unfolding contains without
contains-without other name [] h = h
contains-without other name (n ∷ names) h =
    elim (Bool-cases (contains other (without name names))) [
      | inl later ↦ ground (arith, contains-without other name names later)
      | inr never ↦ ground (arith, h, never)
    ]

pub detach_sink-IsConsistent :
    (logger name : String) (r : Registry)
    → IsConsistent r
    → IsConsistent (detach_sink logger name r).0
unfolding detach_sink
detach_sink-IsConsistent logger name r h = elim (Option-cases (lookup logger r.logger_configs)) [
  | inl unset ↦ rw (unset, detach_sink) h
  | inr (config, known) ↦ elim (Bool-cases (contains name config.sink_names)) [
    | inl attached ↦
        rw (known, detach_sink)
          (rw attached (
            with_config-IsConsistent logger
              (record config { sink_names = without name config.sink_names }) r h
              (λ other listed.
                h logger config known other
                  (contains-without other name config.sink_names listed))))
    | inr absent ↦ rw (known, detach_sink) (rw absent h)
  ]
]
