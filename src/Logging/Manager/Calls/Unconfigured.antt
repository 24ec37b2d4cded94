-- ===== src/Logging/Manager/Calls/Unconfigured.antt =====
-- The configuration manager adds no logger.
use buildozer.Common.{
  String, none, some, List, [], ◌∷◌, ◌++◌, ◌≡◌, arith, inl, inr, Bool-cases, Option-cases, lookup,
  insert, str_eq_iff, lookup-insert, lookup-delete,
}
use buildozer.Errors.{text, wrapped}
use buildozer.Logging.Registry.{
  Level, ConfiguredLogger, Registry, Reply, contains, register_sink, set_logger_sinks,
  set_logger_level, set_sink_level, remove_sink, remove_logger, attach_sink, detach_sink,
  set_global_level, in_use, without, all_registered,
}
use buildozer.Logging.Manager.{Files, given_or_default, add_sinks, add_logger}
use buildozer.Logging.Manager.Calls.{Call, call}
use buildozer.Logging.Manager.Calls.Kept.{call-P}
use buildozer.Logging.Manager.Calls.Effects.{wrapping-fst}

abbrev pub IsUnconfigured : String → Registry → Type 0
IsUnconfigured logger r = lookup logger r.logger_configs ≡ none

-- A logger that is not configured cannot be added.
pub add_logger-unconfigured :
    (logger : String) (level : Level) (names : List String) (r : Registry)
    → IsUnconfigured logger r
    → add_logger logger level names r
      ≡ (r, some (wrapped "failed to set logger level: %w" (text "logger %q not found")))
unfolding add_logger set_logger_level
add_logger-unconfigured logger level names r h = ground (arith, h)

set_logger_level-known :
    (other : String) (level : Level) (c : ConfiguredLogger) (r : Registry)
    → lookup other r.logger_configs ≡ some c
    → lookup other (set_logger_level other level r).0.logger_configs
      ≡ some (record c { level = level })
unfolding set_logger_level
set_logger_level-known other level c r known = ground (
  arith,
  known,
  lookup-insert other other (record c { level = level }) r.logger_configs,
  str_eq_iff other other,
)

module _ (logger : String) where
  set_logger_level-IsUnconfigured :
      (other : String) (level : Level) (r : Registry)
      → IsUnconfigured logger r
      → IsUnconfigured logger (set_logger_level other level r).0
  unfolding set_logger_level
  set_logger_level-IsUnconfigured other level r h =
      elim (Option-cases (lookup other r.logger_configs)) [
        | inl unknown ↦ ground (arith, h, unknown)
        | inr (c, known) ↦ ground (
          arith,
          h,
          known,
          lookup-insert other logger (record c { level = level }) r.logger_configs,
          str_eq_iff other logger,
        )
      ]

  remove_sink-IsUnconfigured :
      (name : String) (r : Registry)
      → IsUnconfigured logger r
      → IsUnconfigured logger (remove_sink name r).0
  unfolding remove_sink
  remove_sink-IsUnconfigured name r h =
      ground
        (arith, h, Option-cases (lookup name r.sinks), Bool-cases (in_use name r.logger_configs))

  remove_logger-IsUnconfigured :
      (other : String) (r : Registry)
      → IsUnconfigured logger r
      → IsUnconfigured logger (remove_logger other r).0
  unfolding remove_logger
  remove_logger-IsUnconfigured other r h = ground (
    arith,
    h,
    Option-cases (lookup other r.logger_configs),
    lookup-delete other logger r.logger_configs,
  )

  -- A configuration is written under a name that has one.
  rewrite-IsUnconfigured :
      (other : String) (old new : ConfiguredLogger) (r : Registry)
      → IsUnconfigured logger r
      → lookup other r.logger_configs ≡ some old
      → lookup logger (insert other new r.logger_configs) ≡ none
  rewrite-IsUnconfigured other old new r h known =
      ground
        (arith, h, known, lookup-insert other logger new r.logger_configs, str_eq_iff other logger)

  attach_sink-IsUnconfigured :
      (other name : String) (r : Registry)
      → IsUnconfigured logger r
      → IsUnconfigured logger (attach_sink other name r).0
  unfolding attach_sink
  attach_sink-IsUnconfigured other name r h = elim (Option-cases (lookup other r.logger_configs)) [
    | inl unset ↦ ground (arith, h, unset, Option-cases (lookup name r.sinks))
    | inr (c, known) ↦ ground (
      arith,
      h,
      known,
      Option-cases (lookup name r.sinks),
      Bool-cases (contains name c.sink_names),
      rewrite-IsUnconfigured other c (record c { sink_names = c.sink_names ++ name ∷ [] }) r h
          known,
    )
  ]

  detach_sink-IsUnconfigured :
      (other name : String) (r : Registry)
      → IsUnconfigured logger r
      → IsUnconfigured logger (detach_sink other name r).0
  unfolding detach_sink
  detach_sink-IsUnconfigured other name r h = elim (Option-cases (lookup other r.logger_configs)) [
    | inl unset ↦ ground (arith, h, unset)
    | inr (c, known) ↦ ground (
      arith,
      h,
      known,
      Bool-cases (contains name c.sink_names),
      rewrite-IsUnconfigured other c (record c { sink_names = without name c.sink_names }) r h
          known,
    )
  ]

  set_logger_sinks-IsUnconfigured :
      (other : String) (names : List String) (c : ConfiguredLogger) (r : Registry)
      → IsUnconfigured logger r
      → lookup other r.logger_configs ≡ some c
      → IsUnconfigured logger (set_logger_sinks other names r).0
  unfolding set_logger_sinks
  set_logger_sinks-IsUnconfigured other names c r h known = ground (
    arith,
    h,
    known,
    Bool-cases (all_registered names r),
    rewrite-IsUnconfigured other c (record c { sink_names = names }) r h known,
  )

  add_sinks-IsUnconfigured :
      (other : String) (names : List String) (c : ConfiguredLogger) (a : Reply)
      → IsUnconfigured logger a.0
      → lookup other a.0.logger_configs ≡ some c
      → IsUnconfigured logger (add_sinks other names a).0
  add_sinks-IsUnconfigured other names c (r, some e) h known = h
  add_sinks-IsUnconfigured other [] c (r, none) h known = h
  add_sinks-IsUnconfigured other (name ∷ names) c (r, none) h known =
      rw (wrapping-fst "failed to set logger sinks: %w" (set_logger_sinks other (name ∷ names) r))
        (set_logger_sinks-IsUnconfigured other (name ∷ names) c r h known)

  add_logger-IsUnconfigured :
      (other : String) (level : Level) (names : List String) (r : Registry)
      → IsUnconfigured logger r
      → IsUnconfigured logger (add_logger other level names r).0
  unfolding add_logger
  add_logger-IsUnconfigured other level names r h =
      elim (Option-cases (lookup other r.logger_configs)) [
        | inl unset ↦ rw (add_logger-unconfigured other level names r unset) h
        | inr (c, known) ↦
            add_sinks-IsUnconfigured other (given_or_default names r) (record c { level = level })
              (set_logger_level other level r) (set_logger_level-IsUnconfigured other level r h)
              (set_logger_level-known other level c r known)
      ]

-- No call of the configuration manager configures a logger that is not configured, the call that
-- is to add one included.
pub call-IsUnconfigured :
    (logger : String) (files : Files) (c : Call) (r : Registry)
    → IsUnconfigured logger r
    → IsUnconfigured logger (call files c r).0
unfolding set_global_level register_sink set_sink_level
call-IsUnconfigured logger = call-P (IsUnconfigured logger) (record {
  insert-P = λ name sink r h. h;
  global_level-P = λ level r h. h;
  register_sink-P = λ sink r h. ground (arith, h, Option-cases (lookup sink.name r.sinks));
  set_sink_level-P = λ name level r h. ground (arith, h, Option-cases (lookup name r.sinks));
  set_logger_level-P = set_logger_level-IsUnconfigured logger;
  remove_sink-P = remove_sink-IsUnconfigured logger;
  remove_logger-P = remove_logger-IsUnconfigured logger;
  attach_sink-P = attach_sink-IsUnconfigured logger;
  detach_sink-P = detach_sink-IsUnconfigured logger;
  add_logger-P = add_logger-IsUnconfigured logger;
})
