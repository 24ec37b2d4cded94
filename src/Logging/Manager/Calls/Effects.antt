-- ===== src/Logging/Manager/Calls/Effects.antt =====
-- What the calls of the configuration manager keep, and what those do that cannot succeed.
use buildozer.Common.{String, none, some, List, [], ◌∷◌, ◌≡◌, refl}
use buildozer.Logging.Registry.{
  Level, Registry, Reply, set_logger_sinks, set_logger_level, set_global_level,
}
use buildozer.Logging.Registry.Integrity.{
  IsConsistent, with_sink-IsConsistent, register_sink-IsConsistent, set_sink_level-IsConsistent,
  set_logger_sinks-IsConsistent, set_logger_level-IsConsistent,
}
use buildozer.Logging.Registry.Upkeep.{
  remove_sink-IsConsistent, remove_logger-IsConsistent, attach_sink-IsConsistent,
  detach_sink-IsConsistent,
}
use buildozer.Logging.Manager.{Files, wrapping, given_or_default, add_sinks, add_logger}
use buildozer.Logging.Manager.Calls.{Call, call}
use buildozer.Logging.Manager.Calls.Kept.{call-P}

set_global_level-IsConsistent :
    (level : Level) (r : Registry) → IsConsistent r → IsConsistent (set_global_level level r)
unfolding set_global_level
set_global_level-IsConsistent level r h = h

pub wrapping-fst : (message : String) (a : Reply) → (wrapping message a).0 ≡ a.0
wrapping-fst message (r, none) = refl
wrapping-fst message (r, some e) = refl

add_sinks-IsConsistent :
    (logger : String) (names : List String) (a : Reply)
    → IsConsistent a.0
    → IsConsistent (add_sinks logger names a).0
add_sinks-IsConsistent logger names (r, some e) h = h
add_sinks-IsConsistent logger [] (r, none) h = h
add_sinks-IsConsistent logger (name ∷ names) (r, none) h =
    rw (wrapping-fst "failed to set logger sinks: %w" (set_logger_sinks logger (name ∷ names) r))
      (set_logger_sinks-IsConsistent logger (name ∷ names) r h)

add_logger-IsConsistent :
    (logger : String) (level : Level) (names : List String) (r : Registry)
    → IsConsistent r
    → IsConsistent (add_logger logger level names r).0
unfolding add_logger
add_logger-IsConsistent logger level names r h =
    add_sinks-IsConsistent logger (given_or_default names r) (set_logger_level logger level r)
      (set_logger_level-IsConsistent logger level r h)

-- Every call of the configuration manager, whether it succeeds or fails, leaves every sink that
-- some logger names registered.
pub call-IsConsistent :
    (files : Files) (c : Call) (r : Registry) → IsConsistent r → IsConsistent (call files c r).0
call-IsConsistent = call-P IsConsistent (record {
  insert-P = with_sink-IsConsistent;
  global_level-P = set_global_level-IsConsistent;
  register_sink-P = register_sink-IsConsistent;
  set_sink_level-P = set_sink_level-IsConsistent;
  set_logger_level-P = set_logger_level-IsConsistent;
  remove_sink-P = remove_sink-IsConsistent;
  remove_logger-P = remove_logger-IsConsistent;
  attach_sink-P = attach_sink-IsConsistent;
  detach_sink-P = detach_sink-IsConsistent;
  add_logger-P = add_logger-IsConsistent;
})
