-- ===== src/Logging/Samples.antt =====
-- A registry with a sink and a logger, and a broadcaster with two subscribers, on which the theorems of the logging are applied.
use buildozer.Common.{pos, true, false, some, List, [], ◌∷◌, ◌≡◌, ◌↔◌, refl, arith, lookup, insert}
use buildozer.Errors.{ok}
use buildozer.Logging.Registry.{
  level_leb, Sink, ConfiguredLogger, Registry, contains, new_registry, register_sink,
  all_registered, set_logger_sinks, set_sink_level,
}
use buildozer.Logging.Registry.Routing.{AttributeOrGroup, attribute, log, receivers}
use buildozer.Logging.Registry.Routing.Nearest.{nearest}
use buildozer.Logging.Registry.Routing.Reach.{contains-log_iff, log-set_sink_level}
use buildozer.Logging.Registry.Integrity.{
  IsConsistent, register_sink-IsConsistent, set_logger_sinks-IsConsistent,
}
use buildozer.Logging.Manager.{Files}
use buildozer.Logging.Manager.Calls.{call, adds_logger, removes_sink}
use buildozer.Logging.Manager.Calls.Effects.{call-IsConsistent}
use buildozer.Logging.Manager.Calls.Unconfigured.{IsUnconfigured, call-IsUnconfigured}
use buildozer.Logging.Broadcaster.{
  LogEntry, LogBroadcaster, new_channel, new_log_broadcaster, BroadcasterStep, begins, sends,
  subscribes, unsubscribes, closes_all, takes, run_broadcaster, broadcaster_step, is_read_locked,
}
use buildozer.Logging.Broadcaster.Subscriptions.{AreUsable}
use buildozer.Logging.Broadcaster.Views.{StepsWell}
use buildozer.Logging.Broadcaster.Steps.{run_broadcaster_lem, broadcaster_step-own_step}
use buildozer.Errors.{done}

abbrev stdout : Sink
stdout = record {
  name = "stdout";
  sink_type = "stdout";
  file_path = "";
  level = pos 0;
  handler = level_leb (pos 0);
  max_size = pos 0;
  max_age_days = pos 0;
  include_source_loc = false;
}

abbrev fresh : Registry
fresh = (register_sink stdout new_registry).0

abbrev registry : Registry
registry = (set_logger_sinks "daemon" ("stdout" ∷ []) fresh).0

new_registry-IsConsistent : IsConsistent new_registry
unfolding new_registry lookup
new_registry-IsConsistent logger config e = absurd (ground (arith, e))

registry-IsConsistent : IsConsistent registry
registry-IsConsistent =
    set_logger_sinks-IsConsistent "daemon" ("stdout" ∷ []) fresh
      (register_sink-IsConsistent stdout new_registry new_registry-IsConsistent)

abbrev daemon : ConfiguredLogger
daemon = record { level = pos 0; sink_names = "stdout" ∷ [] }

abbrev attributes : List AttributeOrGroup
attributes = attribute "job" "compile" ∷ []

-- A warning of the child.
contains-log_iff_example :
    (contains "stdout" (receivers (log "daemon.jobs" "low on space" (pos 4) attributes registry))
      ≡ true)
    ↔ ((config : ConfiguredLogger) × (sink : Sink) × (nearest registry.logger_configs ""
            "daemon.jobs"
          ≡ some config)
        × (level_leb registry.global_level (pos 4) ≡ true)
        × (level_leb config.level (pos 4) ≡ true)
        × (contains "stdout" config.sink_names ≡ true)
        × (lookup "stdout" registry.sinks ≡ some sink)
        × (sink.handler (pos 4) ≡ true))
contains-log_iff_example =
    contains-log_iff "daemon.jobs" "low on space" "stdout" (pos 4) attributes registry

log-set_sink_level_example :
    log "daemon.jobs" "low on space" (pos 4) attributes (set_sink_level "stdout" (pos 8) registry).0
    ≡ log "daemon.jobs" "low on space" (pos 4) attributes registry
log-set_sink_level_example =
    log-set_sink_level "daemon.jobs" "low on space" "stdout" (pos 4) (pos 8) attributes registry

abbrev files : Files
files = record { join = λ dir path. path; file_sink = λ path level. ok (level_leb level) }

call-IsConsistent_example : IsConsistent (call files (removes_sink "stdout") registry).0
call-IsConsistent_example =
    call-IsConsistent files (removes_sink "stdout") registry registry-IsConsistent

driver-unset : IsUnconfigured "driver" registry
unfolding set_logger_sinks register_sink new_registry lookup all_registered insert
driver-unset = refl

call-IsUnconfigured_example :
    IsUnconfigured "driver" (call files (adds_logger "driver" (pos 0) ("stdout" ∷ [])) registry).0
call-IsUnconfigured_example =
    call-IsUnconfigured "driver" files (adds_logger "driver" (pos 0) ("stdout" ∷ [])) registry
      driver-unset

abbrev entry : LogEntry
entry = record {
  timestamp = pos 5;
  logger_name = "daemon";
  level = pos 4;
  message = "low on space";
  attributes = [];
}

-- Two subscribers, to whom two broadcasts send in different orders; the first subscriber waits for
-- the lock before it leaves.
abbrev log_steps : List BroadcasterStep
log_steps =
    subscribes
    ∷ subscribes
    ∷ begins entry
    ∷ begins (record entry { message = "low on memory" })
    ∷ sends 0 0
    ∷ unsubscribes 0
    ∷ sends 1 0
    ∷ sends 1 1
    ∷ sends 0 1
    ∷ unsubscribes 0
    ∷ takes 0
    ∷ closes_all
    ∷ []

run_broadcaster_lem_example :
    (after : LogBroadcaster) × (run_broadcaster log_steps new_log_broadcaster ≡ done after)
    × AreUsable after
run_broadcaster_lem_example =
    run_broadcaster_lem log_steps new_log_broadcaster (tt, tt, tt, (λ id. refl), tt)

-- One subscriber, to whom a broadcast is about to send.
abbrev on_air : LogBroadcaster
on_air = record {
  readers = record { entry = entry; left = 0 ∷ [] } ∷ [];
  channels = λ id. new_channel;
  subscribers = 0 ∷ [];
  next_sub_id = 1;
}

broadcaster_step-own_step_example :
    StepsWell
      (is_read_locked on_air.readers)
      (sends 0 0)
      (broadcaster_step (sends 0 0) on_air)
      on_air
broadcaster_step-own_step_example =
    broadcaster_step-own_step (sends 0 0) on_air
      ((refl, tt), (refl, tt), (refl, tt), (λ id. refl), ((λ id listed. listed), tt))
