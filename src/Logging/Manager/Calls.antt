-- ===== src/Logging/Manager/Calls.antt =====
-- The calls of the configuration manager: what the registry's operations keep, all of them keep.
pub mod Kept
pub mod Effects
pub mod Unconfigured
use buildozer.Common.{
  ℕ, ℤ, String, Bool, true, false, Option, none, some, List, [], ◌∷◌, ◌++◌, ◌≡◌, refl, arith, inl,
  inr, Bool-cases, Option-cases, if◌then◌else◌, is_some, is_empty_list, lookup, insert, str_eq, not,
  ◌||◌,
}
use buildozer.Errors.{Err, text, wrapped, Result, ok, err, Result-cases}
use buildozer.Logging.Registry.{
  Level, Sink, Registry, Reply, register_sink, get_sink, get_all_sinks, set_logger_sinks,
  get_logger_sinks, set_logger_level, set_sink_level, remove_sink, remove_logger, attach_sink,
  detach_sink, set_global_level, level_debug,
}
use buildozer.Logging.Manager.{
  Files, wrapping, SinkConfigChange, with_level, with_source, positive_or, update_sink_config,
  add_sink, any_overlap, is_sink_type, new_handler, new_sink, is_file, drop_if_file,
  drop_file_sinks, file_sink_name, attach_new, clean_up, without_file_sinks, enable_file_sink,
  first_file, remove_detached, disable_file_sink, given_or_default, add_sinks, add_logger,
  manager_set_logger_level, manager_set_sink_level,
}

pub data Call : Type 0 where
  sets_global_level : Level → Call
  sets_logger_level : String → Level → Call
  sets_sink_level : String → Level → Call
  updates_sink : String → SinkConfigChange → Call
  enables_file_sink : String → String → ℕ → ℕ → ℕ → Call
  disables_file_sink : String → Call
  adds_sink : String → String → Level → Call
  removes_sink : String → Call
  adds_logger : String → Level → List String → Call
  removes_logger : String → Call
  attaches_sink : String → String → Call
  detaches_sink : String → String → Call

unfoldable pub call : Files → Call → Registry → Reply
call files (sets_global_level level) r = (set_global_level level r, none)
call files (sets_logger_level logger level) r = manager_set_logger_level logger level r
call files (sets_sink_level name level) r = manager_set_sink_level name level r
call files (updates_sink name changes) r = update_sink_config name changes r
call files (enables_file_sink logger path size backups age) r =
    enable_file_sink files logger path size backups age r
call files (disables_file_sink logger) r = disable_file_sink logger r
call files (adds_sink name sink_type level) r = add_sink files name sink_type level r
call files (removes_sink name) r = wrapping "failed to remove sink: %w" (remove_sink name r)
call files (adds_logger logger level names) r = add_logger logger level names r
call files (removes_logger logger) r =
    wrapping "failed to remove logger: %w" (remove_logger logger r)
call files (attaches_sink logger name) r =
    wrapping "failed to attach sink: %w" (attach_sink logger name r)
call files (detaches_sink logger name) r =
    wrapping "failed to detach sink: %w" (detach_sink logger name r)
