-- ===== src/Logging/Manager/Calls/Kept.antt =====
-- What the registry's operations keep, the manager's calls keep.
use buildozer.Common.{
  String, none, some, List, [], ◌∷◌, inl, inr, Bool-cases, Option-cases, is_some, lookup, insert,
  str_eq, not, ◌||◌,
}
use buildozer.Errors.{Result-cases}
use buildozer.Logging.Registry.{
  Level, Sink, Registry, Reply, register_sink, get_sink, get_all_sinks, get_logger_sinks,
  set_logger_level, set_sink_level, remove_sink, remove_logger, attach_sink, detach_sink,
  set_global_level, level_debug,
}
use buildozer.Logging.Manager.{
  Files, wrapping, SinkConfigChange, update_sink_config, add_sink, add_sink_internal, any_overlap,
  is_sink_type, new_handler, new_sink, is_file, drop_if_file, drop_file_sinks, file_sink_name,
  attach_new, clean_up, without_file_sinks, enable_file_sink, first_file, remove_detached,
  disable_file_sink, add_logger, manager_set_logger_level, manager_set_sink_level,
}
use buildozer.Logging.Manager.Calls.{
  Call, call, sets_global_level, sets_logger_level, sets_sink_level, updates_sink,
  enables_file_sink, disables_file_sink, adds_sink, removes_sink, adds_logger, removes_logger,
  attaches_sink, detaches_sink,
}

-- A property of the registry that its operations keep, and `AddLogger`'s calls of them.
pub record IsKept (P : Registry → Type 0) : Type 0 where
  pub insert-P :
      (name : String) (sink : Sink) (r : Registry)
      → P r
      → P (record r { sinks = insert name sink r.sinks })
  pub global_level-P : (level : Level) (r : Registry) → P r → P (set_global_level level r)
  pub register_sink-P : (sink : Sink) (r : Registry) → P r → P (register_sink sink r).0
  pub set_sink_level-P :
      (name : String) (level : Level) (r : Registry) → P r → P (set_sink_level name level r).0
  pub set_logger_level-P :
      (logger : String) (level : Level) (r : Registry) → P r → P (set_logger_level logger level r).0
  pub remove_sink-P : (name : String) (r : Registry) → P r → P (remove_sink name r).0
  pub remove_logger-P : (logger : String) (r : Registry) → P r → P (remove_logger logger r).0
  pub attach_sink-P : (logger name : String) (r : Registry) → P r → P (attach_sink logger name r).0
  pub detach_sink-P : (logger name : String) (r : Registry) → P r → P (detach_sink logger name r).0
  pub add_logger-P :
      (logger : String) (level : Level) (names : List String) (r : Registry)
      → P r
      → P (add_logger logger level names r).0

module _ (P : Registry → Type 0) (keeps : IsKept P) where
  pub wrapping-P : (message : String) (a : Reply) → P a.0 → P (wrapping message a).0
  wrapping-P message (r, none) h = h
  wrapping-P message (r, some e) h = h

  pub update_sink_config-P :
      (name : String) (changes : SinkConfigChange) (r : Registry)
      → P r
      → P (update_sink_config name changes r).0
  unfolding update_sink_config
  update_sink_config-P name changes r h = elim (Option-cases (lookup name r.sinks)) [
    | inl unknown ↦ rw (unknown, update_sink_config) h
    | inr (sink, known) ↦
        elim (Bool-cases (is_some changes.max_size_bytes || is_some changes.max_age_days)) [
          | inl sized ↦ elim (Bool-cases (str_eq sink.sink_type "file")) [
            | inl file ↦
                rw (known, update_sink_config) (rw sized (rw file (keeps.insert-P name _ r h)))
            | inr other ↦
                rw (known, update_sink_config) (rw sized (rw other (keeps.insert-P name _ r h)))
          ]
          | inr plain ↦ rw (known, update_sink_config) (rw plain (keeps.insert-P name _ r h))
        ]
  ]

  pub add_sink_internal-P :
      (files : Files) (name sink_type path : String) (level : Level) (r : Registry)
      → P r
      → P (add_sink_internal files name sink_type path level r).0
  unfolding add_sink_internal
  add_sink_internal-P files name sink_type path level r h =
      elim (Bool-cases (not (is_sink_type sink_type))) [
        | inl odd ↦ rw (odd, add_sink_internal) h
        | inr valid ↦ elim (Bool-cases (any_overlap sink_type path (get_all_sinks r))) [
          | inl taken ↦ rw (valid, add_sink_internal) (rw taken h)
          | inr free ↦ elim (Result-cases (new_handler files sink_type path level r.logging_dir)) [
            | inl (handler, made) ↦
                rw (valid, add_sink_internal)
                  (rw free (
                    rw made (
                      wrapping-P "failed to register sink: %w"
                        (register_sink (new_sink name sink_type path level handler) r)
                        (keeps.register_sink-P (new_sink name sink_type path level handler) r h))))
            | inr (e, fails) ↦ rw (valid, add_sink_internal) (rw free (rw fails h))
          ]
        ]
      ]

  drop_if_file-P : (logger name : String) (r : Registry) → P r → P (drop_if_file logger name r)
  unfolding drop_if_file
  drop_if_file-P logger name r h = elim (Bool-cases (is_file (get_sink name r))) [
    | inl file ↦
        rw (file, drop_if_file) (keeps.remove_sink-P name _ (keeps.detach_sink-P logger name r h))
    | inr other ↦ rw (other, drop_if_file) h
  ]

  drop_file_sinks-P :
      (logger : String) (names : List String) (r : Registry)
      → P r
      → P (drop_file_sinks logger names r)
  unfolding drop_file_sinks
  drop_file_sinks-P logger [] r h = h
  drop_file_sinks-P logger (name ∷ names) r h =
      drop_file_sinks-P logger names (drop_if_file logger name r) (drop_if_file-P logger name r h)

  pub without_file_sinks-P :
      (logger : String) (r : Registry) → P r → P (without_file_sinks logger r)
  unfolding without_file_sinks
  without_file_sinks-P logger r h = elim (Option-cases (get_logger_sinks logger r)) [
    | inl unset ↦ rw (unset, without_file_sinks) h
    | inr (names, there) ↦ rw (there, without_file_sinks) (drop_file_sinks-P logger names r h)
  ]

  clean_up-P : (logger : String) (a : Reply) → P a.0 → P (clean_up logger a).0
  clean_up-P logger (r, none) h = h
  clean_up-P logger (r, some e) h = keeps.remove_sink-P (file_sink_name logger) r h

  pub attach_new-P : (logger : String) (a : Reply) → P a.0 → P (attach_new logger a).0
  attach_new-P logger (r, some e) h = h
  attach_new-P logger (r, none) h =
      clean_up-P logger (attach_sink logger (file_sink_name logger) r)
        (keeps.attach_sink-P logger (file_sink_name logger) r h)

  remove_detached-P : (name : String) (a : Reply) → P a.0 → P (remove_detached name a).0
  remove_detached-P name (r, some e) h = h
  remove_detached-P name (r, none) h =
      wrapping-P "failed to remove sink: %w" (remove_sink name r) (keeps.remove_sink-P name r h)

  pub disable_file_sink-P :
      (logger : String) (r : Registry) → P r → P (disable_file_sink logger r).0
  unfolding disable_file_sink
  disable_file_sink-P logger r h = elim (Option-cases (get_logger_sinks logger r)) [
    | inl unset ↦ rw (unset, disable_file_sink) h
    | inr (names, there) ↦ elim (Option-cases (first_file names r)) [
      | inl bare ↦ rw (there, disable_file_sink) (rw bare h)
      | inr (name, found) ↦ elim (Bool-cases (str_eq name "")) [
        | inl nameless ↦ rw (there, disable_file_sink) (rw found (rw nameless h))
        | inr named ↦
            rw (there, disable_file_sink)
              (rw found (
                rw named (
                  remove_detached-P name (detach_sink logger name r)
                    (keeps.detach_sink-P logger name r h))))
      ]
    ]
  ]

  -- What the registry's operations keep, every call of the manager keeps.
  pub call-P : (files : Files) (c : Call) (r : Registry) → P r → P (call files c r).0
  unfolding add_sink call enable_file_sink add_logger manager_set_logger_level
      manager_set_sink_level set_global_level
  call-P files (sets_global_level level) r h = keeps.global_level-P level r h
  call-P files (sets_logger_level logger level) r h =
      wrapping-P "failed to set logger level: %w" (set_logger_level logger level r)
        (keeps.set_logger_level-P logger level r h)
  call-P files (sets_sink_level name level) r h =
      wrapping-P "failed to set sink level: %w" (set_sink_level name level r)
        (keeps.set_sink_level-P name level r h)
  call-P files (updates_sink name changes) r h = update_sink_config-P name changes r h
  call-P files (enables_file_sink logger path size backups age) r h =
      let kept = without_file_sinks logger r in
      attach_new-P logger
        (add_sink_internal files (file_sink_name logger) "file" path level_debug kept)
        (add_sink_internal-P files (file_sink_name logger) "file" path level_debug kept
          (without_file_sinks-P logger r h))
  call-P files (disables_file_sink logger) r h = disable_file_sink-P logger r h
  call-P files (adds_sink name sink_type level) r h =
      (add_sink_internal-P files name sink_type "" level r h)
  call-P files (removes_sink name) r h =
      wrapping-P "failed to remove sink: %w" (remove_sink name r) (keeps.remove_sink-P name r h)
  call-P files (adds_logger logger level names) r h = keeps.add_logger-P logger level names r h
  call-P files (removes_logger logger) r h =
      wrapping-P "failed to remove logger: %w" (remove_logger logger r)
        (keeps.remove_logger-P logger r h)
  call-P files (attaches_sink logger name) r h =
      wrapping-P "failed to attach sink: %w" (attach_sink logger name r)
        (keeps.attach_sink-P logger name r h)
  call-P files (detaches_sink logger name) r h =
      wrapping-P "failed to detach sink: %w" (detach_sink logger name r)
        (keeps.detach_sink-P logger name r h)
