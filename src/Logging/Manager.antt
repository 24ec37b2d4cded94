-- ===== src/Logging/Manager.antt =====
-- `LocalConfigManager` of pkg/logging/config_manager.go. Each of its calls is one step, although
-- EnableFileSink, DisableFileSink, AddSink, UpdateSinkConfig and AddLogger call the registry several
-- times, and each of those calls takes the registry's lock for itself: what another goroutine does
-- to the registry in between is not modelled. The handler of a file is made by
-- pkg/logging/sinks, which opens the file: what it answers, and `filepath.Join`, are parameters.
pub mod Calls
use buildozer.Common.{
  ℕ, zero, suc, ◌==◌, ℤ, pos, negsuc, String, Bool, true, false, not, ◌&&◌, ◌||◌, Option, none,
  some, List, [], ◌∷◌, ◌++◌, if◌then◌else◌, is_some, is_empty_list, lookup, insert, str_eq,
}
use buildozer.Errors.{Err, text, wrapped, Result, ok, err}
use Prim.Native.String.{◌++◌ as append}
use buildozer.Logging.Registry.{
  Level, level_leb, level_info, level_debug, Sink, Registry, Reply, contains, register_sink,
  get_sink, get_all_sinks, set_logger_sinks, get_logger_sinks, set_logger_level, set_sink_level,
  remove_sink, remove_logger, attach_sink, detach_sink, set_global_level,
}

pub record Files : Type 0 where
  pub join : String → String → String
  pub file_sink : String → Level → Result (Level → Bool)

-- An error of the registry, wrapped with the manager's text.
abbrev pub wrapping : String → Reply → Reply
wrapping message (r, none) = (r, none)
wrapping message (r, some e) = (r, some (wrapped message e))

-- `SetLoggerLevel`, `SetSinkLevel`, `RemoveSink`, `RemoveLogger`, `AttachSink` and `DetachSink` of
-- the manager pass the registry's error on.
unfoldable pub manager_set_logger_level : String → Level → Registry → Reply
unfolding set_logger_level
manager_set_logger_level logger level r =
    wrapping "failed to set logger level: %w" (set_logger_level logger level r)

unfoldable pub manager_set_sink_level : String → Level → Registry → Reply
unfolding set_sink_level
manager_set_sink_level name level r =
    wrapping "failed to set sink level: %w" (set_sink_level name level r)

-- `SinkConfigChange`: a nil pointer is `none`.
pub record SinkConfigChange : Type 0 where
  pub level : Option Level
  pub include_source_location : Option Bool
  pub max_size_bytes : Option ℤ
  pub max_age_days : Option ℤ

abbrev pub with_level : Option Level → Sink → Sink
with_level none s = s
with_level (some l) s = record s { level = l }

abbrev pub with_source : Option Bool → Sink → Sink
with_source none s = s
with_source (some b) s = record s { include_source_loc = b }

-- A number that is not positive changes nothing.
abbrev pub positive_or : Option ℤ → ℤ → ℤ
positive_or (some (pos (suc n))) old = pos (suc n)
positive_or _ old = old

-- `UpdateSinkConfig`: the level and the source location are changed before the type is looked at.
unfoldable pub update_sink_config : String → SinkConfigChange → Registry → Reply
update_sink_config name changes r = elim (lookup name r.sinks) [
  | none ↦ (r, some (text "sink %q not found"))
  | some sink ↦
      let general = with_source changes.include_source_location (with_level changes.level sink) in
      if is_some changes.max_size_bytes || is_some changes.max_age_days
      then (if str_eq sink.sink_type "file"
          then (
            record r {
              sinks =
                  insert name
                    (record general {
                      max_size = positive_or changes.max_size_bytes sink.max_size;
                      max_age_days = positive_or changes.max_age_days sink.max_age_days;
                    })
                    r.sinks;
            },
            none,
          )
          else (
            record r { sinks = insert name general r.sinks },
            some (text "sink %q is not a file sink; cannot update file-specific configuration"),
          ))
      else (record r { sinks = insert name general r.sinks }, none)
]

abbrev pub is_sink_type : String → Bool
is_sink_type t = str_eq t "stdout" || str_eq t "stderr" || str_eq t "file"

-- Whether a sink of this type and path overlaps with one that is there.
abbrev pub overlaps : String → String → Sink → Bool
overlaps sink_type path sink =
    str_eq sink.sink_type sink_type
    && (str_eq sink_type "stdout"
        || str_eq sink_type "stderr"
        || str_eq sink_type "file" && str_eq sink.file_path path)

unfoldable pub any_overlap : String → String → List Sink → Bool
any_overlap sink_type path [] = false
any_overlap sink_type path (s ∷ rest) =
    let later = any_overlap sink_type path rest in if overlaps sink_type path s then true else later

abbrev pub overlap_err : String → Err
overlap_err sink_type =
    if str_eq sink_type "stdout"
    then text "a stdout sink already exists; cannot create another (overlap with %q)"
    else if str_eq sink_type "stderr"
    then text "a stderr sink already exists; cannot create another (overlap with %q)"
    else text "a file sink for %q already exists (overlap with %q); cannot create another"

-- The new sink's handler. `slog.NewTextHandler` without options lets INFO pass.
abbrev pub new_handler : Files → String → String → Level → String → Result (Level → Bool)
new_handler files sink_type path level dir =
    if str_eq sink_type "file"
    then (if str_eq path ""
        then err (text "file sink requires file path")
        else elim (files.file_sink (files.join dir path) level) [
          | err e ↦ err (wrapped "failed to create file sink: %w" e)
          | ok h ↦ ok h
        ])
    else ok (λ l. level_leb level_info l)

abbrev pub new_sink : String → String → String → Level → (Level → Bool) → Sink
new_sink name sink_type path level handler = record {
  name = name;
  sink_type = sink_type;
  file_path = path;
  level = level;
  handler = handler;
  max_size = pos 0;
  max_age_days = pos 0;
  include_source_loc = false;
}

unfoldable pub add_sink_internal : Files → String → String → String → Level → Registry → Reply
add_sink_internal files name sink_type path level r =
    if not (is_sink_type sink_type)
    then (r, some (text "unsupported sink type: %s (must be 'stdout', 'stderr', or 'file')"))
    else if any_overlap sink_type path (get_all_sinks r)
    then (r, some (overlap_err sink_type))
    else elim (new_handler files sink_type path level r.logging_dir) [
      | err e ↦ (r, some e)
      | ok handler ↦
          wrapping "failed to register sink: %w"
            (register_sink (new_sink name sink_type path level handler) r)
    ]

unfoldable pub add_sink : Files → String → String → Level → Registry → Reply
add_sink files name sink_type level r = add_sink_internal files name sink_type "" level r

abbrev pub is_file : Option Sink → Bool
is_file none = false
is_file (some sink) = str_eq sink.sink_type "file"

-- A file sink is detached and removed; the errors are only logged.
unfoldable pub drop_if_file : String → String → Registry → Registry
drop_if_file logger name r =
    if is_file (get_sink name r) then (remove_sink name (detach_sink logger name r).0).0 else r

-- The loop over the logger's sinks.
unfoldable pub drop_file_sinks : String → List String → Registry → Registry
unfolding drop_if_file
drop_file_sinks logger [] r = r
drop_file_sinks logger (name ∷ names) r = drop_file_sinks logger names (drop_if_file logger name r)

abbrev pub file_sink_name : String → String
file_sink_name logger = append "file-" logger

-- The new sink is taken away again where it cannot be attached.
abbrev pub clean_up : String → Reply → Reply
clean_up logger (r, none) = (r, none)
clean_up logger (r, some e) = (
  (remove_sink (file_sink_name logger) r).0,
  some (wrapped "failed to attach sink to logger: %w" e),
)

abbrev pub attach_new : String → Reply → Reply
attach_new logger (r, some e) = (r, some (wrapped "failed to add file sink: %w" e))
attach_new logger (r, none) = clean_up logger (attach_sink logger (file_sink_name logger) r)

-- Without the file sinks that the logger has, if it is configured.
unfoldable pub without_file_sinks : String → Registry → Registry
without_file_sinks logger r = elim (get_logger_sinks logger r) [
  | none ↦ r
  | some names ↦ drop_file_sinks logger names r
]

-- `EnableFileSink`: the sizes and ages that the caller gives are read by nothing. The calls of the
-- registry, each under the registry's lock, are one step here.
unfoldable pub enable_file_sink : Files → String → String → ℕ → ℕ → ℕ → Registry → Reply
enable_file_sink files logger path max_size_mb max_backups max_age_days r = attach_new logger (
    add_sink_internal files (file_sink_name logger) "file" path level_debug
      (without_file_sinks logger r))

-- The first file sink of these.
unfoldable pub first_file : List String → Registry → Option String
first_file [] r = none
first_file (name ∷ names) r =
    let later = first_file names r in if is_file (get_sink name r) then some name else later

abbrev pub remove_detached : String → Reply → Reply
remove_detached name (r, some e) = (r, some (wrapped "failed to detach sink: %w" e))
remove_detached name (r, none) = wrapping "failed to remove sink: %w" (remove_sink name r)

unfoldable pub disable_file_sink : String → Registry → Reply
disable_file_sink logger r = elim (get_logger_sinks logger r) [
  | none ↦ (r, some (text "logger %q not found"))
  | some names ↦ elim (first_file names r) [
    | none ↦ (r, some (text "no file sink attached to logger %q"))
    | some name ↦
        if str_eq name ""
        then (r, some (text "no file sink attached to logger %q"))
        else remove_detached name (detach_sink logger name r)
  ]
]

-- Those of the two default sinks that are registered.
unfoldable pub has_sink_named : String → List Sink → Bool
has_sink_named name [] = false
has_sink_named name (s ∷ rest) =
    let later = has_sink_named name rest in if str_eq s.name name then true else later

abbrev pub default_if : String → Registry → List String
default_if name r = if has_sink_named name (get_all_sinks r) then name ∷ [] else []

unfoldable pub get_default_sinks : Registry → List String
get_default_sinks r = default_if "stdout" r ++ default_if "buildozer-daemon.log" r

abbrev pub given_or_default : List String → Registry → List String
given_or_default [] r = get_default_sinks r
given_or_default (name ∷ names) r = name ∷ names

abbrev pub add_sinks : String → List String → Reply → Reply
add_sinks logger names (r, some e) = (r, some (wrapped "failed to set logger level: %w" e))
add_sinks logger names (r, none) =
    if is_empty_list names
    then (r, none)
    else wrapping "failed to set logger sinks: %w" (set_logger_sinks logger names r)

-- `AddLogger`: SetLoggerLevel and SetLoggerSinks of the registry, each under the registry's lock,
-- are one step here.
unfoldable pub add_logger : String → Level → List String → Registry → Reply
add_logger logger level names r =
    add_sinks logger (given_or_default names r) (set_logger_level logger level r)
