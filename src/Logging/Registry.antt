-- ===== src/Logging/Registry.antt =====
-- The registry of pkg/logging/logger.go. Each method holds the registry's lock, so it is one
-- step. A sink of the map is a pointer, and is changed in its entry. Names are compared as texts;
-- a handler is what it lets pass.
pub mod Routing
pub mod Integrity
pub mod Upkeep
use Prim.Native.String.{String as Str, ◌++◌ as append}
use Prim.Native.Char.{Char, code}
use buildozer.Common.{
  ℕ, leb, ◌==◌, ℤ, pos, negsuc, String, Bool, true, false, not, ◌&&◌, ◌||◌, Option, none, some,
  List, [], ◌∷◌, ◌++◌, map, if◌then◌else◌, is_some, is_empty_list, lookup, insert, delete, str_eq,
}
use buildozer.Errors.{Err, text}

-- `slog.Level`: DEBUG is -4, INFO is 0, WARN is 4 and ERROR is 8.
abbrev pub Level : Type 0
Level = ℤ

unfoldable pub level_leb : Level → Level → Bool
level_leb (pos a) (pos b) = leb a b
level_leb (pos a) (negsuc b) = false
level_leb (negsuc a) (pos b) = true
level_leb (negsuc a) (negsuc b) = leb b a

abbrev pub level_info : Level
level_info = pos 0

abbrev pub level_debug : Level
level_debug = negsuc 3

-- `handler` is the handler's `Enabled`.
pub record Sink : Type 0 where
  pub name : String
  pub sink_type : String
  pub file_path : String
  pub level : Level
  pub handler : Level → Bool
  pub max_size : ℤ
  pub max_age_days : ℤ
  pub include_source_loc : Bool

pub record ConfiguredLogger : Type 0 where
  pub level : Level
  pub sink_names : List String

pub record Registry : Type 0 where
  pub sinks : List (String × Sink)
  pub logger_configs : List (String × ConfiguredLogger)
  pub global_level : Level
  pub logging_dir : String

unfoldable pub new_registry : Registry
new_registry = record {
  sinks = [];
  logger_configs = [];
  global_level = level_info;
  logging_dir = "";
}

-- The registry, and the error where the call fails.
abbrev pub Reply : Type 0
Reply = Registry × Option Err

unfoldable pub contains : String → List String → Bool
contains name [] = false
contains name (x ∷ xs) = let later = contains name xs in if str_eq x name then true else later

unfoldable pub register_sink : Sink → Registry → Reply
register_sink sink r =
    if is_some (lookup sink.name r.sinks)
    then (r, some (text "sink %q already registered"))
    else (record r { sinks = insert sink.name sink r.sinks }, none)

unfoldable pub get_sink : String → Registry → Option Sink
get_sink name r = lookup name r.sinks

unfoldable pub get_all_sinks : Registry → List Sink
get_all_sinks r = map (λ entry. entry.1) r.sinks

-- Whether every name is a sink's.
unfoldable pub all_registered : List String → Registry → Bool
all_registered [] r = true
all_registered (name ∷ names) r =
    let later = all_registered names r in if is_some (lookup name r.sinks) then later else false

abbrev pub with_sinks : List String → Option ConfiguredLogger → ConfiguredLogger
with_sinks names none = record { level = level_info; sink_names = names }
with_sinks names (some config) = record config { sink_names = names }

unfoldable pub set_logger_sinks : String → List String → Registry → Reply
set_logger_sinks logger names r =
    if all_registered names r
    then (
      record r {
        logger_configs =
            insert logger (with_sinks names (lookup logger r.logger_configs)) r.logger_configs;
      },
      none,
    )
    else (r, some (text "sink %q not found"))

unfoldable pub get_logger_sinks : String → Registry → Option (List String)
get_logger_sinks logger r = elim (lookup logger r.logger_configs) [
  | none ↦ none
  | some config ↦ some config.sink_names
]

unfoldable pub set_logger_level : String → Level → Registry → Reply
set_logger_level logger level r = elim (lookup logger r.logger_configs) [
  | none ↦ (r, some (text "logger %q not found"))
  | some config ↦ (
    record r { logger_configs = insert logger (record config { level = level }) r.logger_configs },
    none,
  )
]

unfoldable pub set_global_level : Level → Registry → Registry
set_global_level level r = record r { global_level = level }

unfoldable pub set_logging_dir : String → Registry → Registry
set_logging_dir dir r = record r { logging_dir = dir }

-- The handler of the sink is left as it is.
unfoldable pub set_sink_level : String → Level → Registry → Reply
set_sink_level name level r = elim (lookup name r.sinks) [
  | none ↦ (r, some (text "sink %q not found"))
  | some sink ↦ (record r { sinks = insert name (record sink { level = level }) r.sinks }, none)
]

-- Whether some logger uses the sink.
unfoldable pub in_use : String → List (String × ConfiguredLogger) → Bool
in_use name [] = false
in_use name (entry ∷ rest) =
    let later = in_use name rest in if contains name entry.1.sink_names then true else later

unfoldable pub remove_sink : String → Registry → Reply
remove_sink name r =
    if is_some (lookup name r.sinks)
    then (if in_use name r.logger_configs
        then (r, some (text "sink %q is in use by loggers: %v"))
        else (record r { sinks = delete name r.sinks }, none))
    else (r, some (text "sink %q not found"))

unfoldable pub remove_logger : String → Registry → Reply
remove_logger logger r =
    if is_some (lookup logger r.logger_configs)
    then (record r { logger_configs = delete logger r.logger_configs }, none)
    else (r, some (text "logger %q not found"))

abbrev pub with_config : String → ConfiguredLogger → Registry → Registry
with_config logger config r = record r { logger_configs = insert logger config r.logger_configs }

unfoldable pub attach_sink : String → String → Registry → Reply
attach_sink logger name r =
    if is_some (lookup name r.sinks)
    then elim (lookup logger r.logger_configs) [
      | none ↦ (r, some (text "logger %q not found"))
      | some config ↦
          if contains name config.sink_names
          then (r, some (text "sink %q is already attached to logger %q"))
          else (
            with_config logger (record config { sink_names = config.sink_names ++ name ∷ [] }) r,
            none,
          )
    ]
    else (r, some (text "sink %q not found"))

-- The names but one.
unfoldable pub without : String → List String → List String
without name [] = []
without name (x ∷ xs) = let later = without name xs in if str_eq x name then later else x ∷ later

unfoldable pub detach_sink : String → String → Registry → Reply
detach_sink logger name r = elim (lookup logger r.logger_configs) [
  | none ↦ (r, some (text "logger %q not found"))
  | some config ↦
      if contains name config.sink_names
      then (
        with_config logger (record config { sink_names = without name config.sink_names }) r,
        none,
      )
      else (r, some (text "sink %q is not attached to logger %q"))
]
