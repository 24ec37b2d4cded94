-- ===== src/Logging/Registry/Routing.antt =====
-- Where a record goes: the lookup of a logger's configuration by its name's parents, and
-- `Registry.log` of pkg/logging/logger.go. The routing is one step, although it takes the registry's
-- lock for the lookup and again for each sink.
pub mod Nearest
pub mod Reach
use Prim.Native.String.{◌++◌ as append}
use Prim.Native.Char.{Char}
use buildozer.Common.{
  ℕ, ◌==◌, ℤ, pos, negsuc, String, Bool, true, false, not, ◌&&◌, Option, none, some, List, [], ◌∷◌,
  ◌++◌, ◌≡◌, ◌↔◌, refl, arith, inl, inr, Bool-cases, Option-cases, map, if◌then◌else◌, lookup,
  str_eq, str_eq_iff,
}
use buildozer.Logging.Registry.{
  Level, level_leb, Sink, ConfiguredLogger, Registry, contains, get_sink, set_sink_level,
}

abbrev pub is_dot : Char → Bool
is_dot c = str_eq (String.◌∷◌ c "") "."

-- `strings.Split(name, ".")`: a text has one part more than dots.
abbrev pub with_first : String → List String → List String
with_first piece [] = piece ∷ []
with_first piece (x ∷ xs) = append piece x ∷ xs

unfoldable pub split_dots : String → List String
split_dots String.[] = "" ∷ []
split_dots (String.◌∷◌ c s) =
    let rest = split_dots s in if is_dot c then "" ∷ rest else with_first (String.◌∷◌ c "") rest

-- `strings.Join(parts, ".")`
unfoldable pub join_dots : List String → String
join_dots [] = ""
join_dots (x ∷ []) = x
join_dots (x ∷ y ∷ rest) = append x (append "." (join_dots (y ∷ rest)))

-- The texts `strings.Join(parts[:i], ".")` for `i` from `len(parts) - 1` down to 1, of the parts
-- behind `taken`.
unfoldable pub prefixes : List String → List String → List String
prefixes taken [] = []
prefixes taken (x ∷ []) = []
prefixes taken (x ∷ y ∷ rest) =
    let here = taken ++ x ∷ [] in prefixes here (y ∷ rest) ++ join_dots here ∷ []

unfoldable pub parent_names : String → List String
unfolding split_dots prefixes join_dots
parent_names name = prefixes [] (split_dots name)

-- The loop over the parents: the first that is configured.
unfoldable pub first_configured :
    List String → List (String × ConfiguredLogger) → Option (String × ConfiguredLogger)
first_configured [] configs = none
first_configured (name ∷ names) configs =
    let later = first_configured names configs in
    elim (lookup name configs) [ none ↦ later | some config ↦ some (name, config) ]

abbrev pub config_of : Option (String × ConfiguredLogger) → Option ConfiguredLogger
config_of none = none
config_of (some (name, config)) = some config

abbrev name_of : Option (String × ConfiguredLogger) → String
name_of none = ""
name_of (some (name, config)) = name

unfoldable pub get_logger_config : String → Registry → Option ConfiguredLogger
get_logger_config name r = elim (lookup name r.logger_configs) [
  | some config ↦ some config
  | none ↦ config_of (first_configured (parent_names name) r.logger_configs)
]

unfoldable pub find_resolved_logger_name : String → Registry → String
find_resolved_logger_name name r = elim (lookup name r.logger_configs) [
  | some config ↦ name
  | none ↦ name_of (first_configured (parent_names name) r.logger_configs)
]

pub data AttributeOrGroup : Type 0 where
  attribute : String → String → AttributeOrGroup
  group : String → AttributeOrGroup

abbrev pub is_daemon : AttributeOrGroup → Bool
is_daemon (attribute name value) = str_eq name "daemon"
is_daemon (group name) = false

-- The first attribute of the daemon, if there is one.
abbrev pub daemon_attribute : List AttributeOrGroup → List AttributeOrGroup
daemon_attribute [] = []
daemon_attribute (a ∷ rest) = if is_daemon a then a ∷ [] else daemon_attribute rest

abbrev pub other_attributes : List AttributeOrGroup → List AttributeOrGroup
other_attributes [] = []
other_attributes (a ∷ rest) =
    if is_daemon a then other_attributes rest else a ∷ other_attributes rest

-- A record that a sink's handler gets, behind these `WithAttrs` and `WithGroup` calls.
pub record Delivery : Type 0 where
  pub sink_name : String
  pub calls : List AttributeOrGroup

abbrev pub effective_level : ConfiguredLogger → Registry → Level
effective_level config r =
    if level_leb config.level r.global_level then r.global_level else config.level

-- The loop over the sinks' names.
unfoldable pub deliver : Level → List AttributeOrGroup → List String → Registry → List Delivery
unfolding get_sink
deliver level attrs [] r = []
deliver level attrs (name ∷ names) r =
    let later = deliver level attrs names r in
    elim (get_sink name r) [
      | none ↦ later
      | some sink ↦
          if sink.handler level
          then record { sink_name = name; calls = daemon_attribute attrs ++ other_attributes attrs }
            ∷ later
          else later
    ]

-- The routing of a record of this logger and level.
unfoldable pub route : String → Level → List AttributeOrGroup → Registry → List Delivery
route name level attrs r = elim (get_logger_config name r) [
  | none ↦ []
  | some config ↦
      if level_leb (effective_level config r) level
      then deliver level attrs config.sink_names r
      else []
]

-- A record without a logger's name goes by its message.
abbrev pub logger_of : String → String → String
logger_of name message = if str_eq name "" then message else name

-- `Registry.log` of a record with this name of a logger, empty where the record has none, and
-- this message and level.
unfoldable pub log : String → String → Level → List AttributeOrGroup → Registry → List Delivery
log name message level attrs r = route (logger_of name message) level attrs r

-- The sinks that get the record.
abbrev pub receivers : List Delivery → List String
receivers ds = map (λ d. d.sink_name) ds
