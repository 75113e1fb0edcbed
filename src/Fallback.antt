-- ===== src/Fallback.antt =====
-- The fallback modes of src/ampa/fallback.py: what the configuration says a session that waits for
-- input should do. A file is what `json.load` gives of it; the keys of a dict are distinct, so that
-- each write of a normalized entry is to a new key, and their order is not read.
pub mod Modes
pub mod Saved
mod Examples
use ampa.Prelude.{
  String, Bool, true, false, not, ◌&&◌, List, [], ◌∷◌, Option, none, some, if◌then◌else◌, Dict,
  lookup, contains, nonempty, is_empty,
}
use ampa.Text.{strip, lower}
use ampa.Value.{Value, Fields, null, str, dict, end, field, get, get_default, truthy, str_of, ◌or◌}

abbrev pub valid_modes : List String
valid_modes =
    "hold" ∷ "auto-accept" ∷ "auto-decline" ∷ "accept-recommendation" ∷ "discuss-options" ∷ []

abbrev pub aliases : Dict String
aliases =
    ("auto_accept", "auto-accept")
    ∷ ("auto-accept", "auto-accept")
    ∷ ("auto_decline", "auto-decline")
    ∷ ("auto-decline", "auto-decline")
    ∷ ("accept", "auto-accept")
    ∷ ("decline", "auto-decline")
    ∷ ("hold", "hold")
    ∷ ("pause", "hold")
    ∷ ("queue", "hold")
    ∷ ("accept_recommendation", "accept-recommendation")
    ∷ ("accept-recommendation", "accept-recommendation")
    ∷ ("recommend", "accept-recommendation")
    ∷ ("discuss_options", "discuss-options")
    ∷ ("discuss-options", "discuss-options")
    ∷ ("discuss", "discuss-options")
    ∷ []

abbrev pub or_hold : Option String → String
or_hold none = "hold"
or_hold (some mode) = mode

abbrev pub if_valid : String → String
if_valid mode = if contains valid_modes mode then mode else "hold"

unfoldable pub normalize_mode : Value → String
unfolding lookup strip lower str_of
normalize_mode value =
    if truthy value
    then if_valid (or_hold (lookup (lower (strip (str_of value))) aliases))
    else "hold"

-- An entry of `projects`: a mode, or a mode with overrides per decision.
pub data Project : Type 0 where
  plain : (mode : String) → Project
  detailed : (mode : String) (overrides : Dict String) → Project

pub record Config : Type 0 where
  pub default : String
  pub projects : Dict Project
  pub public_default : String

unfoldable pub overrides_of : Fields → Dict String
unfolding normalize_mode
overrides_of end = []
overrides_of (field k v fs) =
    let rest = overrides_of fs in if nonempty k then (k, normalize_mode v) ∷ rest else rest

abbrev pub overrides_in : Value → Dict String
overrides_in (dict fs) = overrides_of fs
overrides_in _ = []

-- The mode of an entry that is a dict.
abbrev pub mode_of : Fields → String
mode_of fs = normalize_mode (get fs "mode" or get fs "default")

abbrev pub loaded : Value → Project
loaded (dict fs) = detailed (mode_of fs) (overrides_in (get fs "overrides"))
loaded v = plain (normalize_mode v)

unfoldable pub projects_of : (Value → Project) → Fields → Dict Project
projects_of entry end = []
projects_of entry (field k v fs) =
    let rest = projects_of entry fs in if nonempty k then (k, entry v) ∷ rest else rest

abbrev pub projects_in : (Value → Project) → Value → Dict Project
projects_in entry (dict fs) = projects_of entry fs
projects_in entry _ = []

abbrev pub all_hold : Config
all_hold = record { default = "hold"; projects = []; public_default = "hold" }

-- `load_config`; a file that cannot be read is none.
unfoldable pub load_config : Option Value → Config
unfolding projects_of normalize_mode
load_config (some (dict data_)) = record {
  default = normalize_mode (get data_ "default");
  projects = projects_in loaded (get data_ "projects");
  public_default = normalize_mode (get data_ "public_default");
}
load_config _ = all_hold

-- `save_config` writes an entry without overrides as its mode.
abbrev pub if_overridden : String → Dict String → Project
if_overridden mode [] = plain mode
if_overridden mode (o ∷ os) = detailed mode (o ∷ os)

abbrev pub saved : Value → Project
saved (dict fs) = if_overridden (mode_of fs) (overrides_in (get fs "overrides"))
saved v = plain (normalize_mode v)

unfoldable pub save_config : Fields → Config
unfolding projects_of normalize_mode
save_config config = record {
  default = normalize_mode (get config "default");
  projects = projects_in saved (get config "projects");
  public_default = normalize_mode (get config "public_default");
}

-- The text of a configuration that is saved.
unfoldable pub modes_value : Dict String → Fields
modes_value [] = end
modes_value ((k, mode) ∷ m) = field k (str mode) (modes_value m)

abbrev pub project_value : Project → Value
project_value (plain mode) = str mode
project_value (detailed mode overrides) =
    dict (field "mode" (str mode) (field "overrides" (dict (modes_value overrides)) end))

unfoldable pub projects_value : Dict Project → Fields
unfolding modes_value
projects_value [] = end
projects_value ((k, p) ∷ m) = field k (project_value p) (projects_value m)

unfoldable pub config_value : Config → Value
unfolding projects_value
config_value config = dict (
    field "default" (str config.default) (
      field "projects" (dict (projects_value config.projects))
        (field "public_default" (str config.public_default) end)))

-- `decision and decision in overrides`
abbrev pub override : Option String → Dict String → Option String
override none overrides = none
override (some decision) overrides = if nonempty decision then lookup decision overrides else none

abbrev pub override_or : String → Option String → String
override_or mode none = normalize_mode (str mode)
override_or mode (some m) = normalize_mode (str m)

abbrev pub mode_in : Option String → Project → String
mode_in decision (plain mode) = normalize_mode (str mode)
mode_in decision (detailed mode overrides) = override_or mode (override decision overrides)

abbrev pub project_entry : Option String → Config → Option Project
project_entry none config = none
project_entry (some id) config = if nonempty id then lookup id config.projects else none

abbrev is_absent : Option String → Bool
is_absent none = true
is_absent (some id) = false

abbrev pub public_of : Option Bool → Option String → Bool
public_of none project_id = is_absent project_id
public_of (some is_public) project_id = is_public

abbrev pub mode_or_default : Option String → Bool → Config → Option Project → String
mode_or_default decision is_public config (some p) = mode_in decision p
mode_or_default decision is_public config none =
    normalize_mode (str (if is_public then config.public_default else config.default))

-- `resolve_mode` on a configuration that is loaded.
unfoldable pub mode_for :
    Option String → (is_public : Option Bool) (decision : Option String) → Config → String
unfolding lookup normalize_mode
mode_for project_id is_public decision config =
    mode_or_default decision (public_of is_public project_id) config
      (project_entry project_id config)

abbrev env_mode_of : (env_override : Bool) → Option String → Option String
env_mode_of true (some mode) = if nonempty mode then some mode else none
env_mode_of true none = none
env_mode_of false env_mode = none

abbrev env_or : String → Option String → String
env_or mode none = mode
env_or mode (some env_mode) = normalize_mode (str env_mode)

-- `resolve_mode`: `env_mode` is AMPA_FALLBACK_MODE, `exists` whether the file of the configuration
-- is there, and `file` what is read of it.
unfoldable pub resolve_mode :
    (env_override require_config : Bool) (env_mode : Option String) (exists : Bool)
    (file : Option Value)
    → Option String
    → (is_public : Option Bool) (decision : Option String) → String
unfolding mode_for load_config
resolve_mode env_override require_config env_mode exists file project_id is_public decision =
    env_or
      (if require_config && not exists
        then "auto-accept"
        else mode_for project_id is_public decision (load_config file))
      (env_mode_of env_override env_mode)
