-- ===== src/MainConfig/Loading.antt =====
-- MainConfig.py: `instance`, `read_yaml_config`, `import_env_config`.
pub mod Stages
pub mod Types
pub mod Ends
pub mod Broken
pub mod Environment
pub mod Configured
pub mod Stored
use free_tak_server.Base.{
  ℕ, String, str_append, Bool, true, false, not, ◌||◌, ◌&&◌, Option, none, some, List, [], ◌∷◌,
  ◌++◌, if◌then◌else◌, nat_eq, ◌==◌, Exn, type_error, system_exit, key_error, Outcome, returns,
  raised, ⊤,
}
use free_tak_server.Base.Dict.{Dict, lookup, contains}
use free_tak_server.MainConfig.Text.{split_at, split_list, ends_with, is_yes}
use free_tak_server.MainConfig.Values.{
  Ty, bool_type, list_type, Value, text, boolean, items, integer, path, null, Setting, Settings,
  Values, entry, set,
}
use free_tak_server.MainConfig.Paths.{validate_and_sanitize_path}
use free_tak_server.MainConfig.Keys.{Target, named, inline, _env_vars, _yaml_keys}
use free_tak_server.MainConfig.Tables.{Host, _defaults}

-- The values so far, and how the call ends.
abbrev pub Load : Type 0
Load = Values × Outcome ⊤

-- One statement after another: an exception ends both.
abbrev pub then_load : Load → (Values → Load) → Load
then_load (values, returns u) next = next values
then_load (values, raised e) next = (values, raised e)

-- The first loop of `instance`.
unfoldable pub preload : Settings → Settings → Values → Load
unfolding set
preload defaults [] values = (values, returns tt)
preload defaults ((name, metadata) ∷ rest) values =
    then_load (set defaults name (metadata.default) true values)
      (λ after. preload defaults rest after)

-- The value that `import_env_config` makes of an environment variable, for a setting of a type.
abbrev pub env_value : Ty → String → Value
env_value bool_type s = boolean (is_yes s)
env_value list_type s = items (split_list s)
env_value _ s = text s

-- `self[config_var] = env_value`
unfoldable pub import_variable : Settings → String → String → Values → Load
unfolding set entry
import_variable defaults config_var s values = elim (entry defaults config_var) [
  | raised e ↦ (values, raised e)
  | returns m ↦ set defaults config_var (env_value (m.type) s) false values
]

-- `import_env_config`, of the variables that are left.
unfoldable pub import_env_config : Settings → Dict String → Dict String → Values → Load
unfolding lookup import_variable
import_env_config defaults environ [] values = (values, returns tt)
import_env_config defaults environ ((env_var, config_var) ∷ rest) values =
    elim (lookup env_var environ) [
      | none ↦ import_env_config defaults environ rest values
      | some s ↦
          then_load (import_variable defaults config_var s values)
            (λ after. import_env_config defaults environ rest after)
    ]

-- What `yaml.safe_load` makes of the file: nothing, of an empty file, or sections; a section may
-- be empty too. A section that is neither empty nor a mapping is not modelled.
pub data Yaml : Type 0 where
  empty : Yaml
  sections : Dict (Option (Dict Value)) → Yaml

-- The operating system: `os.path.exists`, `os.access` for both modes, the parsed file, and
-- `os.environ`.
pub record Os : Type 0 where
  pub exists : String → Bool
  pub access : String → Bool
  pub yaml : String → Outcome Yaml
  pub environ : Dict String

-- A value of the YAML file on its way to `set`.
abbrev pub yaml_value : (String → Bool) → String → Value → Outcome Value
unfolding validate_and_sanitize_path
yaml_value access attr value =
    if ends_with attr "PATH" || ends_with attr "DIR"
    then validate_and_sanitize_path access value
    else returns value

-- `self.set(var_name, value=value)`: a dictionary cannot be a key of `_defaults`.
unfoldable pub set_target : Settings → Target → Value → Values → Load
unfolding set
set_target defaults (named name) value values = set defaults name value false values
set_target defaults (inline v t) value values = (values, raised type_error)

-- One entry of a section.
unfoldable pub read_attr : Settings → (String → Bool) → String → Target → Value → Values → Load
unfolding set_target
read_attr defaults access attr var_name value values = elim (yaml_value access attr value) [
  | raised e ↦ (values, raised e)
  | returns v ↦ set_target defaults var_name v values
]

-- The inner loop of `read_yaml_config`.
unfoldable pub read_section : Settings → (String → Bool) → Dict Value → Dict Target → Values → Load
unfolding read_attr lookup
read_section defaults access given [] values = (values, returns tt)
read_section defaults access given ((attr, var_name) ∷ rest) values = elim (lookup attr given) [
  | none ↦ read_section defaults access given rest values
  | some value ↦
      then_load (read_attr defaults access attr var_name value values)
        (λ after. read_section defaults access given rest after)
]

-- The outer loop.
unfoldable pub read_sections :
    Settings → (String → Bool) → Dict (Option (Dict Value)) → Dict (Dict Target) → Values → Load
unfolding read_section lookup
read_sections defaults access given [] values = (values, returns tt)
read_sections defaults access given ((sect, attrs) ∷ rest) values = elim (lookup sect given) [
  | none ↦ read_sections defaults access given rest values
  | some none ↦ read_sections defaults access given rest values
  | some (some section) ↦
      then_load (read_section defaults access section attrs values)
        (λ after. read_sections defaults access given rest after)
]

-- `read_yaml_config`, for a table of keys.
unfoldable pub read_yaml_config : Settings → Dict (Dict Target) → Os → String → Values → Load
unfolding read_sections
read_yaml_config defaults keys os yaml_path values = elim (os.yaml yaml_path) [
  | raised e ↦ (values, raised e)
  | returns empty ↦ (values, raised type_error)
  | returns (sections given) ↦ read_sections defaults (os.access) given keys values
]

-- `cls._instance is not None`, and `cls._values`.
pub record Config : Type 0 where
  pub made : Bool
  pub _values : Values

-- The path of the YAML file: the argument, the environment, the default.
abbrev pub config_path : Host → Os → Option String → String
config_path host os (some config_file) = config_file
config_path host os none = elim (lookup "FTS_CONFIG_PATH" (os.environ)) [
  | some s ↦ s
  | none ↦ str_append (host.persistence) "/FTSConfig.yaml"
]

-- The YAML file, where there is one.
unfoldable pub overlay : Host → Os → Option String → Values → Load
unfolding read_yaml_config _defaults _yaml_keys
overlay host os config_file values =
    if os.exists (config_path host os config_file)
    then read_yaml_config (_defaults host) _yaml_keys os (config_path host os config_file) values
    else (values, returns tt)

-- What follows the defaults.
unfoldable pub configure : Host → Os → Option String → Values → Load
unfolding overlay import_env_config _env_vars
configure host os config_file values =
    then_load (overlay host os config_file values)
      (λ after. import_env_config (_defaults host) (os.environ) _env_vars after)

-- The three stages of the first call.
unfoldable pub load : Host → Os → Option String → Values → Load
unfolding preload configure
load host os config_file values =
    then_load (preload (_defaults host) (_defaults host) values) (configure host os config_file)

-- `instance`: `_instance` is set before anything is read, and stays when an exception leaves.
unfoldable pub instance : Host → Os → Option String → Config → Config × Outcome ⊤
unfolding load
instance host os config_file c =
    if c.made then (c, returns tt) else finish (load host os config_file (c._values))
  where
    finish : Load → Config × Outcome ⊤
    finish (values, r) = (record { made = true; _values = values }, r)

-- `reset`
abbrev pub reset : Config → Config
reset c = record { made = false; _values = [] }
