-- ===== src/MainConfig/Examples.antt =====
-- The configuration at concrete inputs.
use free_tak_server.Base.{
  ◌≡◌, ◌≢◌, refl, String, true, false, Option, none, some, List, [], ◌∷◌, All, ◌==◌, returns,
}
use free_tak_server.Base.Dict.{Dict, lookup}
use free_tak_server.MainConfig.Text.{split_at}
use free_tak_server.MainConfig.Values.{
  str_type, int_type, Value, text, integer, get, set, entry, convert, to_str,
}
use free_tak_server.MainConfig.Keys.{_env_vars, _yaml_keys}
use free_tak_server.MainConfig.Tables.{Host, setting, _defaults}
use free_tak_server.MainConfig.Paths.{slash, sanitized}
use free_tak_server.MainConfig.Paths.Inside.{sanitized_stays}
use free_tak_server.MainConfig.Loading.{
  sections, Os, Config, import_env_config, import_variable, instance, reset,
}
use free_tak_server.MainConfig.Loading.Environment.{import_env_config_decides}
use free_tak_server.MainConfig.Loading.Configured.{instance_configures}
use free_tak_server.MainConfig.Loading.Broken.{instance_fails}
use free_tak_server.MainConfig.Loading.Types.{has_type}

abbrev host : Host
host = record {
  persistence = "/opt/fts";
  main = "/srv/FreeTAKServer";
  ip = "10.0.0.1";
  node_id = "n";
}

abbrev workers : Dict Value
workers = ("NumRoutingWorkers", integer false 5) ∷ []

abbrev given : Dict (Option (Dict Value))
given = ("Addresses", some workers) ∷ []

-- A machine with a file that sets the number of workers.
abbrev os : Os
os = record {
  exists = λ _. true;
  access = λ _. true;
  yaml = λ _. returns (sections given);
  environ = ("FTS_FEDERATION_KEYPASS", "b") ∷ ("FTS_FED_PASSWORD", "a") ∷ [];
}

abbrev unmade : Config
unmade = record { made = false; _values = [] }

instance_configures_example :
    (v : Value) × (get ((instance host os none (reset unmade)).0._values) "APIPort" ≡ returns v)
    × (has_type int_type v ≡ true)
unfolding _defaults lookup
instance_configures_example =
    instance_configures host os none unmade "APIPort" (setting (integer false 19023) int_type) refl

instance_fails_example : (instance host os none (reset unmade)).1 ≢ returns tt
unfolding _yaml_keys lookup
instance_fails_example =
    instance_fails host os none unmade given "Addresses" workers _ "NumRoutingWorkers"
      (integer false 3) int_type (integer false 5) refl refl refl refl refl refl

import_env_config_decides_example :
    returns (some (text "b"))
    ≡ returns (
        lookup "federationKeyPassword"
          ((import_env_config (_defaults host) (os.environ) _env_vars []).0))
unfolding _defaults _env_vars lookup import_env_config import_variable set entry convert to_str
import_env_config_decides_example =
    import_env_config_decides (_defaults host) "federationKeyPassword"
      (setting (text "defaultpass") str_type) refl refl (os.environ) _env_vars [] refl

sanitized_stays_example :
    (rest : List String) × (split_at slash (sanitized "../../etc/./fts") ≡ "" ∷ rest)
    × All (λ p. (p == "..") ≡ false) rest
sanitized_stays_example = sanitized_stays "../../etc/./fts"
