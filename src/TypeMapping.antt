-- ===== src/TypeMapping.antt =====
-- FreeTAKServer/components/core/type/controllers/memory_mapping.py: the two dictionaries between the
-- machine readable and the human readable types of CoTs, and their file.
pub mod Registered
mod Examples
use free_tak_server.Base.{String, Option, none, some, List, [], ◌∷◌}
use free_tak_server.Base.Dict.{Dict, lookup, insert}

-- `_persistence`: the two dictionaries.
pub record Mappings : Type 0 where
  pub machine_to_human_mapping : Dict String
  pub human_to_machine_mapping : Dict String

-- A `MemoryMapping` and the file at PERSISTENCE_PATH. Its two attributes are the dictionaries of
-- `_persistence` themselves.
pub record Memory : Type 0 where
  pub _persistence : Mappings
  pub file : Option Mappings

abbrev pub no_mappings : Mappings
no_mappings = record { machine_to_human_mapping = []; human_to_machine_mapping = [] }

-- `__init__`: a missing file is written first.
unfoldable pub start : Option Mappings → Memory
start none = record { _persistence = no_mappings; file = some no_mappings }
start (some m) = record { _persistence = m; file = some m }

-- `_update_persistence`
unfoldable pub write_persistence : Memory → Memory
write_persistence s = record s { file = some s._persistence }

-- `d.update(m)`
unfoldable pub update : Dict String → Dict String → Dict String
unfolding insert
update d [] = d
update d ((k, v) ∷ m) = update (insert k v d) m

unfoldable pub register_machine_to_human_mapping : Dict String → Memory → Memory
unfolding update write_persistence
register_machine_to_human_mapping m s = write_persistence (record s {
  _persistence = record s._persistence {
    machine_to_human_mapping = update s._persistence.machine_to_human_mapping m;
  };
})

unfoldable pub register_human_to_machine_mapping : Dict String → Memory → Memory
unfolding update write_persistence
register_human_to_machine_mapping m s = write_persistence (record s {
  _persistence = record s._persistence {
    human_to_machine_mapping = update s._persistence.human_to_machine_mapping m;
  };
})

abbrev pub or_default : Option String → Option String → Option String
or_default none default = default
or_default (some v) default = some v

-- `mapping.get(key, default)` of the one dictionary and of the other.
unfoldable pub get_machine_readable_type : String → Option String → Memory → Option String
unfolding lookup
get_machine_readable_type k default s =
    or_default (lookup k s._persistence.human_to_machine_mapping) default

unfoldable pub get_human_readable_type : String → Option String → Memory → Option String
unfolding lookup
get_human_readable_type k default s =
    or_default (lookup k s._persistence.machine_to_human_mapping) default
