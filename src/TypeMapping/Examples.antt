-- ===== src/TypeMapping/Examples.antt =====
-- The type mappings at concrete inputs.
use free_tak_server.Base.{◌≡◌, none, some, List, [], ◌∷◌}
use free_tak_server.Base.Dict.{lookup}
use free_tak_server.TypeMapping.{
  Mappings, start, get_human_readable_type, get_machine_readable_type,
}
use free_tak_server.TypeMapping.Registered.{
  Registration, machine_to_human, human_to_machine, register, registered_types,
}

abbrev mappings : Mappings
mappings = record {
  machine_to_human_mapping = ("b-a-o-tbl", "old") ∷ [];
  human_to_machine_mapping = [];
}

abbrev registrations : List Registration
registrations =
    machine_to_human (("b-a-o-tbl", "911 Alert") ∷ [])
    ∷ human_to_machine (("911 Alert", "b-a-o-tbl") ∷ [])
    ∷ []

registered_types_example :
    let s = register registrations (start (some mappings)) in
    (get_human_readable_type "b-a-o-tbl" none s ≡ some "911 Alert")
    × (get_machine_readable_type "b-a-o-tbl" none s ≡ none)
    × (start s.file ≡ s)
unfolding lookup
registered_types_example = registered_types registrations mappings "b-a-o-tbl" none
