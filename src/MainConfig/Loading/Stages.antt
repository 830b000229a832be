-- ===== src/MainConfig/Loading/Stages.antt =====
-- MainConfig.py: what `set` keeps, a whole stage of loading keeps, however it ends.
use free_tak_server.Base.{
  inl, inr, Option-cases, Outcome-cases, String, Bool, false, Option, none, some, [], ◌∷◌, returns,
  raised,
}
use free_tak_server.Base.Dict.{Dict, lookup}
use free_tak_server.MainConfig.Values.{Value, Settings, Values, entry, set}
use free_tak_server.MainConfig.Keys.{Target, named, inline}
use free_tak_server.MainConfig.Loading.{
  Load, then_load, import_variable, import_env_config, env_value, empty, sections, Os, yaml_value,
  set_target, read_attr, read_section, read_sections, read_yaml_config,
}

module _ {P : Values → Type 0} where
  pub then_load_keeps :
      (l : Load) (next : Values → Load)
      → P (l.0)
      → ((vs : Values) → P vs → P ((next vs).0))
      → P ((then_load l next).0)
  then_load_keeps (vs, returns u) next h f = f vs h
  then_load_keeps (vs, raised e) next h f = h

module _ (defaults : Settings) {P : Values → Type 0}
    (set_keeps : (name : String) (value : Value) (vs : Values)
      → P vs
      → P ((set defaults name value false vs).0)) where
  import_variable_keeps :
      (name s : String) (vs : Values) → P vs → P ((import_variable defaults name s vs).0)
  unfolding import_variable
  import_variable_keeps name s vs h = elim (Outcome-cases (entry defaults name)) [
    | inr (e, bad) ↦ rw (import_variable, bad) h
    | inl (m, good) ↦ rw (import_variable, good) (set_keeps name (env_value (m.type) s) vs h)
  ]

  pub import_env_config_keeps :
      (environ vars : Dict String) (vs : Values)
      → P vs
      → P ((import_env_config defaults environ vars vs).0)
  unfolding import_env_config
  import_env_config_keeps environ [] vs h = h
  import_env_config_keeps environ ((env_var, name) ∷ rest) vs h =
      elim (Option-cases (lookup env_var environ)) [
        | inl missing ↦ rw (import_env_config, missing) (import_env_config_keeps environ rest vs h)
        | inr (s, found) ↦
            rw (import_env_config, found)
              (then_load_keeps {P = P} (import_variable defaults name s vs)
                (λ after. import_env_config defaults environ rest after)
                (import_variable_keeps name s vs h)
                (λ after. import_env_config_keeps environ rest after))
      ]

  read_attr_keeps :
      (access : String → Bool) (attr : String) (t : Target) (value : Value) (vs : Values)
      → P vs
      → P ((read_attr defaults access attr t value vs).0)
  unfolding read_attr set_target
  read_attr_keeps access attr (named name) value vs h =
      elim (Outcome-cases (yaml_value access attr value)) [
        | inr (e, bad) ↦ rw (read_attr, bad) h
        | inl (v, good) ↦ rw (read_attr, good) (set_keeps name v vs h)
      ]
  read_attr_keeps access attr (inline d t) value vs h =
      elim (Outcome-cases (yaml_value access attr value)) [
        | inr (e, bad) ↦ rw (read_attr, bad) h
        | inl (v, good) ↦ rw (read_attr, good) h
      ]

  read_section_keeps :
      (access : String → Bool) (given : Dict Value) (attrs : Dict Target) (vs : Values)
      → P vs
      → P ((read_section defaults access given attrs vs).0)
  unfolding read_section
  read_section_keeps access given [] vs h = h
  read_section_keeps access given ((attr, t) ∷ rest) vs h =
      elim (Option-cases (lookup attr given)) [
        | inl missing ↦ rw (read_section, missing) (read_section_keeps access given rest vs h)
        | inr (value, found) ↦
            rw (read_section, found)
              (then_load_keeps {P = P} (read_attr defaults access attr t value vs)
                (λ after. read_section defaults access given rest after)
                (read_attr_keeps access attr t value vs h)
                (λ after. read_section_keeps access given rest after))
      ]

  read_sections_keeps :
      (access : String → Bool) (given : Dict (Option (Dict Value))) (keys : Dict (Dict Target))
      (vs : Values)
      → P vs
      → P ((read_sections defaults access given keys vs).0)
  unfolding read_sections
  read_sections_keeps access given [] vs h = h
  read_sections_keeps access given ((sect, attrs) ∷ rest) vs h =
      elim (Option-cases (lookup sect given)) [
        | inl missing ↦ rw (read_sections, missing) (read_sections_keeps access given rest vs h)
        | inr (none, found) ↦ rw (read_sections, found) (read_sections_keeps access given rest vs h)
        | inr (some section, found) ↦
            rw (read_sections, found)
              (then_load_keeps {P = P} (read_section defaults access section attrs vs)
                (λ after. read_sections defaults access given rest after)
                (read_section_keeps access section attrs vs h)
                (λ after. read_sections_keeps access given rest after))
      ]

  pub read_yaml_config_keeps :
      (keys : Dict (Dict Target)) (os : Os) (yaml_path : String) (vs : Values)
      → P vs
      → P ((read_yaml_config defaults keys os yaml_path vs).0)
  unfolding read_yaml_config
  read_yaml_config_keeps keys os yaml_path vs h = elim (Outcome-cases (os.yaml yaml_path)) [
    | inr (e, bad) ↦ rw (read_yaml_config, bad) h
    | inl (empty, good) ↦ rw (read_yaml_config, good) h
    | inl (sections given, good) ↦
        rw (read_yaml_config, good) (read_sections_keeps (os.access) given keys vs h)
  ]
