-- ===== src/MainConfig/Loading/Configured.antt =====
-- MainConfig.py, `instance`: what the first call leaves behind.
use free_tak_server.Base.{
  ◌≡◌, ◌∙◌, refl, inl, inr, String, true, false, Option, some, [], arith, Bool-cases, returns,
}
use free_tak_server.Base.Dict.{lookup, insert, lookup-nil}
use free_tak_server.MainConfig.Values.{
  Value, str_type, text, Setting, Values, get, set, entry, convert, to_str, to_int, to_list,
}
use free_tak_server.MainConfig.Keys.{_env_vars, _yaml_keys}
use free_tak_server.MainConfig.Tables.{Host, _defaults, fts_version, api_version, fixed}
use free_tak_server.MainConfig.Loading.{
  preload, import_env_config, Os, config_path, overlay, configure, load, Config, reset, instance,
}
use free_tak_server.MainConfig.Loading.Stages.{
  then_load_keeps, import_env_config_keeps, read_yaml_config_keeps,
}
use free_tak_server.MainConfig.Loading.Types.{has_type, IsTyped, set-IsTyped, preload-IsTyped}
use free_tak_server.MainConfig.Loading.Stored.{
  IsStored, set-IsStored, preload_stores, IsFixed, set-IsFixed,
}

module _ (host : Host) where
  -- The values after the defaults.
  unfoldable defaulted : Values
  unfolding preload
  defaulted = (preload (_defaults host) (_defaults host) []).0

  defaults_stored : (preload (_defaults host) (_defaults host) []).1 ≡ returns tt
  unfolding preload _defaults set entry convert to_str to_int to_list lookup insert
  defaults_stored = refl

  defaulted-version : lookup "version" defaulted ≡ some (text fts_version)
  unfolding defaulted preload _defaults set entry convert to_str to_int to_list lookup insert
  defaulted-version = refl

  defaulted-api_version : lookup "APIVersion" defaulted ≡ some (text api_version)
  unfolding defaulted preload _defaults set entry convert to_str to_int to_list lookup insert
  defaulted-api_version = refl

  defaulted-IsTyped : IsTyped (_defaults host) defaulted
  unfolding defaulted
  defaulted-IsTyped =
      preload-IsTyped (_defaults host) (_defaults host) []
        (λ name v h. ground (arith, lookup-nil {V = Value} name, h))

  defaulted-IsStored :
      (name : String) (s : Setting)
      → lookup name (_defaults host) ≡ some s
      → IsStored name defaulted
  unfolding defaulted
  defaulted-IsStored = preload_stores (_defaults host) (_defaults host) [] defaults_stored

  -- What `set` keeps, the stages after the defaults keep.
  module _ {P : Values → Type 0}
      (keeps : (name : String) (value : Value) (vs : Values)
        → P vs
        → P ((set (_defaults host) name value false vs).0))
      (os : Os) (config_file : Option String) where
    overlay_keeps : (vs : Values) → P vs → P ((overlay host os config_file vs).0)
    unfolding overlay
    overlay_keeps vs h = elim (Bool-cases (os.exists (config_path host os config_file))) [
      | inl there ↦
          rw (overlay, there)
            (read_yaml_config_keeps (_defaults host) {P = P} keeps _yaml_keys os
              (config_path host os config_file) vs h)
      | inr absent ↦ rw (overlay, absent) h
    ]

    configure_keeps : (vs : Values) → P vs → P ((configure host os config_file vs).0)
    unfolding configure
    configure_keeps vs h =
        then_load_keeps {P = P} (overlay host os config_file vs)
          (λ after. import_env_config (_defaults host) (os.environ) _env_vars after)
          (overlay_keeps vs h)
          (λ after.
            import_env_config_keeps (_defaults host) {P = P} keeps (os.environ) _env_vars after)

    load_keeps : P defaulted → P ((load host os config_file []).0)
    unfolding load defaulted
    load_keeps start =
        then_load_keeps {P = P} (preload (_defaults host) (_defaults host) [])
          (configure host os config_file) start configure_keeps

  -- After the first call of `instance`, whatever the file and the environment hold and however the
  -- call ends, `get` of every setting of `_defaults` returns a value, and it has the declared type.
  pub instance_configures :
      (os : Os) (config_file : Option String) (c : Config) (name : String) (s : Setting)
      → lookup name (_defaults host) ≡ some s
      → (v : Value) × (get ((instance host os config_file (reset c)).0._values) name ≡ returns v)
        × (has_type (s.type) v ≡ true)
  unfolding instance get
  instance_configures os config_file c name s declared =
      let stored =
        load_keeps {P = IsStored name}
          (λ j value vs. set-IsStored (_defaults host) j value false vs name) os config_file
          (defaulted-IsStored name s declared) in
      let typed =
        load_keeps {P = IsTyped (_defaults host)}
          (λ j value vs. set-IsTyped (_defaults host) j value false vs) os config_file
          defaulted-IsTyped name (stored.0) (stored.1) in
      (stored.0, ground (arith, stored.1), ground (arith, declared, typed.1, typed.2))

  load_fixed :
      (os : Os) (config_file : Option String) (name : String) (s : Setting)
      → lookup name (_defaults host) ≡ some s
      → s.readonly ≡ true
      → lookup name ((load host os config_file []).0) ≡ lookup name defaulted
  load_fixed os config_file =
      load_keeps {P = IsFixed (_defaults host) defaulted}
        (λ j value vs. set-IsFixed (_defaults host) defaulted j value vs) os config_file
        (λ j t d r. refl)

  load-version :
      (os : Os) (config_file : Option String)
      → lookup "version" ((load host os config_file []).0) ≡ some (text fts_version)
  unfolding _defaults lookup
  load-version os config_file =
      load_fixed os config_file "version" (fixed (text fts_version) str_type) refl refl
      ∙ defaulted-version

  load-api_version :
      (os : Os) (config_file : Option String)
      → lookup "APIVersion" ((load host os config_file []).0) ≡ some (text api_version)
  unfolding _defaults lookup
  load-api_version os config_file =
      load_fixed os config_file "APIVersion" (fixed (text api_version) str_type) refl refl
      ∙ defaulted-api_version

  -- No file and no environment changes the versions: after the first call of `instance`, however
  -- it ends, `get` returns `FTS_VERSION` and `API_VERSION` for them.
  instance_versions :
      (os : Os) (config_file : Option String) (c : Config)
      → (get ((instance host os config_file (reset c)).0._values) "version"
          ≡ returns (text fts_version))
        × (get ((instance host os config_file (reset c)).0._values) "APIVersion"
            ≡ returns (text api_version))
  unfolding instance get
  instance_versions os config_file c =
      (rw (get, load-version os config_file) refl, rw (get, load-api_version os config_file) refl)

-- Once `instance` has been called, each further call returns what the first one left, also where
-- the first one ended by an exception.
instance_once :
    (host : Host) (os later_os : Os) (config_file later_file : Option String) (c : Config)
    → instance host later_os later_file ((instance host os config_file c).0)
      ≡ ((instance host os config_file c).0, returns tt)
unfolding instance
instance_once host os later_os config_file later_file c = elim (Bool-cases (c.made)) [
  | inl made ↦ rw (instance, made) refl
  | inr new ↦ rw (instance, new) refl
]
