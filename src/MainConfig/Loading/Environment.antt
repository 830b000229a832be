-- ===== src/MainConfig/Loading/Environment.antt =====
-- MainConfig.py, `import_env_config`: which environment variable decides a setting.
use mathlib.Core.Path.{subst}
use free_tak_server.Base.{
  ◌≡◌, refl, inl, inr, String, false, Option, none, some, [], ◌∷◌, ◌==◌, eq_iff, eq_refl, arith,
  if◌then◌else◌, Bool-cases, Option-cases, Outcome-cases, Outcome, returns, raised,
}
use free_tak_server.Base.Dict.{Dict, lookup, lookup-insert}
use free_tak_server.MainConfig.Values.{Ty, Value, Setting, Settings, Values, convert, entry, set}
use free_tak_server.MainConfig.Loading.Stored.{Load-cases}
use free_tak_server.MainConfig.Loading.{env_value, import_variable, import_env_config}

-- The last variable of the table that is in the environment and is for the setting: its text.
abbrev pub last_assigned : Dict String → Dict String → String → Option String
last_assigned environ [] name = none
last_assigned environ ((env_var, config_var) ∷ rest) name = elim (last_assigned environ rest name) [
  | some s ↦ some s
  | none ↦ if config_var == name then lookup env_var environ else none
]

-- What the setting is to hold: the value of that variable, or what it held.
abbrev pub decided : Ty → Option String → Option Value → Outcome (Option Value)
decided t none old = returns old
decided t (some s) old = elim (convert t (env_value t s)) [
  | raised e ↦ raised e
  | returns v ↦ returns (some v)
]

module _ (defaults : Settings) (name : String) (m : Setting)
    (declared : lookup name defaults ≡ some m) (open_to_change : m.readonly ≡ false) where
  -- One assignment that returns.
  import-here :
      (s : String) (vs : Values)
      → (import_variable defaults name s vs).1 ≡ returns tt
      → decided (m.type) (some s) (lookup name vs)
        ≡ returns (lookup name ((import_variable defaults name s vs).0))
  unfolding import_variable set entry
  import-here s vs done = elim (Outcome-cases (convert (m.type) (env_value (m.type) s))) [
    | inr (e, bad) ↦ ground (arith, declared, open_to_change, bad, done)
    | inl (v, good) ↦
        ground
          (arith, declared, open_to_change, good, done, lookup-insert name name v vs, eq_refl name)
  ]

  import-elsewhere :
      (j s : String) (vs : Values)
      → (j == name) ≡ false
      → lookup name ((import_variable defaults j s vs).0) ≡ lookup name vs
  unfolding import_variable set entry
  import-elsewhere j s vs other = elim (Option-cases (lookup j defaults)) [
    | inl unknown ↦ ground (arith, unknown)
    | inr (t, known) ↦ elim (Outcome-cases (convert (t.type) (env_value (t.type) s))) [
      | inr (e, bad) ↦ ground (arith, known, bad, Bool-cases (t.readonly))
      | inl (v, good) ↦
          ground (arith, known, good, other, lookup-insert j name v vs, Bool-cases (t.readonly))
    ]
  ]

  import-step :
      (j s : String) (vs vs' : Values)
      → import_variable defaults j s vs ≡ (vs', returns tt)
      → decided (m.type) (if j == name then some s else none) (lookup name vs)
        ≡ returns (lookup name vs')
  import-step j s vs vs' went = elim (Bool-cases (j == name)) [
    | inr other ↦ ground (arith, other, went, import-elsewhere j s vs other)
    | inl same ↦ rw same (
        subst (λ o. decided (m.type) (some s) (lookup name vs) ≡ returns o)
          (ground (arith, went, eq_iff j name, same))
          (import-here s vs (ground (arith, went, eq_iff j name, same))))
  ]

  -- After a pass over the environment that returns, a setting that is not readonly holds the value
  -- of the last variable of the table that is set and is for it, converted to its type; it holds
  -- what it held where there is none.
  pub import_env_config_decides :
      (environ vars : Dict String) (vs : Values)
      → (import_env_config defaults environ vars vs).1 ≡ returns tt
      → decided (m.type) (last_assigned environ vars name) (lookup name vs)
        ≡ returns (lookup name ((import_env_config defaults environ vars vs).0))
  unfolding import_env_config
  import_env_config_decides environ [] vs done = refl
  import_env_config_decides environ ((env_var, j) ∷ rest) vs done =
      elim (Option-cases (lookup env_var environ)) [
        | inl missing ↦
            rw (import_env_config, missing)
              (elim (Option-cases (last_assigned environ rest name)) [
                | inl nothing ↦ ground (
                  arith,
                  nothing,
                  missing,
                  done,
                  import_env_config_decides environ rest vs (ground (arith, missing, done)),
                  Bool-cases (j == name),
                )
                | inr (t, later) ↦ ground (
                  arith,
                  later,
                  missing,
                  done,
                  import_env_config_decides environ rest vs (ground (arith, missing, done)),
                )
              ])
        | inr (s, found) ↦ elim (Load-cases (import_variable defaults j s vs)) [
          | inr (vs', e, ended) ↦ ground (arith, found, ended, done)
          | inl (vs', went) ↦
              rw (import_env_config, found, went)
                (elim (Option-cases (last_assigned environ rest name)) [
                  | inl nothing ↦ ground (
                    arith,
                    nothing,
                    found,
                    import-step j s vs vs' went,
                    import_env_config_decides environ rest vs' (ground (arith, found, went, done)),
                  )
                  | inr (t, later) ↦ ground (
                    arith,
                    later,
                    found,
                    import_env_config_decides environ rest vs' (ground (arith, found, went, done)),
                  )
                ])
        ]
      ]
