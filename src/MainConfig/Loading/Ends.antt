-- ===== src/MainConfig/Loading/Ends.antt =====
-- MainConfig.py, `import_env_config`: how a pass over the environment can end.
use free_tak_server.Base.{
  ◌≡◌, refl, inl, inr, ◌⊎◌, String, Bool, true, false, none, some, [], ◌∷◌, arith, Bool-cases,
  Option-cases, returns, raised, value_error,
}
use free_tak_server.Base.Dict.{Dict, lookup}
use free_tak_server.MainConfig.Text.{read_int}
use free_tak_server.MainConfig.Values.{
  Ty, str_type, bool_type, int_type, list_type, Value, text, boolean, integer, items, Setting,
  Settings, Values, convert, to_str, to_int, to_list, entry, set,
}
use free_tak_server.MainConfig.Tables.{Host, _defaults}
use free_tak_server.MainConfig.Keys.{_env_vars}
use free_tak_server.MainConfig.Loading.{
  Load, then_load, env_value, import_variable, import_env_config,
}

-- The call returns, or raises a ValueError.
abbrev pub IsOrderly : Load → Type 0
IsOrderly l = (l.1 ≡ returns tt) ⊎ (l.1 ≡ raised value_error)

-- Each variable of a table is for a setting that is declared.
abbrev declares : Settings → Dict String → Bool
unfolding lookup
declares defaults [] = true
declares defaults ((env_var, name) ∷ rest) = elim (lookup name defaults) [
  | none ↦ false
  | some s ↦ declares defaults rest
]

convert_env :
    (t : Ty) (s : String)
    → ((v : Value) × (convert t (env_value t s) ≡ returns v))
      ⊎ (convert t (env_value t s) ≡ raised value_error)
unfolding convert to_str to_int to_list
convert_env str_type s = inl (text s, refl)
convert_env bool_type s = inl (boolean _, refl)
convert_env list_type s = inl (items _, refl)
convert_env int_type s = elim (Option-cases (read_int s)) [
  | inl bad ↦ inr (rw (to_int, bad) refl)
  | inr ((minus, n), good) ↦ inl (integer minus n, rw (to_int, good) refl)
]

module _ (defaults : Settings) where
  import_variable-IsOrderly :
      (name text_of : String) (m : Setting) (vs : Values)
      → lookup name defaults ≡ some m
      → IsOrderly (import_variable defaults name text_of vs)
  unfolding import_variable set entry
  import_variable-IsOrderly name text_of m vs known = elim (Bool-cases (m.readonly)) [
    | inl closed ↦ inl (ground (arith, known, closed))
    | inr open_to_change ↦ elim (convert_env (m.type) text_of) [
      | inl (v, good) ↦ inl (ground (arith, known, open_to_change, good))
      | inr bad ↦ inr (ground (arith, known, open_to_change, bad))
    ]
  ]

  then_load-IsOrderly :
      (l : Load) (next : Values → Load)
      → IsOrderly l
      → ((vs : Values) → IsOrderly (next vs))
      → IsOrderly (then_load l next)
  then_load-IsOrderly (vs, returns u) next h k = k vs
  then_load-IsOrderly (vs, raised e) next h k = h

  import_env_config-IsOrderly :
      (environ vars : Dict String) (vs : Values)
      → declares defaults vars ≡ true
      → IsOrderly (import_env_config defaults environ vars vs)
  unfolding import_env_config declares
  import_env_config-IsOrderly environ [] vs h = inl refl
  import_env_config-IsOrderly environ ((env_var, name) ∷ rest) vs h =
      elim (Option-cases (lookup name defaults)) [
        | inl unknown ↦ ground (arith, unknown, h)
        | inr (m, known) ↦ elim (Option-cases (lookup env_var environ)) [
          | inl missing ↦
              rw (import_env_config, missing)
                (import_env_config-IsOrderly environ rest vs (ground (arith, known, h)))
          | inr (s, found) ↦
              rw (import_env_config, found)
                (then_load-IsOrderly (import_variable defaults name s vs)
                  (λ after. import_env_config defaults environ rest after)
                  (import_variable-IsOrderly name s m vs known)
                  (λ after.
                    import_env_config-IsOrderly environ rest after (ground (arith, known, h))))
        ]
      ]

all_declared : (host : Host) → declares (_defaults host) _env_vars ≡ true
unfolding declares _defaults _env_vars lookup
all_declared host = refl

-- With the tables of the source, a pass over any environment returns or raises a ValueError, that
-- of a variable for a number; no variable is for a setting that is not declared.
environment_ends :
    (host : Host) (environ : Dict String) (vs : Values)
    → IsOrderly (import_env_config (_defaults host) environ _env_vars vs)
environment_ends host environ vs =
    import_env_config-IsOrderly (_defaults host) environ _env_vars vs (all_declared host)
