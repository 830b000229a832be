-- ===== src/MainConfig/Loading/Types.antt =====
-- MainConfig.py: the types of the values that loading stores.
use free_tak_server.Base.{
  ◌≡◌, inl, inr, String, Bool, true, false, not, ◌||◌, some, [], ◌∷◌, ◌==◌, eq_iff, arith,
  Bool-cases, Option-cases, Outcome-cases, returns,
}
use free_tak_server.Base.Dict.{lookup, insert, lookup-insert}
use free_tak_server.MainConfig.Values.{
  Ty, str_type, bool_type, int_type, list_type, Value, text, boolean, integer, items, path, null,
  Setting, Settings, Values, convert, to_str, to_int, to_list, entry, set,
}
use free_tak_server.MainConfig.Text.{read_int}
use free_tak_server.MainConfig.Loading.{preload}
use free_tak_server.MainConfig.Loading.Stages.{then_load_keeps}

-- `isinstance(value, t)`
abbrev pub has_type : Ty → Value → Bool
has_type str_type (text s) = true
has_type bool_type (boolean b) = true
has_type int_type (integer minus n) = true
has_type list_type (items xs) = true
has_type _ _ = false

-- Every stored value belongs to a declared setting and has its type.
abbrev pub IsTyped : Settings → Values → Type 0
IsTyped defaults values =
    (name : String) (v : Value)
    → lookup name values ≡ some v
    → (s : Setting) × (lookup name defaults ≡ some s) × (has_type (s.type) v ≡ true)

to_int_type : (value v : Value) → to_int value ≡ returns v → has_type int_type v ≡ true
unfolding to_int
to_int_type (text s) v h = elim (Option-cases (read_int s)) [
  | inl bad ↦ ground arith
  | inr (p, good) ↦ ground arith
]
to_int_type (boolean b) v h = ground arith
to_int_type (integer minus n) v h = ground arith
to_int_type (items xs) v h = ground arith
to_int_type (path p) v h = ground arith
to_int_type null v h = ground arith

to_list_type : (value v : Value) → to_list value ≡ returns v → has_type list_type v ≡ true
unfolding to_list
to_list_type value v h = ground arith

to_str_type : (value : Value) → has_type str_type (to_str value) ≡ true
unfolding to_str
to_str_type value = ground arith

convert_type : (t : Ty) (value v : Value) → convert t value ≡ returns v → has_type t v ≡ true
unfolding convert
convert_type str_type value v h = ground (arith, to_str_type value)
convert_type bool_type value v h = ground arith
convert_type int_type value v h = to_int_type value v h
convert_type list_type value v h = to_list_type value v h

module _ (defaults : Settings) where
  -- Storing one value of the right type.
  insert-IsTyped :
      (name : String) (v : Value) (s : Setting) (values : Values)
      → lookup name defaults ≡ some s
      → has_type (s.type) v ≡ true
      → IsTyped defaults values
      → IsTyped defaults (insert name v values)
  insert-IsTyped name v s values known right typed j w h = elim (Bool-cases (name == j)) [
    | inl same ↦ (
      s,
      ground (arith, eq_iff name j, known),
      ground (arith, lookup-insert name j v values, right, same, h),
    )
    | inr other ↦ typed j w (ground (arith, lookup-insert name j v values))
  ]

  pub set-IsTyped :
      (name : String) (value : Value) (override_ro : Bool) (values : Values)
      → IsTyped defaults values
      → IsTyped defaults ((set defaults name value override_ro values).0)
  unfolding set entry
  set-IsTyped name value override_ro values typed = elim (Option-cases (lookup name defaults)) [
    | inl unknown ↦ rw (set, entry, unknown) typed
    | inr (s, known) ↦ elim (Bool-cases (not (s.readonly) || override_ro)) [
      | inr closed ↦ rw (set, entry, known, closed) typed
      | inl free ↦ elim (Outcome-cases (convert (s.type) value)) [
        | inr (e, bad) ↦ rw (set, entry, known, free, bad) typed
        | inl (v, good) ↦
            rw (set, entry, known, free, good)
              (insert-IsTyped name v s values known (convert_type (s.type) value v good) typed)
      ]
    ]
  ]

  pub preload-IsTyped :
      (rest : Settings) (values : Values)
      → IsTyped defaults values
      → IsTyped defaults ((preload defaults rest values).0)
  unfolding preload
  preload-IsTyped [] values typed = typed
  preload-IsTyped ((name, m) ∷ rest) values typed =
      then_load_keeps {P = IsTyped defaults} (set defaults name (m.default) true values)
        (λ after. preload defaults rest after) (set-IsTyped name (m.default) true values typed)
        (λ after. preload-IsTyped rest after)
