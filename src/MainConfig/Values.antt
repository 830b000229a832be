-- ===== src/MainConfig/Values.antt =====
-- MainConfig.py, `_values`, `set` and `get`: the values that settings take, and the conversion to
-- the declared type. A YAML value is one of those of `Value`; a list holds texts.
use free_tak_server.Base.{
  ℕ, String, Bool, true, false, not, ◌||◌, none, some, List, [], ◌∷◌, if◌then◌else◌, nat_eq,
  key_error, type_error, value_error, runtime_error, Outcome, returns, raised, ⊤,
}
use free_tak_server.Base.Dict.{Dict, lookup, insert}
use free_tak_server.MainConfig.Text.{read_int, show_int, show_list}

-- The Python types that `_defaults` names.
pub data Ty : Type 0 where
  str_type bool_type int_type list_type : Ty

-- `integer minus n`: the number, with its sign apart; zero has no minus.
pub data Value : Type 0 where
  text : String → Value
  boolean : Bool → Value
  integer : Bool → ℕ → Value
  items : List String → Value
  path : String → Value
  null : Value

-- An entry of `_defaults`.
pub record Setting : Type 0 where
  pub default : Value
  pub type : Ty
  pub readonly : Bool

abbrev pub Settings : Type 0
Settings = Dict Setting

abbrev pub Values : Type 0
Values = Dict Value

-- `list(s)` of a text.
unfoldable pub chars : String → List String
chars String.[] = []
chars (String.◌∷◌ c s) = String.◌∷◌ c "" ∷ chars s

-- `bool(value)`
abbrev pub truth : Value → Bool
truth (text String.[]) = false
truth (text (String.◌∷◌ c s)) = true
truth (boolean b) = b
truth (integer minus n) = not (nat_eq n 0)
truth (items []) = false
truth (items (x ∷ xs)) = true
truth (path p) = true
truth null = false

-- `int(value)`
unfoldable pub to_int : Value → Outcome Value
unfolding read_int
to_int (text s) = elim (read_int s) [
  | none ↦ raised value_error
  | some (minus, n) ↦ returns (integer minus n)
]
to_int (boolean b) = returns (integer false (if b then 1 else 0))
to_int (integer minus n) = returns (integer minus n)
to_int (items xs) = raised type_error
to_int (path p) = raised type_error
to_int null = raised type_error

-- `list(value)`
unfoldable pub to_list : Value → Outcome Value
unfolding chars
to_list (text s) = returns (items (chars s))
to_list (boolean b) = raised type_error
to_list (integer minus n) = raised type_error
to_list (items xs) = returns (items xs)
to_list (path p) = raised type_error
to_list null = raised type_error

-- `str(value)`
unfoldable pub to_str : Value → Value
to_str (text s) = text s
to_str (boolean true) = text "True"
to_str (boolean false) = text "False"
to_str (integer minus n) = text (show_int minus n)
to_str (items xs) = text (show_list xs)
to_str (path p) = text p
to_str null = text "None"

-- `self._var_type(name)(value)`, of a type.
unfoldable pub convert : Ty → Value → Outcome Value
unfolding to_str to_int to_list
convert str_type value = returns (to_str value)
convert bool_type value = returns (boolean (truth value))
convert int_type value = to_int value
convert list_type value = to_list value

-- `MainConfig._defaults[name]`
unfoldable pub entry : Settings → String → Outcome Setting
unfolding lookup
entry defaults name = elim (lookup name defaults) [ none ↦ raised key_error | some s ↦ returns s ]

-- `set`: a value that cannot be stored leaves the others as they were.
unfoldable pub set : Settings → String → Value → Bool → Values → Values × Outcome ⊤
unfolding entry convert
set defaults name value override_ro values = elim (entry defaults name) [
  | raised e ↦ (values, raised e)
  | returns s ↦
      if not (s.readonly) || override_ro
      then elim (convert (s.type) value) [
        | raised e ↦ (values, raised e)
        | returns v ↦ (insert name v values, returns tt)
      ]
      else (values, returns tt)
]

-- `get`
unfoldable pub get : Values → String → Outcome Value
unfolding lookup
get values name = elim (lookup name values) [ none ↦ raised runtime_error | some v ↦ returns v ]
