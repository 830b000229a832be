-- ===== src/ServiceManager/FilterGroup.antt =====
-- FreeTAKServer/model/FilterGroup.py and FreeTAKServer/model/Enumerations/serviceTypes.py: the
-- queues from which data is taken and to which it goes.
use free_tak_server.Base.{
  String, ◌==◌, Bool, true, false, not, ◌&&◌, ◌||◌, List, [], ◌∷◌, ◌++◌, ◌≡◌, refl, Outcome,
  returns, raised, key_error, value_error, if◌then◌else◌, contains_text,
}
use free_tak_server.Base.Dict.{Dict, insert, erase, contains}

-- The members of the enumeration with their values. Members of one value are one member.
abbrev pub tcpcotservice : String
tcpcotservice = "TCP-CoT-Service"

abbrev pub sslcotservice : String
sslcotservice = "SSL-CoT-Service"

abbrev pub tcpdpservice : String
tcpdpservice = "TCP-DP-Service"

abbrev pub ssldpservice : String
ssldpservice = "TCP-DP-Service"

abbrev pub apiservice : String
apiservice = "API-Service"

abbrev pub fedserverservice : String
fedserverservice = "Federation-Server-Service"

abbrev pub fedclientservice : String
fedclientservice = "Federation-Client-Service"

pub record FilterGroup (V : Type 0) : Type 0 where
  pub sources : Dict V
  pub receivers : Dict V
  pub allowed_type : List String
  pub rejected_type : List String

-- `del d[k]`
unfoldable pub delete {ℓ} : {V : Type ℓ} → String → Dict V → Outcome (Dict V)
unfolding contains erase
delete k d = if contains k d then returns (erase k d) else raised key_error

module _ {ℓ} {V : Type ℓ} (k : String) (d : Dict V) where
  pub delete-returns : contains k d ≡ true → delete k d ≡ returns (erase k d)
  unfolding delete
  delete-returns h = rw h refl

  pub delete-raised : contains k d ≡ false → delete k d ≡ raised key_error
  unfolding delete
  delete-raised h = rw h refl

-- `xs.remove(x)`: the first of the equal items.
unfoldable pub remove_first : String → List String → Outcome (List String)
remove_first x [] = raised value_error
remove_first x (y ∷ ys) = elim (y == x) [
  | true ↦ returns ys
  | false ↦ elim (remove_first x ys) [ returns zs ↦ returns (y ∷ zs) | raised e ↦ raised e ]
]

-- `self.allowedType == ['*']`
abbrev is_star : List String → Bool
is_star (t ∷ []) = t == "*"
is_star _ = false

module _ {V : Type 0} where
  abbrev pub empty_group : FilterGroup V
  empty_group = record { sources = []; receivers = []; allowed_type = "*" ∷ []; rejected_type = [] }

  abbrev pub add_source : V → String → FilterGroup V → FilterGroup V
  add_source source name g = record g { sources = insert name source g.sources }

  abbrev pub add_receiver : V → String → FilterGroup V → FilterGroup V
  add_receiver receiver name g = record g { receivers = insert name receiver g.receivers }

  abbrev pub remove_source : String → FilterGroup V → Outcome (FilterGroup V)
  remove_source name g = elim (delete name g.sources) [
    | returns d ↦ returns (record g { sources = d })
    | raised e ↦ raised e
  ]

  abbrev pub remove_receiver : String → FilterGroup V → Outcome (FilterGroup V)
  remove_receiver name g = elim (delete name g.receivers) [
    | returns d ↦ returns (record g { receivers = d })
    | raised e ↦ raised e
  ]

  abbrev pub add_allowed_type : String → FilterGroup V → FilterGroup V
  add_allowed_type type g = record g { allowed_type = g.allowed_type ++ type ∷ [] }

  abbrev pub remove_allowed_type : String → FilterGroup V → Outcome (FilterGroup V)
  remove_allowed_type type g = elim (remove_first type g.allowed_type) [
    | returns ts ↦ returns (record g { allowed_type = ts })
    | raised e ↦ raised e
  ]

  unfoldable pub check_if_type_is_allowed : String → FilterGroup V → Bool
  check_if_type_is_allowed type g =
      (contains_text type g.allowed_type && not (contains_text type g.rejected_type))
      || (is_star g.allowed_type && not (contains_text type g.rejected_type))
