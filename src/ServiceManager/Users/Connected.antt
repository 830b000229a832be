-- ===== src/ServiceManager/Users/Connected.antt =====
-- Which users have a connection of which type: the view that the services have of the dictionary.
use mathlib.Core.Path.{subst}
use free_tak_server.Base.{
  String, Bool, true, false, ◌&&◌, ◌==◌, Option, none, some, List, [], ◌∷◌, ◌≡◌, refl, ap, inl, inr,
  arith, Bool-cases, eq_iff, if◌then◌else◌,
}
use free_tak_server.Base.Dict.{Dict, lookup, contains, insert, erase, lookup-insert, lookup-erase}
use free_tak_server.Base.Dict.Items.{contains-erase}
use free_tak_server.ServiceManager.Users.{
  UserConnection, PresenceObject, User, new_user, add, remove_user, update_user, get_users,
  unknown_operation, Reception, no_data, user_data, Core, receive_data, receive_all,
}
use free_tak_server.ServiceManager.Users.After.{
  without, removed, updated, users_received, receive_data-users,
}

abbrev has : String → Option User → Bool
has type none = false
has type (some u) = contains type u.connections

-- The user has a connection of the type.
abbrev pub connected : String → String → Dict User → Bool
connected id type d = has type (lookup id d)

-- What a message makes of that for the user `id` and the type `type`.
abbrev pub connected_after : Reception → String → String → Bool → Bool
connected_after (user_data n (add (some p) (some c))) id type before =
    if p.presence_uid == id then c.connection_type == type else before
connected_after (user_data n (remove_user (some gone) kind)) id type before =
    if (gone == id) && (kind == type) then false else before
connected_after _ id type before = before

abbrev pub connected_after_all : List Reception → String → String → Bool → Bool
connected_after_all [] id type before = before
connected_after_all (r ∷ rs) id type before =
    connected_after_all rs id type (connected_after r id type before)

module _ (id type : String) where
  connected-insert :
      (k : String) (u : User) (d : Dict User)
      → connected id type (insert k u d)
        ≡ (if k == id then contains type u.connections else connected id type d)
  connected-insert k u d = elim (Bool-cases (k == id)) [
    | inl t ↦ rw (lookup-insert k id u d, t) refl
    | inr t ↦ rw (lookup-insert k id u d, t) refl
  ]

  connected-without :
      (k : String) (cs : Dict UserConnection) (u : User) (d : Dict User)
      → connected id type (without k cs u d)
        ≡ (if k == id then contains type cs else connected id type d)
  unfolding contains lookup
  connected-without k (c ∷ cs) u d = connected-insert k _ d
  connected-without k [] u d = elim (Bool-cases (k == id)) [
    | inl t ↦ rw (lookup-erase k id (insert k (record u { connections = [] }) d), t) refl
    | inr t ↦
        rw
          (
            lookup-erase k id (insert k (record u { connections = [] }) d),
            lookup-insert k id (record u { connections = [] }) d,
            t,
          )
          refl
  ]

  new_user-connected :
      (p : PresenceObject) (c : UserConnection)
      → contains type ((new_user p c).connections) ≡ (c.connection_type == type)
  unfolding contains lookup
  new_user-connected p c = elim (Bool-cases (c.connection_type == type)) [
    | inl t ↦ rw (contains, lookup, t) refl
    | inr t ↦ rw (contains, lookup, t) refl
  ]

  connected-found :
      (k : String) (d : Dict User) (o : Option User)
      → lookup k d ≡ o
      → (k == id) ≡ true
      → connected id type d ≡ has type o
  connected-found k d o e same =
      subst (λ x. has type (lookup x d) ≡ has type o) (ground (arith, eq_iff k id))
        (ap (has type) e)

  contains-same :
      (kind : String) (cs : Dict UserConnection)
      → (kind == type) ≡ true
      → contains kind cs ≡ contains type cs
  contains-same kind cs same = ap (λ x. contains x cs) (ground (arith, eq_iff kind type))

  connected-removed :
      (k kind : String) (d : Dict User) (o : Option User)
      → lookup k d ≡ o
      → connected id type (removed k kind d o)
        ≡ (if (k == id) && (kind == type) then false else connected id type d)
  connected-removed k kind d none e = elim (Bool-cases (k == id)) [
    | inl t ↦ rw (connected-found k d none e t) (ground arith)
    | inr t ↦ rw t refl
  ]
  connected-removed k kind d (some u) e = elim (Bool-cases (k == id)) [
    | inr t ↦ elim (Bool-cases (contains kind u.connections)) [
      | inl y ↦ rw (y, connected-without k (erase kind u.connections) u d, t) refl
      | inr n ↦ rw (n, t) refl
    ]
    | inl t ↦ elim (Bool-cases (contains kind u.connections)) [
      | inl y ↦
          rw
            (
              y,
              connected-without k (erase kind u.connections) u d,
              contains-erase kind type u.connections,
              t,
              connected-found k d (some u) e t,
            )
            refl
      | inr n ↦
          rw (n, t, connected-found k d (some u) e t)
            (ground (arith, contains-same kind u.connections))
    ]
  ]

  connected-updated :
      (p : PresenceObject) (d : Dict User) (o : Option User)
      → lookup p.presence_uid d ≡ o
      → connected id type (updated p d o) ≡ connected id type d
  connected-updated p d none e = refl
  connected-updated p d (some u) e = elim (Bool-cases (p.presence_uid == id)) [
    | inl t ↦
        rw (connected-insert p.presence_uid _ d, t, connected-found p.presence_uid d (some u) e t)
          refl
    | inr t ↦ rw (connected-insert p.presence_uid _ d, t) refl
  ]

  connected-users_received :
      (r : Reception) (d : Dict User)
      → connected id type (users_received r d) ≡ connected_after r id type (connected id type d)
  connected-users_received no_data d = refl
  connected-users_received (user_data n (add (some p) (some c))) d =
      rw (connected-insert p.presence_uid _ d, new_user-connected p c) refl
  connected-users_received (user_data n (add (some p) none)) d = refl
  connected-users_received (user_data n (add none c)) d = refl
  connected-users_received (user_data n (remove_user none kind)) d = refl
  connected-users_received (user_data n (remove_user (some k) kind)) d =
      connected-removed k kind d (lookup k d) refl
  connected-users_received (user_data n (update_user (some p))) d =
      connected-updated p d (lookup p.presence_uid d) refl
  connected-users_received (user_data n (update_user none)) d = refl
  connected-users_received (user_data n (get_users t)) d = refl
  connected-users_received (user_data n unknown_operation) d = refl

  -- Whatever messages come and however their handling ends, a user has a connection of a type
  -- after them exactly if the messages one after the other say so: an addition of the user leaves
  -- it the added type only, a removal takes the type from it, and no other message changes it.
  pub receive_all-connected :
      (rs : List Reception) (s : Core)
      → connected id type ((receive_all rs s).user_dict)
        ≡ connected_after_all rs id type (connected id type s.user_dict)
  unfolding receive_all
  receive_all-connected [] s = refl
  receive_all-connected (r ∷ rs) s =
      rw
        (
          receive_all-connected rs (receive_data r s).1,
          receive_data-users r s,
          connected-users_received r s.user_dict,
        )
        refl
