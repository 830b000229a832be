-- ===== src/ServiceManager/Users/After.antt =====
-- What becomes of the dictionary of users.
use free_tak_server.Base.{
  String, Option, none, some, [], ◌∷◌, ◌≡◌, refl, ◌∙◌, ap, inl, inr, Outcome, returns, raised,
  Option-cases, Bool-cases, ⊤, if◌then◌else◌,
}
use free_tak_server.Base.Dict.{Dict, lookup, contains, insert, erase}
use free_tak_server.ServiceManager.FilterGroup.{delete-returns, delete-raised}
use free_tak_server.ServiceManager.Users.{
  UserConnection, PresenceObject, User, new_user, UserData, add, remove_user, update_user,
  get_users, unknown_operation, Reception, no_data, user_data, Core, process_data, receive_data,
  on_error, user_id_of, drop_if_last, log_error,
}

-- The user `u` of key `id` loses its connection of the type.
abbrev pub without : String → Dict UserConnection → User → Dict User → Dict User
without id [] u d = erase id (insert id (record u { connections = [] }) d)
without id (c ∷ cs) u d = insert id (record u { connections = c ∷ cs }) d

abbrev pub removed : String → String → Dict User → Option User → Dict User
removed id type d none = d
removed id type d (some u) =
    if contains type u.connections then without id (erase type u.connections) u d else d

abbrev pub updated : PresenceObject → Dict User → Option User → Dict User
updated p d none = d
updated p d (some u) = insert p.presence_uid (record u { m_presence = p }) d

abbrev pub users_after : UserData → Dict User → Dict User
users_after (add (some p) (some c)) d = insert p.presence_uid (new_user p c) d
users_after (remove_user (some id) type) d = removed id type d (lookup id d)
users_after (update_user (some p)) d = updated p d (lookup p.presence_uid d)
users_after _ d = d

drop_if_last-users :
    (id : String) (cs : Dict UserConnection) (u : User) (s : Core)
    → (drop_if_last id cs (record s {
      user_dict = insert id (record u { connections = cs }) s.user_dict;
    })).1.user_dict
      ≡ without id cs u s.user_dict
drop_if_last-users id [] u s = refl
drop_if_last-users id (c ∷ cs) u s = refl

process_data-users :
    (item : UserData) (s : Core) → (process_data item s).1.user_dict ≡ users_after item s.user_dict
unfolding process_data
process_data-users (add (some p) (some c)) s = elim (Option-cases s.rest_api_queue) [
  | inl h ↦ rw h refl
  | inr (q, h) ↦ rw h refl
]
process_data-users (add (some p) none) s = refl
process_data-users (add none c) s = refl
process_data-users (remove_user none type) s = refl
process_data-users (remove_user (some id) type) s = elim (Option-cases (lookup id s.user_dict)) [
  | inl h ↦ rw h refl
  | inr (u, h) ↦ elim (Bool-cases (contains type u.connections)) [
    | inr n ↦ rw (h, delete-raised type u.connections n, n) refl
    | inl y ↦
        rw (h, delete-returns type u.connections y, y)
          (drop_if_last-users id (erase type u.connections) u s)
  ]
]
process_data-users (update_user (some p)) s =
    elim (Option-cases (lookup p.presence_uid s.user_dict)) [
      | inl h ↦ rw h refl
      | inr (u, h) ↦ rw h refl
    ]
process_data-users (update_user none) s = refl
process_data-users (get_users none) s = refl
process_data-users (get_users (some type)) s = refl
process_data-users unknown_operation s = refl

-- The handler of an exception changes nothing.
on_error-kept : (item : UserData) (r : Outcome ⊤ × Core) → (on_error item r).1 ≡ r.1
on_error-kept item (returns x, s) = refl
on_error-kept item (raised e, s) = kept (user_id_of item)
  where
    kept : (o : Option String) → (log_error o s).1 ≡ s
    kept none = refl
    kept (some id) = elim (Option-cases (lookup id s.user_dict)) [
      | inl h ↦ rw h refl
      | inr (u, h) ↦ rw h refl
    ]

abbrev pub users_received : Reception → Dict User → Dict User
users_received no_data d = d
users_received (user_data sockets item) d = users_after item d

pub receive_data-users :
    (r : Reception) (s : Core) → (receive_data r s).1.user_dict ≡ users_received r s.user_dict
unfolding receive_data
receive_data-users no_data s = refl
receive_data-users (user_data sockets item) s =
    ap (λ s. s.user_dict) (on_error-kept item _) ∙ process_data-users item _
