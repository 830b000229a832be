-- ===== src/ServiceManager/Users/Populated.antt =====
-- The dictionary of users holds users that are connected, each under its own uid.
use free_tak_server.Base.{
  String, Option, none, some, List, [], ◌∷◌, ◌≡◌, ◌≢◌, refl, arith, Bool-cases, inl, inr,
}
use free_tak_server.Base.Dict.{
  erase-insert, Dict, IsDict, lookup, contains, insert, erase, insert-IsDict, erase-IsDict,
}
use free_tak_server.Base.Dict.Items.{AllItems, insert-AllItems, erase-AllItems, lookup-AllItems}
use free_tak_server.ServiceManager.Users.{
  UserConnection, PresenceObject, User, new_user, add, remove_user, update_user, get_users,
  unknown_operation, Reception, no_data, user_data, Core, receive_data, receive_all,
}
use free_tak_server.ServiceManager.Users.After.{
  without, removed, updated, users_received, receive_data-users,
}

-- The user has a connection, none twice, and the key is the uid of its presence.
abbrev pub Present : String → User → Type 0
Present id u = (u.connections ≢ []) × IsDict u.connections × (u.m_presence.presence_uid ≡ id)

abbrev pub IsPopulated : Dict User → Type 0
IsPopulated d = IsDict d × AllItems Present d

insert-IsPopulated :
    (id : String) (u : User) (d : Dict User)
    → Present id u
    → IsPopulated d
    → IsPopulated (insert id u d)
insert-IsPopulated id u d p (i, a) = (insert-IsDict id u d i, insert-AllItems Present id u d p a)

lookup-Present :
    (id : String) (u : User) (d : Dict User) → lookup id d ≡ some u → IsPopulated d → Present id u
lookup-Present id u d e (i, a) = lookup-AllItems Present id u d a e

-- The erased user is the one that would be left without a connection.
without-IsPopulated :
    (id : String) (cs : Dict UserConnection) (u : User) (d : Dict User)
    → IsDict cs
    → Present id u
    → IsPopulated d
    → IsPopulated (without id cs u d)
without-IsPopulated id (c ∷ cs) u d k (n, i, e) h =
    insert-IsPopulated id _ d ((λ z. ground arith), k, e) h
without-IsPopulated id [] u d k (n, i, e) (j, a) =
    rw (erase-insert id (record u { connections = [] }) d)
      (erase-IsDict id d j, erase-AllItems Present id d a)

removed-IsPopulated :
    (id kind : String) (d : Dict User) (o : Option User)
    → lookup id d ≡ o
    → IsPopulated d
    → IsPopulated (removed id kind d o)
removed-IsPopulated id kind d none e h = h
removed-IsPopulated id kind d (some u) e h = elim (Bool-cases (contains kind u.connections)) [
  | inl y ↦ rw y (
      without-IsPopulated id (erase kind u.connections) u d
        (erase-IsDict kind u.connections (lookup-Present id u d e h).1) (lookup-Present id u d e h)
        h)
  | inr n ↦ rw n h
]

updated-IsPopulated :
    (p : PresenceObject) (d : Dict User) (o : Option User)
    → lookup p.presence_uid d ≡ o
    → IsPopulated d
    → IsPopulated (updated p d o)
updated-IsPopulated p d none e h = h
updated-IsPopulated p d (some u) e h =
    let (n, i, k) = lookup-Present p.presence_uid u d e h in
    insert-IsPopulated p.presence_uid _ d (n, i, refl) h

new_user-Present : (p : PresenceObject) (c : UserConnection) → Present p.presence_uid (new_user p c)
unfolding lookup
new_user-Present p c = ((λ z. ground arith), (refl, tt), refl)

users_received-IsPopulated :
    (r : Reception) (d : Dict User) → IsPopulated d → IsPopulated (users_received r d)
users_received-IsPopulated no_data d h = h
users_received-IsPopulated (user_data n (add (some p) (some c))) d h =
    insert-IsPopulated p.presence_uid _ d (new_user-Present p c) h
users_received-IsPopulated (user_data n (add (some p) none)) d h = h
users_received-IsPopulated (user_data n (add none c)) d h = h
users_received-IsPopulated (user_data n (remove_user none kind)) d h = h
users_received-IsPopulated (user_data n (remove_user (some k) kind)) d h =
    removed-IsPopulated k kind d (lookup k d) refl h
users_received-IsPopulated (user_data n (update_user (some p))) d h =
    updated-IsPopulated p d (lookup p.presence_uid d) refl h
users_received-IsPopulated (user_data n (update_user none)) d h = h
users_received-IsPopulated (user_data n (get_users t)) d h = h
users_received-IsPopulated (user_data n unknown_operation) d h = h

-- Whatever messages come and however their handling ends, from a dictionary in which this holds:
-- no key stands twice, every user has at least one connection and none of a type twice, and its
-- key is the uid of its presence.
pub receive_all-IsPopulated :
    (rs : List Reception) (s : Core)
    → IsPopulated s.user_dict
    → IsPopulated ((receive_all rs s).user_dict)
unfolding receive_all
receive_all-IsPopulated [] s h = h
receive_all-IsPopulated (r ∷ rs) s h =
    receive_all-IsPopulated rs (receive_data r s).1
      (rw (receive_data-users r s) (users_received-IsPopulated r s.user_dict h))
