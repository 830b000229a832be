-- ===== src/ServiceManager/Users/Answered.antt =====
-- What a service is answered that asks for the users.
use free_tak_server.Base.{
  String, none, some, [], ◌∷◌, ◌++◌, ◌≡◌, refl, arith, eq_iff, if◌then◌else◌, returns, ℕ,
}
use free_tak_server.Base.Dict.{Dict, IsDict, lookup, contains}
use free_tak_server.ServiceManager.Users.{
  User, users_with, get_users, user_data, Core, receive_data,
}
use free_tak_server.ServiceManager.Users.Connected.{connected}

lookup-users_with :
    (id type : String) (d : Dict User)
    → IsDict d
    → lookup id (users_with type d) ≡ (if connected id type d then lookup id d else none)
unfolding lookup users_with contains
lookup-users_with id type [] h = refl
lookup-users_with id type ((k, u) ∷ d) (fresh, h) =
    ground (arith, lookup-users_with id type d h, eq_iff k id)

-- A service that asks for the users of its type is answered once, with each user that has a
-- connection of that type as the dictionary holds it, and with no other user.
pub receive_data-answers :
    (n : ℕ) (id type : String) (s : Core)
    → IsDict s.user_dict
    → let r = receive_data (user_data n (get_users (some type))) s in
      (d : Dict User) × (r.0 ≡ returns tt)
      × (r.1.answers ≡ s.answers ++ d ∷ [])
      × (lookup id d ≡ (if connected id type s.user_dict then lookup id s.user_dict else none))
unfolding receive_data
receive_data-answers n id type s h =
    (users_with type s.user_dict, refl, refl, lookup-users_with id type s.user_dict h)
