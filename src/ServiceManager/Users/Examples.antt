-- ===== src/ServiceManager/Users/Examples.antt =====
-- Runs and instances of the theorems on the users of FreeTAKServer/controllers/services/FTS.py.
use free_tak_server.Base.{String, false, some, List, [], ◌∷◌, ◌≡◌}
use free_tak_server.Base.Dict.{lookup}
use free_tak_server.ServiceManager.Users.{
  UserConnection, PresenceObject, add, update_user, Reception, user_data, no_data, Core,
  receive_all,
}
use free_tak_server.ServiceManager.Users.Connected.{connected, receive_all-connected}
use free_tak_server.ServiceManager.Users.Populated.{IsPopulated, receive_all-IsPopulated}

abbrev alpha : PresenceObject
alpha = record { presence_uid = "A"; presence_callsign = "alpha" }

abbrev over : String → UserConnection
over type = record { connection_type = type; address = "10.0.0.1" }

abbrev no_users : Core
no_users = record { user_dict = []; socket_count = 0; rest_api_queue = some []; answers = [] }

-- The second addition replaces the user with its first connection.
abbrev both_services : List Reception
both_services =
    user_data 1 (add (some alpha) (some (over "TCP")))
    ∷ user_data 1 (add (some alpha) (some (over "SSL")))
    ∷ no_data
    ∷ user_data 2 (update_user (some alpha))
    ∷ []

receive_all-connected_example :
    connected "A" "TCP" ((receive_all both_services no_users).user_dict) ≡ false
unfolding lookup
receive_all-connected_example = receive_all-connected "A" "TCP" both_services no_users

receive_all-IsPopulated_example : IsPopulated ((receive_all both_services no_users).user_dict)
receive_all-IsPopulated_example = receive_all-IsPopulated both_services no_users (tt, tt)
