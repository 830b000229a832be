-- ===== src/ServiceManager/Users.antt =====
-- FreeTAKServer/controllers/services/FTS.py: receive_data_froCoT_service_thread, which keeps the
-- users of all services, and FreeTAKServer/model/User.py.
pub mod Populated
pub mod Connected
pub mod Answered
pub mod After
mod Examples
use free_tak_server.Base.{
  ℕ, String, Bool, true, false, Option, none, some, List, [], ◌∷◌, ◌++◌, Outcome, returns, raised,
  Exn, attribute_error, key_error, ⊤, if◌then◌else◌,
}
use free_tak_server.Base.Dict.{Dict, lookup, contains, insert, erase}
use free_tak_server.Base.Actions.{Action, pure, raise, ◌>>=◌, ◌>>◌, change, field, ignore}
use free_tak_server.ServiceManager.FilterGroup.{delete}

-- A `Connection`, and a `Presence` with what is read of it.
pub record UserConnection : Type 0 where
  pub connection_type : String
  pub address : String

pub record PresenceObject : Type 0 where
  pub presence_uid : String
  pub presence_callsign : String

-- A `User`. Its `user_id` is the uid of the presence that it was made with.
pub record User : Type 0 where
  pub connections : Dict UserConnection
  pub m_presence : PresenceObject

-- `User(m_presence, connection)`
abbrev pub new_user : PresenceObject → UserConnection → User
new_user p c = record { connections = (c.connection_type, c) ∷ []; m_presence = p }

abbrev pub get_connection : String → User → Option UserConnection
get_connection type u = lookup type u.connections

abbrev with_connections : User → Outcome (Dict UserConnection) → Outcome User
with_connections u (returns d) = returns (record u { connections = d })
with_connections u (raised e) = raised e

-- `delete_connection`
abbrev pub delete_connection : String → User → Outcome User
delete_connection type u = with_connections u (delete type u.connections)

-- The items of a message; none stands for what is not of the class that is asked for, and in
-- `remove` for an object without a `user_id`. The third item of `remove` is a connection type.
pub data UserData : Type 0 where
  add : Option PresenceObject → Option UserConnection → UserData
  remove_user : Option String → String → UserData
  update_user : Option PresenceObject → UserData
  get_users : Option String → UserData
  unknown_operation : UserData

-- What `recv_pipe.get` gives: nothing in time or nothing at all, or a message with its sockets.
pub data Reception : Type 0 where
  no_data : Reception
  user_data : ℕ → UserData → Reception

-- The attributes of `FTS` that the method uses, and what is on the two queues that it writes to;
-- none stands for an attribute that is not set.
pub record Core : Type 0 where
  pub user_dict : Dict User
  pub socket_count : ℕ
  pub rest_api_queue : Option (List PresenceObject)
  pub answers : List (Dict User)

abbrev pub set_user : String → User → Action Core ⊤
set_user id u = change λ s. record s { user_dict = insert id u s.user_dict }

-- `self.user_dict[id]`
abbrev found : Option User → Action Core User
found none s = (raised key_error, s)
found (some u) s = (returns u, s)

abbrev pub user_of : String → Action Core User
user_of id s = found (lookup id s.user_dict) s

abbrev lifted : {A : Type 0} → Outcome A → Action Core A
lifted r s = (r, s)

abbrev put_rest : PresenceObject → Action Core ⊤
put_rest p s = put_on (s.rest_api_queue)
  where
    put_on : Option (List PresenceObject) → Outcome ⊤ × Core
    put_on none = (raised attribute_error, s)
    put_on (some q) = (returns tt, record s { rest_api_queue = some (q ++ p ∷ []) })

abbrev drop_user : String → Action Core ⊤
drop_user id = change λ s. record s { user_dict = erase id s.user_dict }

-- The user stays while it has another connection.
abbrev pub drop_if_last : String → Dict UserConnection → Action Core ⊤
drop_if_last id [] = drop_user id
drop_if_last id (c ∷ cs) = pure tt

abbrev remove_connection : String → String → Action Core ⊤
remove_connection id type = do
  u ← user_of id
  v ← lifted (delete_connection type u)
  set_user id v
  drop_if_last id v.connections

-- The users of `d` that have a connection of the type.
unfoldable pub users_with : String → Dict User → Dict User
users_with type [] = []
users_with type ((id, u) ∷ d) =
    let rest = users_with type d in
    elim (get_connection type u) [ none ↦ rest | some c ↦ (id, u) ∷ rest ]

abbrev answer : Dict User → Action Core ⊤
answer d = change λ s. record s { answers = s.answers ++ d ∷ [] }

unfoldable pub process_data : UserData → Action Core ⊤
unfolding users_with
process_data (add (some p) (some c)) = do set_user p.presence_uid (new_user p c); put_rest p
process_data (add (some p) none) = pure tt
process_data (add none c) = pure tt
process_data (remove_user none type) = raise attribute_error
process_data (remove_user (some id) type) = remove_connection id type
process_data (update_user (some p)) = do
  u ← user_of p.presence_uid
  set_user p.presence_uid (record u { m_presence = p })
process_data (update_user none) = pure tt
process_data (get_users none) = do d ← field (λ s. s.user_dict); answer d
process_data (get_users (some type)) = do d ← field (λ s. s.user_dict); answer (users_with type d)
process_data unknown_operation = pure tt

-- `data[1].user_id`: no other object has one.
abbrev user_id_of : UserData → Option String
user_id_of (remove_user id type) = id
user_id_of _ = none

-- The handler of an exception writes the connections of the user of the data to the log.
abbrev log_error : Option String → Action Core ⊤
log_error none = raise attribute_error
log_error (some id) = ignore (user_of id)

abbrev on_error : UserData → Outcome ⊤ × Core → Outcome ⊤ × Core
on_error item (returns r, s) = (returns r, s)
on_error item (raised e, s) = log_error (user_id_of item) s

-- The value is always `self.user_dict`, and is left out.
unfoldable pub receive_data : Reception → Action Core ⊤
unfolding process_data
receive_data no_data s = (returns tt, s)
receive_data (user_data sockets item) s =
    on_error item (process_data item (record s { socket_count = sockets }))

-- The calls that the loop of `startup` makes; what one raises is logged.
unfoldable pub receive_all : List Reception → Core → Core
unfolding receive_data
receive_all [] s = s
receive_all (r ∷ rs) s = receive_all rs (receive_data r s).1
