-- ===== src/CotService/Service/Handlers.antt =====
-- What the handlers of the TCP CoT service do to the two dictionaries of clients.
use free_tak_server.Base.{String, ◌≡◌, none, some, ◌==◌, eq_iff, arith, if◌then◌else◌}
use free_tak_server.Base.Dict.{lookup, insert, lookup-erase}
use free_tak_server.CotService.SendData.{Entry}
use free_tak_server.CotService.ComponentData.{Connection}
use free_tak_server.CotService.Service.{
  Service, Identity, RawConnection, Environment, send_user_connection_geo_chat, handle_connection,
  handle_disconnection, component_handler,
}

-- Two states have the same clients and the same connections.
abbrev pub SameClients : Service → Service → Type 0
SameClients s s' = (s'.clients ≡ s.clients) × (s'.connections ≡ s.connections)

-- The entry and the connection of a new client.
abbrev pub new_entry : RawConnection → Identity → Entry
new_entry raw m = record {
  sock = raw.sock;
  client = some (record { uid = m.uid; presence = none });
}

abbrev pub new_connection : RawConnection → Identity → Connection
new_connection raw m = record { uid = m.uid; sock = raw.sock }

module _ (env : Environment) where
  pub geo_chat-SameClients :
      (m : Identity) (s : Service) → SameClients s (send_user_connection_geo_chat env m s).1
  unfolding send_user_connection_geo_chat
  geo_chat-SameClients m s = ground arith

  pub handle_connection_clients :
      (raw : RawConnection) (m : Identity) (s : Service)
      → raw.decoded ≡ some m
      → let s' = handle_connection env (some raw) s in
        (s'.clients ≡ insert m.uid (new_entry raw m) s.clients)
        × (s'.connections ≡ insert (env.object_id m.uid) (new_connection raw m) s.connections)
  unfolding handle_connection
  handle_connection_clients raw m s decoded = ground arith

  pub handle_connection_undecoded :
      (raw : RawConnection) (s : Service)
      → raw.decoded ≡ none
      → handle_connection env (some raw) s ≡ s
  unfolding handle_connection
  handle_connection_undecoded raw s undecoded = ground arith

  pub handle_disconnection_clients :
      (id j : String) (s : Service)
      → let s' = (handle_disconnection env id s).1 in
        (lookup j s'.clients ≡ (if id == j then none else lookup j s.clients))
        × (s'.connections ≡ s.connections)
  unfolding handle_disconnection
  handle_disconnection_clients id j s = ground (arith, lookup-erase id j s.clients, eq_iff id j)

  pub component_handler-SameClients :
      (xml : String) (s : Service) → SameClients s (component_handler env xml s).1
  unfolding component_handler
  component_handler-SameClients xml s = ground arith
