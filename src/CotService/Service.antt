-- ===== src/CotService/Service.antt =====
-- FreeTAKServer/services/tcp_cot_service: the state of `TCPCoTServiceMain`, and the handlers of
-- connections, disconnections and data (tcp_cot_service_main.py, client_connection_controller.py,
-- client_disconnection_controller.py).
pub mod Handlers
pub mod Disconnection
pub mod Greeting
use free_tak_server.Base.{
  ℕ, String, str_append, Bool, false, Option, none, some, List, [], ◌∷◌, ◌++◌, attribute_error,
  key_error, type_error, ⊤, Outcome, returns, raised,
}
use free_tak_server.Base.Dict.{lookup, insert, erase}
use free_tak_server.CotService.Wire.{Net, Body}
use free_tak_server.CotService.SendData.{Client, Entry, Clients, Cot, Sender, nobody, Hub, Sent}
use free_tak_server.CotService.SendData.Route.{send_data_in_queue}
use free_tak_server.CotService.ComponentData.{Connections}
use free_tak_server.CotService.ActiveThreads.{Threads, remove_client_thread}

-- `request`s for the subject, by action.
pub data Request : Type 0 where
  connection : String → Request
  repeated_messages : String → Request
  send_emergencies : String → Request
  disconnection : String → Request
  component : String → String → Request

-- The arguments of `DatabaseController.create_user`.
pub record UserRow : Type 0 where
  pub uid : String
  pub callsign : Option String

pub record Service : Type 0 where
  pub clients : Clients
  pub connections : Connections
  pub threads : Threads
  pub hub : Hub
  pub requests : List Request
  pub rows : List UserRow
  pub closed : List ℕ
  pub connection_received : ℕ
  pub sent_message_count : ℕ
  pub received_message_count : ℕ
  pub messages_from_core_count : ℕ

-- What a new client said of itself, and its socket. `decoded` is absent where
-- `ClientInformationController` answers -1, since the xml is not that of a presence.
pub record Identity : Type 0 where
  pub uid : String
  pub callsign : Option String

pub record RawConnection : Type 0 where
  pub sock : ℕ
  pub decoded : Option Identity

-- What the service calls and does not implement: sockets, object ids, serializers, the time-based
-- uid of a chat, and the components that read a CoT.
pub record Environment : Type 0 where
  pub net : Net
  pub object_id : String → String
  pub welcome : Option String
  pub chat_xml : String → Identity → Body
  pub chat_dests : List (Option String)
  pub uuid : String
  pub disconnect_xml : String → Body
  pub cot_type : String → Option String
  pub human_readable : String → String

unfoldable pub save_client_to_db : Identity → Service → Service
save_client_to_db m s = record s {
  rows = s.rows ++ (record { uid = m.uid; callsign = m.callsign }) ∷ [];
}

unfoldable pub subject_send_request : Request → Service → Service
subject_send_request r s = record s { requests = s.requests ++ r ∷ [] }

module _ (env : Environment) where
  -- `create_client_connection`. For an undecoded client the log line before the test for -1 reads
  -- an attribute of -1.
  unfoldable pub create_client_connection : RawConnection → Service → Outcome Identity × Service
  unfolding save_client_to_db
  create_client_connection raw s = elim raw.decoded [
    | none ↦ (raised attribute_error, s)
    | some m ↦
        let saved = save_client_to_db m s in
        let client : Client = record { uid = m.uid; presence = none } in
        (
          returns m,
          record saved {
            clients = insert m.uid (record { sock = raw.sock; client = some client }) s.clients;
            connections =
                insert (env.object_id m.uid) (record { uid = m.uid; sock = raw.sock })
                  s.connections;
          },
        )
  ]

  -- The welcome: a chat from the server to the new client.
  unfoldable pub welcome_chat : String → String → Identity → Cot
  welcome_chat words callsign m = record {
    kind = "GeoChat";
    model = some (record {
      uid = str_append "GeoChat.SERVER-UID." (str_append callsign (str_append "." env.uuid));
      marti = some env.chat_dests;
      chat_uid1 = some (some m.uid);
    });
    xml = some (env.chat_xml words m);
    id_data = none;
    socket = none;
    client_information = none;
  }

  -- A call of `SendDataController().sendDataInQueue` on the clients of the service.
  unfoldable pub send_to_clients : Cot → Sender → Bool → Service → Sent × Service
  send_to_clients cot sender share s =
      let r = send_data_in_queue env.net s.clients cot sender share s.hub in
      (r.0, record s { hub = r.1 })

  -- `send_user_connection_geo_chat`. The uid of the chat is built from the callsign, and `None`
  -- cannot be joined to a text.
  unfoldable pub send_user_connection_geo_chat : Identity → Service → Outcome ⊤ × Service
  unfolding send_to_clients welcome_chat
  send_user_connection_geo_chat m s = elim env.welcome [
    | none ↦ (returns tt, s)
    | some words ↦ elim m.callsign [
      | none ↦ (raised type_error, s)
      | some callsign ↦
          (returns tt, (send_to_clients (welcome_chat words callsign m) nobody false s).1)
    ]
  ]

  -- The three requests of a new connection, in order.
  unfoldable pub announce : String → Service → Service
  unfolding subject_send_request
  announce oid s =
      subject_send_request (send_emergencies oid)
        (subject_send_request (repeated_messages oid) (subject_send_request (connection oid) s))

  -- What `handle_connection` does once the client is created.
  abbrev pub greet : Outcome Identity × Service → Service
  greet (raised x, s) = s
  greet (returns m, s) =
      (send_user_connection_geo_chat m (announce (env.object_id m.uid) (save_client_to_db m s))).1

  -- `none` is the -1 of a failed accept. An exception ends the handler and is logged, and what was
  -- done before it stays done.
  unfoldable pub handle_connection : Option RawConnection → Service → Service
  unfolding create_client_connection save_client_to_db announce send_user_connection_geo_chat
  handle_connection none s = s
  handle_connection (some raw) s = greet (create_client_connection raw s)

  -- `delete_client_connection`: the entry of the client and its threads.
  unfoldable pub delete_client_connection : String → Service → Service
  delete_client_connection id s = record s {
    clients = erase id s.clients;
    threads = remove_client_thread id s.threads;
  }

  -- `disconnect_socket`: what shutdown or close raise is logged.
  unfoldable pub disconnect_socket : ℕ → Service → Service
  disconnect_socket sock s = record s { closed = s.closed ++ sock ∷ [] }

  -- The CoT that tells the clients of a disconnection.
  unfoldable pub disconnect_cot : String → Cot
  disconnect_cot id = record {
    kind = "Disconnect";
    model = some (record { uid = id; marti = none; chat_uid1 = none });
    xml = some (env.disconnect_xml id);
    id_data = none;
    socket = none;
    client_information = none;
  }

  unfoldable pub send_disconnect_cot : String → Service → Service
  unfolding send_to_clients disconnect_cot
  send_disconnect_cot id s = (send_to_clients (disconnect_cot id) nobody false s).1

  -- `handle_disconnection`, for a client whose entry `get_sock` finds.
  unfoldable pub disconnect : String → Entry → Service → Service
  unfolding delete_client_connection disconnect_socket subject_send_request send_disconnect_cot
  disconnect id e s = send_disconnect_cot id (
      subject_send_request (disconnection (env.object_id id))
        (disconnect_socket e.sock (delete_client_connection id s)))

  unfoldable pub handle_disconnection : String → Service → Outcome ⊤ × Service
  unfolding disconnect
  handle_disconnection id s = elim (lookup id s.clients) [
    | none ↦ (raised key_error, s)
    | some e ↦ (returns tt, disconnect id e s)
  ]

  -- `component_handler`: a CoT whose xml has no type that can be read raises.
  unfoldable pub component_handler : String → Service → Outcome ⊤ × Service
  unfolding subject_send_request
  component_handler xml s = elim (env.cot_type xml) [
    | none ↦ (raised key_error, s)
    | some t ↦ (returns tt, subject_send_request (component (env.human_readable t) xml) s)
  ]
