-- ===== src/CotService/Service/Greeting.antt =====
-- client_connection_controller.py and `handle_connection`: what a new client is given.
use free_tak_server.Base.{
  String, ◌≡◌, ◌≢◌, refl, ap, false, none, some, [], ◌∷◌, ◌++◌, arith, ==_false, eq_iff,
}
use free_tak_server.Base.Dict.{lookup, insert, IsDict}
use free_tak_server.CotService.Wire.{bytes}
use free_tak_server.CotService.SendData.{Entry, Clients, nobody, one, Hub, share_with_core}
use free_tak_server.CotService.SendData.Route.{send_data_in_queue}
use free_tak_server.CotService.SendData.Broadcast.{writes, IsUp}
use free_tak_server.CotService.SendData.Private.{keyed, geochat_to_one}
use free_tak_server.CotService.Service.{
  Service, Identity, RawConnection, UserRow, Environment, connection, repeated_messages,
  send_emergencies, welcome_chat, handle_connection,
}
use free_tak_server.CotService.Service.Handlers.{new_entry, new_connection}

module _ (env : Environment) (words callsign : String) (m : Identity) {c : String} where
  -- The hub after the welcome.
  welcome_hub :
      (clients : Clients) (h : Hub)
      → IsUp env.net
      → env.chat_xml words m ≡ bytes c
      → m.uid ≢ "All Chat Rooms"
      → send_data_in_queue env.net clients (welcome_chat env words callsign m) nobody false h
        ≡ (one, record h { wire = h.wire ++ writes c (keyed (some m.uid) clients); to_core = 0 })
  unfolding welcome_chat share_with_core
  welcome_hub clients h up says person =
      geochat_to_one env.net (welcome_chat env words callsign m) (ap some says) clients nobody false
        h (some m.uid) up refl refl (==_false m.uid "All Chat Rooms" person)

-- Of a dictionary, the entry that was inserted is the one with its key.
keyed_absent : (k : String) (d : Clients) → lookup k d ≡ none → keyed (some k) d ≡ []
unfolding lookup
keyed_absent k [] h = refl
keyed_absent k ((j, e) ∷ d) h = ground (arith, keyed_absent k d)

writes-keyed-insert :
    (c k : String) (e : Entry) (d : Clients)
    → IsDict d
    → writes c (keyed (some k) (insert k e d)) ≡ (record { sock = e.sock; content = c }) ∷ []
unfolding insert
writes-keyed-insert c k e [] h = ground (arith, eq_iff k k)
writes-keyed-insert c k e ((j, e') ∷ d) h =
    ground
      (arith, writes-keyed-insert c k e d h.1, keyed_absent j d h.0, keyed_absent k d, eq_iff j k)

-- A new client that was decoded, has a callsign, has another uid than "All Chat Rooms" and is
-- welcomed while no write fails: it stands in
-- the dictionaries of clients and of connections, under its uid and its object id, with the socket
-- that it came on; its row is handed to the database twice; the IAM component, the repeater and the
-- emergency component are asked, in this order, to serve its connection; and the welcome is written
-- once, to its socket only.
pub handle_connection_greets :
    (env : Environment) (words callsign c : String) (raw : RawConnection) (m : Identity)
    (s : Service)
    → IsUp env.net
    → env.welcome ≡ some words
    → env.chat_xml words m ≡ bytes c
    → raw.decoded ≡ some m
    → m.callsign ≡ some callsign
    → m.uid ≢ "All Chat Rooms"
    → IsDict s.clients
    → let oid = env.object_id m.uid in
      let row : UserRow = record { uid = m.uid; callsign = m.callsign } in
      handle_connection env (some raw) s ≡ record s {
        clients = insert m.uid (new_entry raw m) s.clients;
        connections = insert oid (new_connection raw m) s.connections;
        rows = (s.rows ++ row ∷ []) ++ row ∷ [];
        requests =
            ((s.requests ++ connection oid ∷ []) ++ repeated_messages oid ∷ [])
            ++ send_emergencies oid ∷ [];
        hub = record s.hub {
          wire = s.hub.wire ++ (record { sock = raw.sock; content = c }) ∷ [];
          to_core = 0;
        };
      }
unfolding handle_connection
handle_connection_greets env words callsign c raw m s up welcome says decoded called person dict =
    ground (
      arith,
      welcome_hub env words callsign m (insert m.uid (new_entry raw m) s.clients) s.hub up says
          person,
      writes-keyed-insert c m.uid (new_entry raw m) s.clients dict,
    )
