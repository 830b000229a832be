-- ===== src/CotService/Examples/Clients.antt =====
-- The handlers, the main loop and the reception of the TCP CoT service at concrete inputs.
use mathlib.Core.Path.{subst}
use free_tak_server.Base.{
  ℕ, String, ◌≡◌, refl, true, false, nat_eq, if◌then◌else◌, eq_iff, arith, Option, none, some, List,
  [], ◌∷◌, ◌++◌, returns, raised, key_error, All,
}
use free_tak_server.Base.Dict.{lookup, insert, erase}
use free_tak_server.CotService.Wire.{Net, bytes}
use free_tak_server.CotService.SendData.{Entry}
use free_tak_server.CotService.SendData.Broadcast.{writes}
use free_tak_server.CotService.ActiveThreads.{
  Threads, remove_client_thread, remove_receive_connection_process,
}
use free_tak_server.CotService.ActiveThreads.Removal.{others, remove_client_thread_keeps}
use free_tak_server.CotService.Service.{
  Service, Identity, RawConnection, UserRow, Environment, connection, repeated_messages,
  send_emergencies, disconnection, handle_connection, handle_disconnection,
}
use free_tak_server.CotService.Service.Handlers.{new_entry, new_connection}
use free_tak_server.CotService.Service.Disconnection.{
  handle_disconnection_tells, handle_disconnection_unknown,
}
use free_tak_server.CotService.Service.Greeting.{handle_connection_greets}
use free_tak_server.CotService.MainLoop.{
  RawCot, Round, received, pending, main_run_function, handle_regular_data,
}
use free_tak_server.CotService.MainLoop.Membership.{departs, handle_regular_data_clients}
use free_tak_server.CotService.MainLoop.Invariant.{IsSound, main_run_function-IsSound}
use free_tak_server.CotService.Reception.{
  Recv, chunk, timeout, broken, strip_newlines, monitor_for_data,
}
use free_tak_server.CotService.Reception.Departures.{
  EventsHaveText, HasText, survives, pass_survives,
}

abbrev up : Net
up w s = true

abbrev environment : Environment
environment = record {
  net = up;
  object_id = λ id. id;
  welcome = some "Welcome";
  chat_xml = λ words m. bytes "<welcome/>";
  chat_dests = none ∷ [];
  uuid = "0";
  disconnect_xml = λ id. bytes "<gone/>";
  cot_type = λ xml. some "a-f-G";
  human_readable = λ t. t;
}

abbrev start : Service
start = record {
  clients = [];
  connections = [];
  threads = [];
  hub = record { wire = []; pipe = []; to_core = 0 };
  requests = [];
  rows = [];
  closed = [];
  connection_received = 0;
  sent_message_count = 0;
  received_message_count = 0;
  messages_from_core_count = 0;
}

abbrev entry : ℕ → Entry
entry s = record { sock = s; client = none }

-- Two clients.
abbrev two : Service
two = record start {
  clients = ("A", entry 1) ∷ ("B", entry 2) ∷ [];
  connections = ("A", record { uid = "A"; sock = 1 }) ∷ ("B", record { uid = "B"; sock = 2 }) ∷ [];
}

abbrev identity : Identity
identity = record { uid = "N"; callsign = some "NOVA" }

abbrev raw : RawConnection
raw = record { sock = 7; decoded = some identity }

handle_disconnection_tells_example : handle_disconnection environment "A" two ≡ (
  returns tt,
  record two {
    clients = erase "A" two.clients;
    threads = remove_client_thread "A" [];
    closed = [] ++ 1 ∷ [];
    requests = [] ++ disconnection "A" ∷ [];
    hub = record two.hub { wire = [] ++ writes "<gone/>" (erase "A" two.clients); to_core = 0 };
  },
)
unfolding lookup
handle_disconnection_tells_example =
    handle_disconnection_tells environment "A" (entry 1) two (λ w s. refl) refl refl

handle_disconnection_unknown_example :
    handle_disconnection environment "Z" two ≡ (raised key_error, two)
unfolding lookup
handle_disconnection_unknown_example = handle_disconnection_unknown environment "Z" two refl

handle_connection_greets_example :
    let row : UserRow = record { uid = "N"; callsign = some "NOVA" } in
    handle_connection environment (some raw) two ≡ record two {
      clients = insert "N" (new_entry raw identity) two.clients;
      connections = insert "N" (new_connection raw identity) two.connections;
      rows = ([] ++ row ∷ []) ++ row ∷ [];
      requests =
          (([] ++ connection "N" ∷ []) ++ repeated_messages "N" ∷ []) ++ send_emergencies "N" ∷ [];
      hub = record two.hub {
        wire = [] ++ (record { sock = 7; content = "<welcome/>" }) ∷ [];
        to_core = 0;
      };
    }
unfolding lookup
handle_connection_greets_example =
    handle_connection_greets environment "Welcome" "NOVA" "<welcome/>" raw identity two
      (λ w s. refl) refl refl refl refl (ground (arith, eq_iff "N" "All Chat Rooms"))
      (refl, (refl, tt))

abbrev batch : List RawCot
batch =
    (record { client = "B"; xml = "" })
    ∷ (record { client = "A"; xml = "<event/>" })
    ∷ (record { client = "Z"; xml = "" })
    ∷ []

handle_regular_data_clients_example :
    lookup "A" (handle_regular_data environment batch two).clients
    ≡ (if departs "A" batch then none else lookup "A" two.clients)
handle_regular_data_clients_example = handle_regular_data_clients environment "A" batch two

abbrev rounds : List Round
rounds =
    (record {
      kill_switch = false;
      accepted = some (some raw);
      client_data = pending;
      shared = [];
      responses = [];
      users = none;
    })
    ∷ (record {
      kill_switch = false;
      accepted = none;
      client_data = received ((record { client = "N"; xml = "" }) ∷ []);
      shared = [];
      responses = [];
      users = none;
    })
    ∷ []

start-IsSound : IsSound environment start
unfolding lookup
start-IsSound = (tt, tt, λ id e h. ground arith)

main_run_function-IsSound_example : IsSound environment (main_run_function environment rounds start)
main_run_function-IsSound_example =
    main_run_function-IsSound environment (λ a b h. h) rounds start start-IsSound

abbrev three_threads : Threads
three_threads = ("A", 1) ∷ ("A", 2) ∷ ("B", 3) ∷ []

remove_client_thread_keeps_example :
    (others "A" (remove_client_thread "A" three_threads) ≡ others "A" three_threads)
    × (others "A" (remove_receive_connection_process "A" three_threads) ≡ others "A" three_threads)
remove_client_thread_keeps_example = remove_client_thread_keeps "A" three_threads

-- Every document is one event.
abbrev one_event : String → Option (List String)
one_event doc = some ("<event/>" ∷ [])

one_event-EventsHaveText : EventsHaveText one_event
unfolding strip_newlines
one_event-EventsHaveText doc es h =
    let only : ◌≡◌ {A = List String} ("<event/>" ∷ []) es = cc in
    subst (All HasText) only (refl, tt)

-- The first client sends, the second is gone.
abbrev reads : ℕ → List Recv
reads s = if nat_eq s 1 then chunk "<event/>" ∷ timeout ∷ [] else broken ∷ []

pass_survives_example :
    lookup "B"
      (handle_regular_data environment (monitor_for_data one_event 3 reads two.clients) two).clients
    ≡ survives one_event 3 reads (lookup "B" two.clients)
unfolding lookup
pass_survives_example =
    pass_survives one_event environment 3 reads two "B" one_event-EventsHaveText (refl, (refl, tt))
