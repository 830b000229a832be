-- ===== src/ServiceManager/Reached.antt =====
-- The states that a server reaches from its start by the methods that start and stop services:
-- FreeTAKServer/controllers/services/FTS.py.
use free_tak_server.Base.{
  ℕ, Option, none, [], ◌≡◌, refl, returns, raised, attribute_error, if◌then◌else◌, nat_eq,
}
use free_tak_server.ServiceManager.FilterGroup.{empty_group}
use free_tak_server.ServiceManager.State.{
  absent, Pipe, close_pipe, Phase, Process, unused, exited, running, Startup, Fts, Machine, failure,
}
use free_tak_server.ServiceManager.Stopping.{
  stop_cot_service, stop_tcp_data_package_service, stop_ssl_data_package_service,
  stop_ssl_cot_service, stop_federation_client_service, stop_federation_server_service,
}
use free_tak_server.ServiceManager.StartAll.{start_all}
use free_tak_server.ServiceManager.Services.{ServiceName, start_service}
use free_tak_server.ServiceManager.Sound.{IsCoherent}
use free_tak_server.ServiceManager.Sound.Methods.{
  start_service-Keeps, stop_cot_service-Keeps, stop_tcp_data_package_service-Keeps,
  stop_ssl_data_package_service-Keeps, stop_ssl_cot_service-Keeps,
  stop_federation_client_service-Keeps, stop_federation_server_service-Keeps, start_all-Keeps,
}

abbrev no_process : Process
no_process = record { target = ""; ip = absent; port = absent; poison_pill = none; phase = unused }

-- `FTS()`, with the object that `FTSObj()` makes.
abbrev pub initial : Startup → Fts
initial o = record {
  configuration = [];
  next_id = 0;
  set_events = [];
  closed = [];
  processes = λ i. no_process;
  rest_api_pipe = none;
  rest_api_commands_fts = none;
  receive_rest_stopper = none;
  receive_rest = none;
  rest_api_process = none;
  core_tcp_user_queue_send = none;
  service_tcp_user_queue_send = none;
  tcp_cot_service = none;
  cot_poison_pill = none;
  receive_connections_reset = none;
  cot_service = none;
  tcp_data_package_service_pipe = none;
  tcp_data_package_service = none;
  ssl_data_package_service_pipe = none;
  ssl_data_package_service = none;
  core_ssl_user_queue_send = none;
  service_ssl_user_queue_send = none;
  ssl_cot_service = none;
  ssl_client_data_pipe = none;
  ssl_cot_poison_pill = none;
  federation_client_service_pipe = none;
  federation_client_service = none;
  federation_server_service_pipe = none;
  federation_server_service = none;
  pipe_list = [];
  filter_group = empty_group;
  startup_object = o;
}

-- A call of a method, or the end of a process that ends by itself.
pub data Operation : Type 0 where
  starting : ServiceName → Startup → Operation
  arranging : Startup → Operation
  stopping_cot stopping_tcp_data_package stopping_ssl_data_package : Operation
  stopping_ssl_cot stopping_federation_client stopping_federation_server : Operation
  ending : ℕ → Operation

abbrev ended : Phase → Phase
ended running = exited
ended phase = phase

abbrev end_by_itself : ℕ → Fts → Fts
end_by_itself i s = record s {
  processes = λ j.
      if nat_eq i j
      then record (s.processes j) { phase = ended ((s.processes j).phase) }
      else s.processes j;
}

abbrev pub perform : Machine → Operation → Fts → Fts
perform m (starting v c) s = (start_service v m c s).1
perform m (arranging c) s = (start_all m c s).1
perform m stopping_cot s = (stop_cot_service s).1
perform m stopping_tcp_data_package s = (stop_tcp_data_package_service s).1
perform m stopping_ssl_data_package s = (stop_ssl_data_package_service s).1
perform m stopping_ssl_cot s = (stop_ssl_cot_service s).1
perform m stopping_federation_client s = (stop_federation_client_service s).1
perform m stopping_federation_server s = (stop_federation_server_service s).1
perform m (ending i) s = end_by_itself i s

-- What some sequence of operations makes of the state at the start.
pub data Reach (m : Machine) (o : Startup) : Fts → Type 0 where
  here : Reach m o (initial o)
  next : {s : Fts} → Reach m o s → (op : Operation) → Reach m o (perform m op s)

perform-IsCoherent :
    (m : Machine) (op : Operation) (s : Fts) → IsCoherent s → IsCoherent (perform m op s)
perform-IsCoherent m (starting v c) = (start_service-Keeps v m c).keeps
perform-IsCoherent m (arranging c) = (start_all-Keeps m c).keeps
perform-IsCoherent m stopping_cot = stop_cot_service-Keeps.keeps
perform-IsCoherent m stopping_tcp_data_package = stop_tcp_data_package_service-Keeps.keeps
perform-IsCoherent m stopping_ssl_data_package = stop_ssl_data_package_service-Keeps.keeps
perform-IsCoherent m stopping_ssl_cot = stop_ssl_cot_service-Keeps.keeps
perform-IsCoherent m stopping_federation_client = stop_federation_client_service-Keeps.keeps
perform-IsCoherent m stopping_federation_server = stop_federation_server_service-Keeps.keeps
perform-IsCoherent m (ending i) = λ s h. h

-- In every state that a server reaches from its start by starting and stopping services in any
-- order, by start_all, and by processes that end by themselves, no key stands twice in pipeList,
-- the sources or the receivers, and SSLClientDataPipe is None.
Reach-IsCoherent : (m : Machine) (o : Startup) {s : Fts} → Reach m o s → IsCoherent s
Reach-IsCoherent m o here = (refl, tt, tt, tt)
Reach-IsCoherent m o (next r op) = perform-IsCoherent m op _ (Reach-IsCoherent m o r)

close_pipe-raised :
    (o : Option Pipe) (s : Fts) → o ≡ none → close_pipe o s ≡ (raised attribute_error, s)
unfolding close_pipe
close_pipe-raised o s h = rw h refl

stop_ssl_cot_service-fails :
    (s : Fts) → s.ssl_client_data_pipe ≡ none → stop_ssl_cot_service s ≡ (returns failure, s)
unfolding stop_ssl_cot_service
stop_ssl_cot_service-fails s h = rw (close_pipe-raised s.ssl_client_data_pipe s h) refl

-- In every state that a server reaches from its start by starting and stopping services, by
-- start_all, and by processes that end by themselves, the method that stops the SSL CoT service
-- returns -1 and changes nothing.
pub Reach-stop_ssl_cot_service :
    (m : Machine) (o : Startup) {s : Fts}
    → Reach m o s
    → stop_ssl_cot_service s ≡ (returns failure, s)
Reach-stop_ssl_cot_service m o {s = s} r = stop_ssl_cot_service-fails s (Reach-IsCoherent m o r).0
