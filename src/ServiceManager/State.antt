-- ===== src/ServiceManager/State.antt =====
-- The attributes of `FTS`, the values in them, and what its methods do with queues, events and
-- processes: FreeTAKServer/controllers/services/FTS.py and FreeTAKServer/model/ServiceObjects/.
use Prim.Native.Nat.{◌/◌, ◌%◌}
use Prim.Native.String.{slice}
use free_tak_server.Base.{
  ℕ, zero, suc, ◌+◌, String, str_append, ◌==◌, Bool, true, false, not, ◌&&◌, Option, none, some,
  List, [], ◌∷◌, returns, raised, attribute_error, os_error, runtime_error, ⊤, if◌then◌else◌, ltb,
  nat_eq, select,
}
use free_tak_server.Base.Dict.{Dict, insert}
use free_tak_server.Base.Actions.{Action, pure, raise, ◌>>=◌, ◌>>◌, change, field, require}
use free_tak_server.ServiceManager.FilterGroup.{
  FilterGroup, delete, add_source, add_receiver, remove_source, remove_receiver,
}

-- The address or port of a service: a text, a number or None.
pub data Parameter : Type 0 where
  absent : Parameter
  text : String → Parameter
  number : ℕ → Parameter

-- The decimal digits of a number.
abbrev decimal : ℕ → ℕ → String
decimal zero n = ""
decimal (suc fuel) n =
    let more = decimal fuel (n / 10) in
    let last = slice "0123456789" (n % 10) (n % 10 + 1) in
    if ltb n 10 then last else str_append more last

-- `f"{x}"`
abbrev pub formatted : Parameter → String
formatted absent = "None"
formatted (text s) = s
formatted (number n) = decimal (suc n) n

-- `a == b`
abbrev pub setting_eq : Parameter → Parameter → Bool
setting_eq absent absent = true
setting_eq (text s) (text t) = s == t
setting_eq (number m) (number n) = nat_eq m n
setting_eq _ _ = false

-- An object such as `CoTService` of the service objects.
pub record ServiceObject : Type 0 where
  pub ip : Parameter
  pub port : Parameter
  pub status : String

-- `FTSObj`
pub record Startup : Type 0 where
  pub cot_service : ServiceObject
  pub tcp_data_package_service : ServiceObject
  pub ssl_data_package_service : ServiceObject
  pub rest_api_service : ServiceObject
  pub ssl_cot_service : ServiceObject
  pub federation_client_service : ServiceObject
  pub federation_server_service : ServiceObject
  pub routing_proxy_subscriber_ip : Parameter
  pub routing_proxy_subscriber_port : Parameter
  pub routing_proxy_subscriber_protocol : Parameter
  pub integration_manager_publisher_address : Parameter
  pub integration_manager_publisher_port : Parameter
  pub integration_manager_publisher_protocol : Parameter

-- A call `configuration.set_value(key, value, section)`.
pub record Setup : Type 0 where
  pub section : String
  pub key : String
  pub value : Parameter

-- A `Queue`, or the `QueueManager` of a sender queue and a listener queue; each queue has an id.
pub data Pipe : Type 0 where
  queue : ℕ → Pipe
  manager : ℕ → ℕ → Pipe

pub data Phase : Type 0 where
  unused created running exited : Phase

-- A `multiprocessing.Process`: what it runs, the address that it is given, the event that it is to
-- end at, and how far it is.
pub record Process : Type 0 where
  pub target : String
  pub ip : Parameter
  pub port : Parameter
  pub poison_pill : Option ℕ
  pub phase : Phase

-- The attributes of `FTS`; none is None. An attribute that `__init__` does not set is none too:
-- what is done with either is an AttributeError.
pub record Fts : Type 0 where
  pub configuration : List Setup
  pub next_id : ℕ
  pub set_events : List ℕ
  pub closed : List ℕ
  pub processes : ℕ → Process
  pub rest_api_pipe : Option Pipe
  pub rest_api_commands_fts : Option Pipe
  pub receive_rest_stopper : Option ℕ
  pub receive_rest : Option ℕ
  pub rest_api_process : Option ℕ
  pub core_tcp_user_queue_send : Option Pipe
  pub service_tcp_user_queue_send : Option Pipe
  pub tcp_cot_service : Option Pipe
  pub cot_poison_pill : Option ℕ
  pub receive_connections_reset : Option ℕ
  pub cot_service : Option ℕ
  pub tcp_data_package_service_pipe : Option Pipe
  pub tcp_data_package_service : Option ℕ
  pub ssl_data_package_service_pipe : Option Pipe
  pub ssl_data_package_service : Option ℕ
  pub core_ssl_user_queue_send : Option Pipe
  pub service_ssl_user_queue_send : Option Pipe
  pub ssl_cot_service : Option Pipe
  pub ssl_client_data_pipe : Option Pipe
  pub ssl_cot_poison_pill : Option ℕ
  pub federation_client_service_pipe : Option Pipe
  pub federation_client_service : Option ℕ
  pub federation_server_service_pipe : Option Pipe
  pub federation_server_service : Option ℕ
  pub pipe_list : Dict Pipe
  pub filter_group : FilterGroup Pipe
  pub startup_object : Startup

-- The machine: whether the factory creates an object, and whether the process of a target starts.
pub record Machine : Type 0 where
  pub creates : String → Bool
  pub spawns : String → Bool

abbrev pub Run : Type 0 → Type 0
Run A = Action Fts A

-- What the methods return: 1 and -1.
pub data Code : Type 0 where
  success failure : Code

abbrev pub set_value : String → String → Parameter → Run ⊤
set_value key section value = change λ s. record s {
  configuration = record { section = section; key = key; value = value } ∷ s.configuration;
}

-- The seven calls at the start of most starting methods.
unfoldable pub configure_service : String → String → Startup → Run ⊤
configure_service section service_id c = do
  set_value "subject_address" section (text (formatted c.routing_proxy_subscriber_ip))
  set_value "subject_port" section (text (formatted c.routing_proxy_subscriber_port))
  set_value "subject_protocol" section c.routing_proxy_subscriber_protocol
  set_value "integration_manager_address" section c.integration_manager_publisher_address
  set_value "integration_manager_port" section c.integration_manager_publisher_port
  set_value "integration_manager_protocol" section c.integration_manager_publisher_protocol
  set_value "service_id" section (text service_id)

-- An id that no queue, event or process has.
abbrev pub fresh : Run ℕ
fresh s = (returns s.next_id, record s { next_id = s.next_id + 1 })

-- `Event()`: it is not set.
abbrev pub new_event : Run ℕ
new_event = fresh

abbrev pub set_event : ℕ → Run ⊤
set_event e = change λ s. record s { set_events = e ∷ s.set_events }

-- `event.clear()` of an attribute.
unfoldable pub clear_event : Option ℕ → Run ⊤
clear_event none = raise attribute_error
clear_event (some e) =
    change λ s. record s { set_events = select (λ x. not (nat_eq x e)) s.set_events }

-- `ObjectFactory.get_instance(name)` of each name.
abbrev pub creates_all : Machine → List String → Bool
creates_all m [] = true
creates_all m (name ∷ names) = m.creates name && creates_all m names

abbrev pub get_instances : Machine → List String → Run ⊤
get_instances m names = require (creates_all m names) runtime_error

abbrev set_process : ℕ → Process → (ℕ → Process) → ℕ → Process
set_process i p f j = if nat_eq i j then p else f j

abbrev set_phase : Phase → ℕ → Run ⊤
set_phase phase i = change λ s. record s {
  processes = set_process i (record (s.processes i) { phase = phase }) s.processes;
}

-- `Process(target, args)`
abbrev pub new_process : String → Parameter → Parameter → Option ℕ → Run ℕ
new_process target ip port pill = do
  i ← fresh
  change λ s. record s {
    processes =
        set_process i
          (record { target = target; ip = ip; port = port; poison_pill = pill; phase = created })
          s.processes;
  }
  pure i

-- `process.start()` of a process that was just created to run `target`.
abbrev pub start_process : Machine → String → ℕ → Run ⊤
start_process m target i = do require (m.spawns target) os_error; set_phase running i

abbrev is_running : Process → Bool
is_running p = elim (p.phase) [ running ↦ true | _ ↦ false ]

-- `process.is_alive()`
abbrev pub is_alive : Option ℕ → Run Bool
is_alive none = raise attribute_error
is_alive (some i) = field λ s. is_running (s.processes i)

-- `isinstance(process, Process) and process.is_alive()`
abbrev pub is_alive_process : Option ℕ → Fts → Bool
is_alive_process none s = false
is_alive_process (some i) s = is_running (s.processes i)

-- `process.terminate()`, with the end of the process, for which the `join` that follows waits.
unfoldable pub terminate : Option ℕ → Run ⊤
terminate none = raise attribute_error
terminate (some i) = do
  p ← field (λ s. s.processes i)
  elim (p.phase) [ running ↦ set_phase exited i | exited ↦ pure tt | _ ↦ raise attribute_error ]

-- `process.join()` of a process that has ended; of one that was not started it is an assertion.
unfoldable pub join_process : Option ℕ → Run ⊤
join_process none = raise attribute_error
join_process (some i) = do
  p ← field (λ s. s.processes i)
  elim (p.phase) [ unused ↦ raise runtime_error | created ↦ raise runtime_error | _ ↦ pure tt ]

-- `pipe.close()`: a `QueueManager` closes both of its queues.
unfoldable pub close_pipe : Option Pipe → Run ⊤
close_pipe none = raise attribute_error
close_pipe (some (queue q)) = change λ s. record s { closed = q ∷ s.closed }
close_pipe (some (manager a b)) = change λ s. record s { closed = b ∷ a ∷ s.closed }

-- `self.pipeList[k] = pipe` and `del self.pipeList[k]`.
abbrev pub set_pipe : String → Pipe → Run ⊤
set_pipe k p = change λ s. record s { pipe_list = insert k p s.pipe_list }

unfoldable pub delete_pipe : String → Run ⊤
delete_pipe k s = elim (delete k s.pipe_list) [
  | returns d ↦ (returns tt, record s { pipe_list = d })
  | raised e ↦ (raised e, s)
]

abbrev pub add_source_of : Pipe → String → Run ⊤
add_source_of p name = change λ s. record s { filter_group = add_source p name s.filter_group }

abbrev pub add_receiver_of : Pipe → String → Run ⊤
add_receiver_of p name = change λ s. record s { filter_group = add_receiver p name s.filter_group }

unfoldable pub remove_source_of : String → Run ⊤
remove_source_of name s = elim (remove_source name s.filter_group) [
  | returns g ↦ (returns tt, record s { filter_group = g })
  | raised e ↦ (raised e, s)
]

unfoldable pub remove_receiver_of : String → Run ⊤
remove_receiver_of name s = elim (remove_receiver name s.filter_group) [
  | returns g ↦ (returns tt, record s { filter_group = g })
  | raised e ↦ (raised e, s)
]
