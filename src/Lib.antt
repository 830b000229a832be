-- ===== src/Lib.antt =====
-- FreeTAKServer: a server for TAK clients, which exchange CoT (Cursor on Target) events. Services
-- (processes) accept clients and HTTP calls and route requests to components, which answer
-- through the services.
--
-- CotService models the TCP CoT service (FreeTAKServer/services/tcp_cot_service). Wire: writes to
-- sockets. SendData: controllers/SendDataController.py, with Route for the private routes and
-- sendDataInQueue. ComponentData: controllers/send_component_data_controller.py. ActiveThreads:
-- FreeTAKServer/core/connection/ActiveThreadsController.py. Service: the state of
-- TCPCoTServiceMain and the handlers of client_connection_controller.py and
-- client_disconnection_controller.py. MainLoop: handle_regular_data, get_client_information,
-- handle_shared_data, broadcast_component_responses and mainRunFunction of
-- tcp_cot_service_main.py. Reception: controllers/ClientReceptionHandler.py. ReceiveConnections:
-- controllers/ReceiveConnections.py.
--
-- MainConfig models the configuration (FreeTAKServer/core/configuration/MainConfig.py) that the
-- services read. Text: what it takes of Python's texts. Values: the values of settings, the
-- conversions and set and get. Tables: _defaults. Keys: _env_vars and _yaml_keys. Paths:
-- validate_and_sanitize_path, with os.path.normpath and relpath of POSIX. Loading: instance,
-- read_yaml_config and import_env_config. The YAML parser and the file system are fields of Os,
-- the paths and the address of the machine fields of Host; floating point numbers and lists of
-- other things than texts in a YAML file are not modelled, texts are printed by repr as if all
-- their characters were printable ASCII, and upper case and digits are those of ASCII.
--
-- Emergency models a part of the emergency component
-- (FreeTAKServer/components/extended/emergency/controllers): emergency_persistence.py with the
-- dictionaries in memory by position, so that two names can be for one dictionary, and who is
-- sent an emergency (emergency_general_controller.py, emergency_sender_controller.py). The
-- service asks this component for the emergencies of each new client. Memory: the dictionaries by
-- position. Restart and Detached: the file. Recipients: who is sent what. Pickle and the distance
-- of geopy are parameters, and the disk takes every write.
--
-- Repeater models the repeated messages
-- (FreeTAKServer/core/cot_management/controllers/cot_management_repeater_controller.py and
-- cot_management_repeater_persistence.py), for which the service asks for each new client too.
-- The file holds a dictionary, which pickle reads back as it was; that the values of the request
-- are copied to the response is left out.
--
-- TypeMapping models FreeTAKServer/components/core/type/controllers/memory_mapping.py, which
-- components ask for the types of CoTs: two dictionaries and their file. Registered: what is
-- found after registrations and a restart.
--
-- PrivateCot models
-- FreeTAKServer/core/cot_management/controllers/cot_management_private_cot_controller.py, which
-- says for which connections a CoT without a handler of its own is; the answer goes to the
-- services, which send it by the component data controller. Addressed: who is a recipient.
--
-- StatusCheck models TCPCoTStatusCheck of FreeTAKServer/core/health/ServerStatusController.py,
-- which asks the TCP CoT service over its own port. Answered: the check and listen.
--
-- ServiceManager models the process that runs the services
-- (FreeTAKServer/controllers/services/FTS.py). FilterGroup: FreeTAKServer/model/FilterGroup.py
-- and the enumeration of service types. State: the attributes of FTS and what its methods do with
-- queues, events and processes; queues, events and processes are numbered in the order in which
-- they are made. Starting and Stopping: start_* and stop_*, with Prepared, Registered, Kept and
-- Numbered for what a start leaves, Ended and Stopped for a stop, and RoundTrip for both.
-- StartAll: start_all. Services: the methods side by side. Sound and Reached: an invariant of all
-- states that are reached. Crossed: the two CoT services together. The TCP CoT service that is
-- started here is CotService.
--
-- ServiceManager.Users models the users that this process keeps for all services
-- (receive_data_froCoT_service_thread, and FreeTAKServer/model/User.py). State: the dictionary of
-- users, the counter of sockets and what is on the two queues that are written. A message carries
-- only what the method reads of it, and an option stands for a test of its class. After: the
-- dictionary after a message; Connected, Populated, Answered: theorems on it. The CoT services
-- send these messages when a client comes or goes (CotService).
--
-- ServiceManager.Queues models QueueManager, with queues by number, so that two ends may share
-- one; multiprocessing may hand an item over late, so a get with a timeout has an argument that
-- says at which queues it does.
--
-- ServiceManager.Pipes models checkPipes and FreeTAKServer/core/util/AddDataToCoTList.py, one
-- round over the sources after another, with a timeout that is not 0; each round is complete, so
-- there is no fuel. Sent, Shared: what a message and a look at one source do to each queue;
-- Shares: a round; Drained: many rounds.
--
-- ServiceManager.Commands models receive_Rest_commands, the thread that does what the REST
-- service asks for, as rounds that each take one command, with the methods of the server as a
-- parameter, and the end of stop_rest_api_service. Arrivals and rounds are events in any order.
-- Served: the order of the commands; Waited: the stop; Replied: the answers.
--
-- Python values are modelled as follows: a missing attribute, key or index raises an exception,
-- which is a value of Outcome; a method that changes an object returns the changed record; a dict
-- is an association list in insertion order; bytes and the text that they encode carry the same
-- String. Names keep the words of the source in snake_case.
--
-- Bounds: recv_until of the reception reads until its text is complete or a read fails, for the
-- number of rounds that the clock of the receive timeout gives, which is an argument of it;
-- accepting a client reads at most five chunks, as the source counts them; the rounds of the main
-- loop are an argument of main_run_function, which the service runs for ever; the decimal digits
-- of a number are printed on fuel that is one more than the number.
--
-- Not modelled: the TLS copy of the service, processes, timers and logging, parsing and
-- serializing CoT, the database, the HTTP services, and the other components.
pub mod Base
pub mod CotService
pub mod Emergency
pub mod MainConfig
pub mod PrivateCot
pub mod Repeater
pub mod ServiceManager
pub mod StatusCheck
pub mod TypeMapping
