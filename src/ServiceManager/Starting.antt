-- ===== src/ServiceManager/Starting.antt =====
-- FreeTAKServer/controllers/services/FTS.py: the methods that start a service.
pub mod Prepared
pub mod Registered
pub mod Kept
pub mod Numbered
use free_tak_server.Base.{
  ℕ, ◌+◌, ◌&&◌, true, String, Bool, Option, none, some, List, [], ◌∷◌, ⊤, if◌then◌else◌, nat_eq,
}
use free_tak_server.Base.Actions.{pure, ◌>>=◌, ◌>>◌, change, field, try◌except◌, require}
use free_tak_server.ServiceManager.FilterGroup.{
  tcpcotservice, sslcotservice, tcpdpservice, ssldpservice, apiservice, fedserverservice,
  fedclientservice,
}
use free_tak_server.ServiceManager.State.{
  Parameter, absent, Startup, Pipe, queue, manager, Fts, Machine, Run, Code, success, failure,
  fresh, configure_service, new_event, set_event, get_instances, new_process, start_process,
  set_pipe, add_source_of, add_receiver_of,
}

-- The thread of the commands and the process of the interface are two processes here. The event is
-- not set when it is created, and stays so.
unfoldable pub prepare_rest_api_service : Startup → Run (Pipe × ℕ)
unfolding configure_service
prepare_rest_api_service c = do
  configure_service "RestAPIService" "rest_api_service" c
  pipe ← fresh
  change λ s. record s { rest_api_pipe = some (queue pipe) }
  thread ← fresh
  main ← fresh
  change λ s. record s { rest_api_commands_fts = some (manager main thread) }
  stopper ← new_event
  change λ s. record s { receive_rest_stopper = some stopper }
  receiver ← new_process "receive_Rest_commands" absent absent (some stopper)
  change λ s. record s { receive_rest = some receiver }
  pure (queue pipe, receiver)

unfoldable pub start_rest_api_service : Machine → Startup → Run Code
start_rest_api_service m c =
    try (do
      (pipe, receiver) ← prepare_rest_api_service c
      get_instances m ("RestAPIService" ∷ "factory" ∷ [])
      i ← new_process "RestAPIService" c.rest_api_service.ip c.rest_api_service.port none
      change λ s. record s { rest_api_process = some i }
      start_process m "receive_Rest_commands" receiver
      start_process m "RestAPIService" i
      set_pipe "restAPI" pipe
      add_source_of pipe apiservice
      pure success)
    except failure

unfoldable pub prepare_cot_service : Startup → Run (Pipe × ℕ)
unfolding configure_service
prepare_cot_service c = do
  configure_service "TCPCoTService" "tcp_cot_service" c
  core ← fresh
  change λ s. record s { core_tcp_user_queue_send = some (queue core) }
  service ← fresh
  change λ s. record s { service_tcp_user_queue_send = some (queue service) }
  thread ← fresh
  fts ← fresh
  change λ s. record s { tcp_cot_service = some (manager thread fts) }
  pill ← new_event
  change λ s. record s { cot_poison_pill = some pill }
  set_event pill
  reset ← new_event
  change λ s. record s { receive_connections_reset = some reset }
  pure (manager thread fts, pill)

unfoldable pub start_cot_service : Machine → Startup → Run Code
start_cot_service m c =
    try (do
      (pipe, pill) ← prepare_cot_service c
      get_instances m ("TCPCoTService" ∷ "factory" ∷ "tracingprovider" ∷ [])
      i ← new_process "TCPCoTService" c.cot_service.ip c.cot_service.port (some pill)
      change λ s. record s { cot_service = some i }
      start_process m "TCPCoTService" i
      set_pipe "TCPCoTServiceFTSPipe" pipe
      add_receiver_of pipe tcpcotservice
      add_source_of pipe tcpcotservice
      pure success)
    except failure

unfoldable pub prepare_tcp_data_package_service : Startup → Run Pipe
unfolding configure_service
prepare_tcp_data_package_service c = do
  configure_service "HTTPTakAPIService" "http_tak_api_service" c
  q ← fresh
  change λ s. record s { tcp_data_package_service_pipe = some (queue q) }
  pure (queue q)

unfoldable pub start_tcp_data_package_service : Machine → Startup → Run Code
start_tcp_data_package_service m c =
    try (do
      pipe ← prepare_tcp_data_package_service c
      get_instances m ("HTTPTakAPIService" ∷ "factory" ∷ [])
      i ←
          new_process "HTTPTakAPIService" c.tcp_data_package_service.ip
            c.tcp_data_package_service.port none
      change λ s. record s { tcp_data_package_service = some i }
      start_process m "HTTPTakAPIService" i
      set_pipe "tcp_data_package_service_pipe" pipe
      add_source_of pipe tcpdpservice
      pure success)
    except failure

unfoldable pub prepare_ssl_data_package_service : Startup → Run Pipe
unfolding configure_service
prepare_ssl_data_package_service c = do
  configure_service "HTTPSTakAPIService" "https_tak_api_service" c
  q ← fresh
  change λ s. record s { ssl_data_package_service_pipe = some (queue q) }
  pure (queue q)

unfoldable pub start_ssl_data_package_service : Machine → Startup → Run Code
start_ssl_data_package_service m c =
    try (do
      pipe ← prepare_ssl_data_package_service c
      get_instances m ("HTTPSTakAPIService" ∷ "factory" ∷ [])
      i ←
          new_process "HTTPSTakAPIService" c.ssl_data_package_service.ip
            c.ssl_data_package_service.port none
      change λ s. record s { ssl_data_package_service = some i }
      start_process m "HTTPSTakAPIService" i
      set_pipe "ssl_data_package_service" pipe
      add_source_of pipe ssldpservice
      pure success)
    except failure

unfoldable pub prepare_ssl_cot_service : Startup → Run (Pipe × ℕ)
unfolding configure_service
prepare_ssl_cot_service c = do
  configure_service "SSLCoTService" "ssl_cot_service" c
  core ← fresh
  change λ s. record s { core_ssl_user_queue_send = some (queue core) }
  service ← fresh
  change λ s. record s { service_ssl_user_queue_send = some (queue service) }
  thread ← fresh
  fts ← fresh
  change λ s. record s { ssl_cot_service = some (manager thread fts) }
  pill ← new_event
  change λ s. record s { cot_poison_pill = some pill }
  set_event pill
  reset ← new_event
  change λ s. record s { receive_connections_reset = some reset }
  pure (manager thread fts, pill)

-- The process is kept where that of the TCP service is.
unfoldable pub start_ssl_cot_service : Machine → Startup → Run Code
start_ssl_cot_service m c =
    try (do
      (pipe, pill) ← prepare_ssl_cot_service c
      get_instances m ("SSLCoTService" ∷ "factory" ∷ "tracingprovider" ∷ [])
      i ← new_process "SSLCoTService" c.ssl_cot_service.ip c.ssl_cot_service.port (some pill)
      change λ s. record s { cot_service = some i }
      start_process m "SSLCoTService" i
      set_pipe "SSLCoTServiceFTSPipe" pipe
      add_receiver_of pipe sslcotservice
      add_source_of pipe sslcotservice
      pure success)
    except failure

unfoldable pub prepare_federation_client_service : Run Pipe
prepare_federation_client_service = do
  fts ← fresh
  pipe ← fresh
  change λ s. record s { federation_client_service_pipe = some (manager fts pipe) }
  pure (manager fts pipe)

unfoldable pub start_federation_client_service : Machine → Startup → Run Code
start_federation_client_service m c = do
  pipe ← prepare_federation_client_service
  get_instances m ("FederationClientServiceController" ∷ [])
  i ← new_process "FederationClientServiceController" absent absent none
  change λ s. record s { federation_client_service = some i }
  start_process m "FederationClientServiceController" i
  set_pipe "FederationClientServiceFTSPipe" pipe
  add_source_of pipe fedclientservice
  add_receiver_of pipe fedclientservice
  pure success

unfoldable pub prepare_federation_server_service : Run Pipe
prepare_federation_server_service = do
  fts ← fresh
  controller ← fresh
  change λ s. record s { federation_server_service_pipe = some (manager controller fts) }
  pure (manager controller fts)

unfoldable pub start_federation_server_service : Machine → Startup → Run Code
start_federation_server_service m c =
    try (do
      pipe ← prepare_federation_server_service
      get_instances m ("FederationServerService" ∷ [])
      i ←
          new_process "FederationServerService" c.federation_server_service.ip
            c.federation_server_service.port none
      change λ s. record s { federation_server_service = some i }
      start_process m "FederationServerService" i
      set_pipe "FederationServerServiceFTSPipe" pipe
      add_source_of pipe fedserverservice
      add_receiver_of pipe fedserverservice
      pure success)
    except failure
