-- ===== src/ServiceManager/Services.antt =====
-- The seven services of FreeTAKServer/controllers/services/FTS.py side by side: the method that
-- starts each, and the names under which it is found afterwards.
use free_tak_server.Base.{ℕ, String, Bool, true, false, ◌&&◌, Option, List, [], ◌∷◌}
use free_tak_server.ServiceManager.FilterGroup.{
  tcpcotservice, sslcotservice, tcpdpservice, ssldpservice, apiservice, fedserverservice,
  fedclientservice,
}
use free_tak_server.ServiceManager.State.{Startup, Pipe, Fts, Machine, Run, Code, creates_all}
use free_tak_server.ServiceManager.Starting.{
  start_rest_api_service, start_cot_service, start_tcp_data_package_service,
  start_ssl_data_package_service, start_ssl_cot_service, start_federation_client_service,
  start_federation_server_service,
}

pub data ServiceName : Type 0 where
  rest_api cot tcp_data_package ssl_data_package ssl_cot federation_client federation_server :
      ServiceName

abbrev pub start_service : ServiceName → Machine → Startup → Run Code
start_service rest_api = start_rest_api_service
start_service cot = start_cot_service
start_service tcp_data_package = start_tcp_data_package_service
start_service ssl_data_package = start_ssl_data_package_service
start_service ssl_cot = start_ssl_cot_service
start_service federation_client = start_federation_client_service
start_service federation_server = start_federation_server_service

-- The key in `pipeList`, the name in the filter group, and the attributes of queue and process.
abbrev pub pipe_name : ServiceName → String
pipe_name rest_api = "restAPI"
pipe_name cot = "TCPCoTServiceFTSPipe"
pipe_name tcp_data_package = "tcp_data_package_service_pipe"
pipe_name ssl_data_package = "ssl_data_package_service"
pipe_name ssl_cot = "SSLCoTServiceFTSPipe"
pipe_name federation_client = "FederationClientServiceFTSPipe"
pipe_name federation_server = "FederationServerServiceFTSPipe"

abbrev pub service_type : ServiceName → String
service_type rest_api = apiservice
service_type cot = tcpcotservice
service_type tcp_data_package = tcpdpservice
service_type ssl_data_package = ssldpservice
service_type ssl_cot = sslcotservice
service_type federation_client = fedclientservice
service_type federation_server = fedserverservice

abbrev pub pipe_of : ServiceName → Fts → Option Pipe
pipe_of rest_api = λ s. s.rest_api_pipe
pipe_of cot = λ s. s.tcp_cot_service
pipe_of tcp_data_package = λ s. s.tcp_data_package_service_pipe
pipe_of ssl_data_package = λ s. s.ssl_data_package_service_pipe
pipe_of ssl_cot = λ s. s.ssl_cot_service
pipe_of federation_client = λ s. s.federation_client_service_pipe
pipe_of federation_server = λ s. s.federation_server_service_pipe

abbrev pub process_of : ServiceName → Fts → Option ℕ
process_of rest_api = λ s. s.rest_api_process
process_of cot = λ s. s.cot_service
process_of tcp_data_package = λ s. s.tcp_data_package_service
process_of ssl_data_package = λ s. s.ssl_data_package_service
process_of ssl_cot = λ s. s.cot_service
process_of federation_client = λ s. s.federation_client_service
process_of federation_server = λ s. s.federation_server_service

-- Whether data of other services is sent to it.
abbrev pub receives : ServiceName → Bool
receives rest_api = false
receives cot = true
receives tcp_data_package = false
receives ssl_data_package = false
receives ssl_cot = true
receives federation_client = true
receives federation_server = true

-- Whether its stop deletes the queue in `pipeList`.
abbrev pub drops : ServiceName → Bool
drops rest_api = false
drops cot = false
drops tcp_data_package = true
drops ssl_data_package = true
drops ssl_cot = true
drops federation_client = true
drops federation_server = false

-- What the factory is asked for, and what the process runs.
abbrev pub needs : ServiceName → List String
needs rest_api = "RestAPIService" ∷ "factory" ∷ []
needs cot = "TCPCoTService" ∷ "factory" ∷ "tracingprovider" ∷ []
needs tcp_data_package = "HTTPTakAPIService" ∷ "factory" ∷ []
needs ssl_data_package = "HTTPSTakAPIService" ∷ "factory" ∷ []
needs ssl_cot = "SSLCoTService" ∷ "factory" ∷ "tracingprovider" ∷ []
needs federation_client = "FederationClientServiceController" ∷ []
needs federation_server = "FederationServerService" ∷ []

abbrev pub target : ServiceName → String
target rest_api = "RestAPIService"
target cot = "TCPCoTService"
target tcp_data_package = "HTTPTakAPIService"
target ssl_data_package = "HTTPSTakAPIService"
target ssl_cot = "SSLCoTService"
target federation_client = "FederationClientServiceController"
target federation_server = "FederationServerService"

-- The machine lets the service start. With the interface a thread is started before the process.
abbrev pub starts_before : Machine → ServiceName → Bool
starts_before m rest_api = m.spawns "receive_Rest_commands"
starts_before m _ = true

abbrev pub can_start : Machine → ServiceName → Bool
can_start m v = creates_all m (needs v) && (starts_before m v && m.spawns (target v))
