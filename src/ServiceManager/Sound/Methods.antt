-- ===== src/ServiceManager/Sound/Methods.antt =====
-- Each method that starts or stops services keeps the invariant.
use free_tak_server.ServiceManager.State.{Startup, Machine}
use free_tak_server.ServiceManager.Starting.{
  start_rest_api_service, prepare_rest_api_service, start_cot_service, prepare_cot_service,
  start_tcp_data_package_service, prepare_tcp_data_package_service, start_ssl_data_package_service,
  prepare_ssl_data_package_service, start_ssl_cot_service, prepare_ssl_cot_service,
  start_federation_client_service, prepare_federation_client_service,
  start_federation_server_service, prepare_federation_server_service,
}
use free_tak_server.ServiceManager.Stopping.{
  stop_cot_service, stop_tcp_data_package_service, stop_ssl_data_package_service,
  stop_ssl_cot_service, stop_federation_client_service, stop_federation_server_service,
}
use free_tak_server.ServiceManager.StartAll.{
  start_all, arrange_tcp_data_package_service, arrange_ssl_data_package_service,
  arrange_cot_service, arrange_ssl_cot_service, arrange_federation_client_service,
  arrange_federation_server_service,
}
use free_tak_server.ServiceManager.Services.{
  ServiceName, rest_api, cot, tcp_data_package, ssl_data_package, ssl_cot, federation_client,
  federation_server, start_service,
}
use free_tak_server.ServiceManager.Sound.{Keeps, keeping, ending}

pub prepare_rest_api_service-Keeps : (c : Startup) → Keeps (prepare_rest_api_service c)
unfolding prepare_rest_api_service
prepare_rest_api_service-Keeps c = record { keeps = λ s h. h }

pub prepare_cot_service-Keeps : (c : Startup) → Keeps (prepare_cot_service c)
unfolding prepare_cot_service
prepare_cot_service-Keeps c = record { keeps = λ s h. h }

pub prepare_tcp_data_package_service-Keeps :
    (c : Startup) → Keeps (prepare_tcp_data_package_service c)
unfolding prepare_tcp_data_package_service
prepare_tcp_data_package_service-Keeps c = record { keeps = λ s h. h }

pub prepare_ssl_data_package_service-Keeps :
    (c : Startup) → Keeps (prepare_ssl_data_package_service c)
unfolding prepare_ssl_data_package_service
prepare_ssl_data_package_service-Keeps c = record { keeps = λ s h. h }

pub prepare_ssl_cot_service-Keeps : (c : Startup) → Keeps (prepare_ssl_cot_service c)
unfolding prepare_ssl_cot_service
prepare_ssl_cot_service-Keeps c = record { keeps = λ s h. h }

pub prepare_federation_client_service-Keeps : Keeps prepare_federation_client_service
unfolding prepare_federation_client_service
prepare_federation_client_service-Keeps = record { keeps = λ s h. h }

pub prepare_federation_server_service-Keeps : Keeps prepare_federation_server_service
unfolding prepare_federation_server_service
prepare_federation_server_service-Keeps = record { keeps = λ s h. h }

pub start_rest_api_service-Keeps : (m : Machine) (c : Startup) → Keeps (start_rest_api_service m c)
unfolding start_rest_api_service
start_rest_api_service-Keeps m c =
    search (keeping, prepare_rest_api_service-Keeps) depth 25 fits 4000

pub start_cot_service-Keeps : (m : Machine) (c : Startup) → Keeps (start_cot_service m c)
unfolding start_cot_service
start_cot_service-Keeps m c = search (keeping, prepare_cot_service-Keeps) depth 25 fits 4000

pub start_tcp_data_package_service-Keeps :
    (m : Machine) (c : Startup) → Keeps (start_tcp_data_package_service m c)
unfolding start_tcp_data_package_service
start_tcp_data_package_service-Keeps m c =
    search (keeping, prepare_tcp_data_package_service-Keeps) depth 25 fits 4000

pub start_ssl_data_package_service-Keeps :
    (m : Machine) (c : Startup) → Keeps (start_ssl_data_package_service m c)
unfolding start_ssl_data_package_service
start_ssl_data_package_service-Keeps m c =
    search (keeping, prepare_ssl_data_package_service-Keeps) depth 25 fits 4000

pub start_ssl_cot_service-Keeps : (m : Machine) (c : Startup) → Keeps (start_ssl_cot_service m c)
unfolding start_ssl_cot_service
start_ssl_cot_service-Keeps m c = search (keeping, prepare_ssl_cot_service-Keeps) depth 25 fits 4000

pub start_federation_client_service-Keeps :
    (m : Machine) (c : Startup) → Keeps (start_federation_client_service m c)
unfolding start_federation_client_service
start_federation_client_service-Keeps m c =
    search (keeping, prepare_federation_client_service-Keeps) depth 25 fits 4000

pub start_federation_server_service-Keeps :
    (m : Machine) (c : Startup) → Keeps (start_federation_server_service m c)
unfolding start_federation_server_service
start_federation_server_service-Keeps m c =
    search (keeping, prepare_federation_server_service-Keeps) depth 25 fits 4000

pub stop_cot_service-Keeps : Keeps stop_cot_service
unfolding stop_cot_service
stop_cot_service-Keeps = search ending depth 25 fits 4000

pub stop_tcp_data_package_service-Keeps : Keeps stop_tcp_data_package_service
unfolding stop_tcp_data_package_service
stop_tcp_data_package_service-Keeps = search ending depth 25 fits 4000

pub stop_ssl_data_package_service-Keeps : Keeps stop_ssl_data_package_service
unfolding stop_ssl_data_package_service
stop_ssl_data_package_service-Keeps = search ending depth 25 fits 4000

pub stop_ssl_cot_service-Keeps : Keeps stop_ssl_cot_service
unfolding stop_ssl_cot_service
stop_ssl_cot_service-Keeps = search ending depth 25 fits 4000

pub stop_federation_client_service-Keeps : Keeps stop_federation_client_service
unfolding stop_federation_client_service
stop_federation_client_service-Keeps = search ending depth 25 fits 4000

pub stop_federation_server_service-Keeps : Keeps stop_federation_server_service
unfolding stop_federation_server_service
stop_federation_server_service-Keeps = search ending depth 25 fits 4000

pub start_service-Keeps :
    (v : ServiceName) (m : Machine) (c : Startup) → Keeps (start_service v m c)
start_service-Keeps rest_api = start_rest_api_service-Keeps
start_service-Keeps cot = start_cot_service-Keeps
start_service-Keeps tcp_data_package = start_tcp_data_package_service-Keeps
start_service-Keeps ssl_data_package = start_ssl_data_package_service-Keeps
start_service-Keeps ssl_cot = start_ssl_cot_service-Keeps
start_service-Keeps federation_client = start_federation_client_service-Keeps
start_service-Keeps federation_server = start_federation_server_service-Keeps

ruleset methods = (
  start_cot_service-Keeps, stop_cot_service-Keeps, start_tcp_data_package_service-Keeps,
  stop_tcp_data_package_service-Keeps, start_ssl_data_package_service-Keeps,
  stop_ssl_data_package_service-Keeps, start_ssl_cot_service-Keeps, stop_ssl_cot_service-Keeps,
  start_federation_client_service-Keeps, stop_federation_client_service-Keeps,
  start_federation_server_service-Keeps, stop_federation_server_service-Keeps,
)

arrange_tcp_data_package_service-Keeps :
    (m : Machine) (c : Startup) → Keeps (arrange_tcp_data_package_service m c)
unfolding arrange_tcp_data_package_service
arrange_tcp_data_package_service-Keeps m c = search (keeping, methods) depth 25 fits 4000

arrange_ssl_data_package_service-Keeps :
    (m : Machine) (c : Startup) → Keeps (arrange_ssl_data_package_service m c)
unfolding arrange_ssl_data_package_service
arrange_ssl_data_package_service-Keeps m c = search (keeping, methods) depth 25 fits 4000

arrange_cot_service-Keeps : (m : Machine) (c : Startup) → Keeps (arrange_cot_service m c)
unfolding arrange_cot_service
arrange_cot_service-Keeps m c = search (keeping, methods) depth 25 fits 4000

arrange_ssl_cot_service-Keeps : (m : Machine) (c : Startup) → Keeps (arrange_ssl_cot_service m c)
unfolding arrange_ssl_cot_service
arrange_ssl_cot_service-Keeps m c = search (keeping, methods) depth 25 fits 4000

arrange_federation_client_service-Keeps :
    (m : Machine) (c : Startup) → Keeps (arrange_federation_client_service m c)
unfolding arrange_federation_client_service
arrange_federation_client_service-Keeps m c = search (keeping, methods) depth 25 fits 4000

arrange_federation_server_service-Keeps :
    (m : Machine) (c : Startup) → Keeps (arrange_federation_server_service m c)
unfolding arrange_federation_server_service
arrange_federation_server_service-Keeps m c = search (keeping, methods) depth 25 fits 4000

pub start_all-Keeps : (m : Machine) (c : Startup) → Keeps (start_all m c)
unfolding start_all
start_all-Keeps m c =
    search
      (
        keeping, arrange_tcp_data_package_service-Keeps, arrange_ssl_data_package_service-Keeps,
        arrange_cot_service-Keeps, arrange_ssl_cot_service-Keeps,
        arrange_federation_client_service-Keeps, arrange_federation_server_service-Keeps,
      )
      depth 20
