-- ===== src/ServiceManager/Examples.antt =====
-- Runs and instances of the theorems on the services of FreeTAKServer/controllers/services/FTS.py.
use free_tak_server.Base.{ℕ, String, true, some, ◌≡◌, refl, returns, raised, key_error, arith}
use free_tak_server.Base.Dict.{contains, lookup, insert, erase}
use free_tak_server.ServiceManager.FilterGroup.{delete, tcpcotservice}
use free_tak_server.ServiceManager.State.{
  text, number, ServiceObject, Startup, Fts, Machine, failure, configure_service, delete_pipe,
  remove_source_of, terminate, join_process, close_pipe,
}
use free_tak_server.ServiceManager.Starting.{
  start_cot_service, prepare_cot_service, start_ssl_cot_service, start_tcp_data_package_service,
  prepare_tcp_data_package_service, start_ssl_data_package_service,
  prepare_ssl_data_package_service,
}
use free_tak_server.ServiceManager.Stopping.{
  stop_cot_service, stop_ssl_cot_service, stop_tcp_data_package_service,
  stop_ssl_data_package_service,
}
use free_tak_server.ServiceManager.StartAll.{arrange_cot_service}
use free_tak_server.ServiceManager.StartAll.Restarted.{Restarted, arrange_cot_service-Restarted}
use free_tak_server.ServiceManager.Services.{
  cot, ssl_cot, tcp_data_package, ssl_data_package, federation_client, federation_server,
}
use free_tak_server.ServiceManager.Starting.Registered.{Result, start_service-Registered}
use free_tak_server.ServiceManager.Stopping.RoundTrip.{RoundTrip, start_service-RoundTrip}
use free_tak_server.ServiceManager.Stopping.{
  stop_federation_client_service, stop_federation_server_service,
}
use free_tak_server.ServiceManager.Crossed.{Crossed, stop_cot_service-start_ssl_cot_service}
use free_tak_server.ServiceManager.Reached.{
  initial, Reach, here, next, perform, starting, stopping_cot, Reach-stop_ssl_cot_service,
}

abbrev willing : Machine
willing = record { creates = λ name. true; spawns = λ name. true }

abbrev asking : String → ServiceObject
asking status = record { ip = text "0.0.0.0"; port = number 8087; status = status }

abbrev quiet : ServiceObject
quiet = record { ip = text "0.0.0.0"; port = text ""; status = "" }

abbrev wishes : String → Startup
wishes status = record {
  cot_service = asking status;
  tcp_data_package_service = quiet;
  ssl_data_package_service = quiet;
  rest_api_service = quiet;
  ssl_cot_service = quiet;
  federation_client_service = quiet;
  federation_server_service = quiet;
  routing_proxy_subscriber_ip = text "127.0.0.1";
  routing_proxy_subscriber_port = number 19030;
  routing_proxy_subscriber_protocol = text "tcp";
  integration_manager_publisher_address = text "127.0.0.1";
  integration_manager_publisher_port = number 19032;
  integration_manager_publisher_protocol = text "tcp";
}

abbrev fresh_server : Fts
fresh_server = initial (wishes "")

start_service-Registered_example : Result cot willing (wishes "start") fresh_server
start_service-Registered_example =
    start_service-Registered cot willing (wishes "start") fresh_server

start_service-RoundTrip_example :
    RoundTrip cot stop_cot_service willing (wishes "") fresh_server tcpcotservice
    × RoundTrip tcp_data_package stop_tcp_data_package_service willing
        (wishes "")
        fresh_server
        tcpcotservice
    × RoundTrip ssl_data_package stop_ssl_data_package_service willing
        (wishes "")
        fresh_server
        tcpcotservice
    × RoundTrip federation_client stop_federation_client_service willing
        (wishes "")
        fresh_server
        tcpcotservice
    × RoundTrip federation_server stop_federation_server_service willing
        (wishes "")
        fresh_server
        tcpcotservice
start_service-RoundTrip_example =
    start_service-RoundTrip willing (wishes "") fresh_server tcpcotservice

unfoldable with_cot : Fts
unfolding start_cot_service prepare_cot_service configure_service insert
with_cot = (start_cot_service willing (wishes "start") fresh_server).1

arrange_cot_service-Restarted_example :
    Restarted 6 (arrange_cot_service willing (wishes "start") with_cot)
unfolding with_cot contains
arrange_cot_service-Restarted_example =
    arrange_cot_service-Restarted willing (wishes "start") with_cot 6 4
      (refl, refl, omega arith, refl, refl, refl, refl, refl)

stop_cot_service-start_ssl_cot_service_example :
    let t = (start_cot_service willing (wishes "") fresh_server).1 in
    let u = (start_ssl_cot_service willing (wishes "") t).1 in
    (i : ℕ) × (j : ℕ) × (t.cot_service ≡ some i)
    × (u.cot_service ≡ some j)
    × Crossed u i j (stop_cot_service u)
stop_cot_service-start_ssl_cot_service_example =
    stop_cot_service-start_ssl_cot_service willing (wishes "") fresh_server refl refl

abbrev reached :
    Reach willing
      (wishes "")
      (perform willing stopping_cot (perform willing (starting ssl_cot (wishes "")) fresh_server))
reached = next (next here (starting ssl_cot (wishes ""))) stopping_cot

Reach-stop_ssl_cot_service_example :
    stop_ssl_cot_service
      (perform willing stopping_cot (perform willing (starting ssl_cot (wishes "")) fresh_server))
    ≡ (
      returns failure,
      perform willing stopping_cot (perform willing (starting ssl_cot (wishes "")) fresh_server),
    )
Reach-stop_ssl_cot_service_example = Reach-stop_ssl_cot_service willing (wishes "") reached

-- The two services of data packages have one name in the filter group, so the second stop finds
-- no source.
abbrev with_packages : Fts
with_packages =
    (start_ssl_data_package_service willing (wishes "")
      (start_tcp_data_package_service willing (wishes "") fresh_server).1).1

second_stop_raises :
    (stop_ssl_data_package_service (stop_tcp_data_package_service with_packages).1).0
    ≡ raised key_error
unfolding start_ssl_data_package_service start_tcp_data_package_service
    prepare_tcp_data_package_service prepare_ssl_data_package_service configure_service
    stop_tcp_data_package_service stop_ssl_data_package_service delete_pipe remove_source_of
    terminate join_process close_pipe delete contains lookup insert erase
second_stop_raises = refl
