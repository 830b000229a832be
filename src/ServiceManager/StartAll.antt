-- ===== src/ServiceManager/StartAll.antt =====
-- FreeTAKServer/controllers/services/FTS.py: `start_all`, which brings the services into the state
-- that an object of the REST interface asks for.
pub mod Arranged
pub mod Restarted
use free_tak_server.Base.{
  String, Bool, true, false, not, ◌&&◌, ◌||◌, ◌==◌, Option, ⊤, if◌then◌else◌,
}
use free_tak_server.Base.Actions.{
  Action, pure, ◌>>=◌, ◌>>◌, change, field, try◌except◌, when, ignore,
}
use free_tak_server.ServiceManager.State.{
  Parameter, text, setting_eq, ServiceObject, Startup, Fts, Machine, Run, Code, success, failure,
  is_alive_process,
}
use free_tak_server.ServiceManager.Starting.{
  start_cot_service, start_tcp_data_package_service, start_ssl_data_package_service,
  start_ssl_cot_service, start_federation_client_service, start_federation_server_service,
}
use free_tak_server.ServiceManager.Stopping.{
  stop_cot_service, stop_tcp_data_package_service, stop_ssl_data_package_service,
  stop_ssl_cot_service, stop_federation_client_service, stop_federation_server_service,
}

abbrev is_empty : Parameter → Bool
is_empty x = setting_eq x (text "")

-- `mine.X = theirs.X` for the status, the port and the address, the latter two if they are given.
abbrev pub take_status : ServiceObject → ServiceObject → ServiceObject
take_status theirs mine = record mine { status = theirs.status }

abbrev pub take_port : ServiceObject → ServiceObject → ServiceObject
take_port theirs mine = record mine {
  port = if is_empty theirs.port then mine.port else theirs.port;
}

abbrev pub take_ip : ServiceObject → ServiceObject → ServiceObject
take_ip theirs mine = record mine { ip = if is_empty theirs.ip then mine.ip else theirs.ip }

-- What `self.FTSServiceStartupConfigObject` keeps of one service.
abbrev Update : Type 0
Update = (ServiceObject → ServiceObject) → Run ⊤

abbrev update_cot_service : Update
update_cot_service f = change λ s. record s {
  startup_object = record (s.startup_object) { cot_service = f s.startup_object.cot_service };
}

abbrev update_tcp_data_package_service : Update
update_tcp_data_package_service f = change λ s. record s {
  startup_object = record (s.startup_object) {
    tcp_data_package_service = f s.startup_object.tcp_data_package_service;
  };
}

abbrev update_ssl_data_package_service : Update
update_ssl_data_package_service f = change λ s. record s {
  startup_object = record (s.startup_object) {
    ssl_data_package_service = f s.startup_object.ssl_data_package_service;
  };
}

abbrev update_ssl_cot_service : Update
update_ssl_cot_service f = change λ s. record s {
  startup_object = record (s.startup_object) {
    ssl_cot_service = f s.startup_object.ssl_cot_service;
  };
}

abbrev update_federation_client_service : Update
update_federation_client_service f = change λ s. record s {
  startup_object = record (s.startup_object) {
    federation_client_service = f s.startup_object.federation_client_service;
  };
}

abbrev update_federation_server_service : Update
update_federation_server_service f = change λ s. record s {
  startup_object = record (s.startup_object) {
    federation_server_service = f s.startup_object.federation_server_service;
  };
}

-- The branch of the status "start". `kept` is whether the attribute holds a process that runs.
abbrev restart : Update → ServiceObject → (Fts → Bool) → Run Code → Run Code → Run ⊤
restart update theirs kept stop start_service = do
  update (take_status theirs)
  alive ← field kept
  when alive (ignore stop)
  ignore start_service
  update (take_port theirs)
  update (take_ip theirs)

-- The branch of the status "stop".
abbrev shut : Update → ServiceObject → Run Code → Run ⊤
shut update theirs stop = do update (take_status theirs); ignore stop

-- The statements on a service that only starts and stops.
abbrev pub arrange : Update → ServiceObject → (Fts → Bool) → Run Code → Run Code → Run ⊤
arrange update theirs kept stop start_service =
    if theirs.status == "start"
    then restart update theirs kept stop start_service
    else if theirs.status == "stop"
    then shut update theirs stop
    else pure tt

-- The branch of neither status for the TCP data packages.
abbrev move_tcp_data_package_service : Machine → Startup → Run ⊤
move_tcp_data_package_service m c = do
  mine ← field (λ s. s.startup_object.tcp_data_package_service)
  when
      (not (setting_eq c.tcp_data_package_service.ip mine.ip)
        || not (setting_eq mine.port c.tcp_data_package_service.port))
      (if c.tcp_data_package_service.status == "start" || mine.status == "start"
        then (do
          update_tcp_data_package_service (λ o. record o { ip = c.tcp_data_package_service.ip })
          update_tcp_data_package_service (λ o. record o { port = c.tcp_data_package_service.port })
          ignore stop_tcp_data_package_service
          ignore (start_tcp_data_package_service m c))
        else update_tcp_data_package_service (λ o. record o { ip = c.tcp_data_package_service.ip }))

unfoldable pub arrange_tcp_data_package_service : Machine → Startup → Run ⊤
arrange_tcp_data_package_service m c =
    if c.tcp_data_package_service.status == "start"
    then restart update_tcp_data_package_service c.tcp_data_package_service
        (λ s. is_alive_process s.tcp_data_package_service s) stop_tcp_data_package_service
        (start_tcp_data_package_service m c)
    else if c.tcp_data_package_service.status == "stop"
    then shut update_tcp_data_package_service c.tcp_data_package_service
        stop_tcp_data_package_service
    else move_tcp_data_package_service m c

-- The branch of neither status for the SSL data packages: the address is compared with that of the
-- TCP service.
abbrev move_ssl_data_package_service : Machine → Startup → Run ⊤
move_ssl_data_package_service m c = do
  update_ssl_data_package_service (take_port c.ssl_data_package_service)
  other ← field (λ s. s.startup_object.tcp_data_package_service)
  mine ← field (λ s. s.startup_object.ssl_data_package_service)
  when (not (setting_eq c.ssl_data_package_service.ip other.ip)) (
      if not (c.ssl_data_package_service.status == "") || not (mine.status == "")
      then (do
        update_ssl_data_package_service (λ o. record o { ip = c.ssl_data_package_service.ip })
        ignore stop_ssl_data_package_service
        ignore (start_ssl_data_package_service m c))
      else update_ssl_data_package_service (λ o. record o { ip = c.ssl_data_package_service.ip }))

unfoldable pub arrange_ssl_data_package_service : Machine → Startup → Run ⊤
arrange_ssl_data_package_service m c =
    if c.ssl_data_package_service.status == "start"
    then restart update_ssl_data_package_service c.ssl_data_package_service
        (λ s. is_alive_process s.ssl_data_package_service s) stop_ssl_data_package_service
        (start_ssl_data_package_service m c)
    else if c.ssl_data_package_service.status == "stop"
    then shut update_ssl_data_package_service c.ssl_data_package_service
        stop_ssl_data_package_service
    else move_ssl_data_package_service m c

unfoldable pub arrange_cot_service : Machine → Startup → Run ⊤
arrange_cot_service m c =
    arrange update_cot_service c.cot_service (λ s. is_alive_process s.cot_service s)
      stop_cot_service (start_cot_service m c)

-- The attribute of the SSL service holds a `QueueManager`, so it is never a process.
unfoldable pub arrange_ssl_cot_service : Machine → Startup → Run ⊤
arrange_ssl_cot_service m c =
    arrange update_ssl_cot_service c.ssl_cot_service (λ s. false) stop_ssl_cot_service
      (start_ssl_cot_service m c)

unfoldable pub arrange_federation_client_service : Machine → Startup → Run ⊤
arrange_federation_client_service m c =
    arrange update_federation_client_service c.federation_client_service
      (λ s. is_alive_process s.federation_client_service s) stop_federation_client_service
      (start_federation_client_service m c)

-- A federation server whose kept status is "stop" is not stopped again.
unfoldable pub arrange_federation_server_service : Machine → Startup → Run ⊤
arrange_federation_server_service m c = do
  mine ← field (λ s. s.startup_object.federation_server_service)
  (if c.federation_server_service.status == "start"
      then restart update_federation_server_service c.federation_server_service
          (λ s. is_alive_process s.federation_server_service s) stop_federation_server_service
          (start_federation_server_service m c)
      else if (c.federation_server_service.status == "stop") && not (mine.status == "stop")
      then shut update_federation_server_service c.federation_server_service
          stop_federation_server_service
      else pure tt)

unfoldable pub start_all : Machine → Startup → Run Code
start_all m c =
    try (do
      arrange_tcp_data_package_service m c
      arrange_ssl_data_package_service m c
      arrange_cot_service m c
      arrange_ssl_cot_service m c
      arrange_federation_client_service m c
      arrange_federation_server_service m c
      pure success)
    except failure
