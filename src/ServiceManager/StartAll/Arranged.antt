-- ===== src/ServiceManager/StartAll/Arranged.antt =====
-- What `start_all` does with an object that asks for nothing.
use free_tak_server.Base.{true, false, ◌==◌, ◌≡◌, refl, returns, eq_refl, nat_eq_refl}
use free_tak_server.ServiceManager.State.{
  Parameter, absent, text, number, setting_eq, Startup, Fts, Machine, success,
}
use free_tak_server.ServiceManager.StartAll.{
  start_all, arrange_tcp_data_package_service, arrange_ssl_data_package_service,
  arrange_cot_service, arrange_ssl_cot_service, arrange_federation_client_service,
  arrange_federation_server_service,
}

-- The object names no status, no port of the SSL data packages, and the addresses that the server
-- keeps for the TCP data packages.
abbrev pub Unasking : Startup → Startup → Type 0
Unasking c mine =
    (c.tcp_data_package_service.status ≡ "")
    × (c.ssl_data_package_service.status ≡ "")
    × (c.cot_service.status ≡ "")
    × (c.ssl_cot_service.status ≡ "")
    × (c.federation_client_service.status ≡ "")
    × (c.federation_server_service.status ≡ "")
    × (c.tcp_data_package_service.ip ≡ mine.tcp_data_package_service.ip)
    × (c.tcp_data_package_service.port ≡ mine.tcp_data_package_service.port)
    × (c.ssl_data_package_service.ip ≡ mine.tcp_data_package_service.ip)
    × (c.ssl_data_package_service.port ≡ text "")

setting_eq_refl : (x : Parameter) → setting_eq x x ≡ true
setting_eq_refl absent = refl
setting_eq_refl (text s) = eq_refl s
setting_eq_refl (number n) = nat_eq_refl n

module _ (m : Machine) (c : Startup) (s : Fts) where
  tcp_data_package_service-idle :
      c.tcp_data_package_service.status ≡ ""
      → c.tcp_data_package_service.ip ≡ s.startup_object.tcp_data_package_service.ip
      → c.tcp_data_package_service.port ≡ s.startup_object.tcp_data_package_service.port
      → arrange_tcp_data_package_service m c s ≡ (returns tt, s)
  unfolding arrange_tcp_data_package_service
  tcp_data_package_service-idle a b d =
      let not_start : (c.tcp_data_package_service.status == "start") ≡ false = rw a refl in
      let not_stop : (c.tcp_data_package_service.status == "stop") ≡ false = rw a refl in
      let same_ip : setting_eq c.tcp_data_package_service.ip
            s.startup_object.tcp_data_package_service.ip
          ≡ true =
        rw b (setting_eq_refl s.startup_object.tcp_data_package_service.ip) in
      let same_port : setting_eq s.startup_object.tcp_data_package_service.port
            c.tcp_data_package_service.port
          ≡ true =
        rw d (setting_eq_refl s.startup_object.tcp_data_package_service.port) in
      rw (not_start, not_stop, same_ip, same_port) refl

  ssl_data_package_service-idle :
      c.ssl_data_package_service.status ≡ ""
      → c.ssl_data_package_service.ip ≡ s.startup_object.tcp_data_package_service.ip
      → c.ssl_data_package_service.port ≡ text ""
      → arrange_ssl_data_package_service m c s ≡ (returns tt, s)
  unfolding arrange_ssl_data_package_service
  ssl_data_package_service-idle a b d =
      let not_start : (c.ssl_data_package_service.status == "start") ≡ false = rw a refl in
      let not_stop : (c.ssl_data_package_service.status == "stop") ≡ false = rw a refl in
      let same_ip : setting_eq c.ssl_data_package_service.ip
            s.startup_object.tcp_data_package_service.ip
          ≡ true =
        rw b (setting_eq_refl s.startup_object.tcp_data_package_service.ip) in
      let no_port : setting_eq c.ssl_data_package_service.port (text "") ≡ true = rw d refl in
      rw (not_start, not_stop, no_port, same_ip) refl

  cot_service-idle : c.cot_service.status ≡ "" → arrange_cot_service m c s ≡ (returns tt, s)
  unfolding arrange_cot_service
  cot_service-idle a =
      let not_start : (c.cot_service.status == "start") ≡ false = rw a refl in
      let not_stop : (c.cot_service.status == "stop") ≡ false = rw a refl in
      rw (not_start, not_stop) refl

  ssl_cot_service-idle :
      c.ssl_cot_service.status ≡ "" → arrange_ssl_cot_service m c s ≡ (returns tt, s)
  unfolding arrange_ssl_cot_service
  ssl_cot_service-idle a =
      let not_start : (c.ssl_cot_service.status == "start") ≡ false = rw a refl in
      let not_stop : (c.ssl_cot_service.status == "stop") ≡ false = rw a refl in
      rw (not_start, not_stop) refl

  federation_client_service-idle :
      c.federation_client_service.status ≡ ""
      → arrange_federation_client_service m c s ≡ (returns tt, s)
  unfolding arrange_federation_client_service
  federation_client_service-idle a =
      let not_start : (c.federation_client_service.status == "start") ≡ false = rw a refl in
      let not_stop : (c.federation_client_service.status == "stop") ≡ false = rw a refl in
      rw (not_start, not_stop) refl

  federation_server_service-idle :
      c.federation_server_service.status ≡ ""
      → arrange_federation_server_service m c s ≡ (returns tt, s)
  unfolding arrange_federation_server_service
  federation_server_service-idle a =
      let not_start : (c.federation_server_service.status == "start") ≡ false = rw a refl in
      let not_stop : (c.federation_server_service.status == "stop") ≡ false = rw a refl in
      rw (not_start, not_stop) refl

  -- start_all returns 1 and changes nothing if the object has the empty status for all six
  -- services, for the TCP data packages the address and port that the server keeps, and for the
  -- SSL data packages no port and that same address.
  start_all-Unasking : Unasking c s.startup_object → start_all m c s ≡ (returns success, s)
  unfolding start_all
  start_all-Unasking (a, b, d, e, f, g, h, i, j, k) =
      rw
        (
          tcp_data_package_service-idle a h i,
          ssl_data_package_service-idle b j k,
          cot_service-idle d,
          ssl_cot_service-idle e,
          federation_client_service-idle f,
          federation_server_service-idle g,
        )
        refl
