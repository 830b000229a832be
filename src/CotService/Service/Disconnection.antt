-- ===== src/CotService/Service/Disconnection.antt =====
-- client_disconnection_controller.py and `handle_disconnection`: what a disconnection leaves behind.
use free_tak_server.Base.{
  String, ◌≡◌, refl, ap, false, none, some, [], ◌∷◌, ◌++◌, arith, returns, raised, key_error,
}
use free_tak_server.Base.Dict.{lookup, erase}
use free_tak_server.CotService.SendData.{
  Entry, Clients, nobody, one, Hub, has_valid_marti, share_with_core,
}
use free_tak_server.CotService.SendData.Route.{send_data_in_queue}
use free_tak_server.CotService.SendData.Broadcast.{
  carried, recipients, writes, IsUp, send_to_all_reaches,
}
use free_tak_server.CotService.ActiveThreads.{remove_client_thread}
use free_tak_server.CotService.Service.{
  Service, Environment, disconnection, disconnect_cot, handle_disconnection,
}

-- A broadcast with no sender is for every client.
recipients_all :
    (env : Environment) (id : String) (clients : Clients)
    → recipients (disconnect_cot env id) nobody clients ≡ clients
unfolding disconnect_cot
recipients_all env id [] = refl
recipients_all env id (p ∷ ps) = ap (λ r. p ∷ r) (recipients_all env id ps)

module _ (env : Environment) (id : String) {c : String} where
  -- The hub after the disconnection CoT.
  disconnect_hub :
      (clients : Clients) (h : Hub)
      → IsUp env.net
      → carried (env.disconnect_xml id) ≡ some c
      → send_data_in_queue env.net clients (disconnect_cot env id) nobody false h
        ≡ (one, record h { wire = h.wire ++ writes c clients; to_core = 0 })
  unfolding send_data_in_queue has_valid_marti disconnect_cot share_with_core
  disconnect_hub clients h up says =
      let fresh = record h { to_core = 0 } in
      rw (
        send_to_all_reaches env.net (disconnect_cot env id) nobody refl says clients false fresh up,
        recipients_all env id clients,
      )

  -- A client that is connected, and whose departure is handled while no write fails: its entry goes,
  -- and the entries of all others stay; the threads of the client are removed; its socket is closed; the IAM component is asked to forget its
  -- connection; and each client that stays is told, once and in the order of the dictionary. The
  -- dictionary of connections keeps the connection of the client, and the core is told nothing else.
  pub handle_disconnection_tells :
      (e : Entry) (s : Service)
      → IsUp env.net
      → carried (env.disconnect_xml id) ≡ some c
      → lookup id s.clients ≡ some e
      → let rest = erase id s.clients in
        handle_disconnection env id s ≡ (
          returns tt,
          record s {
            clients = rest;
            threads = remove_client_thread id s.threads;
            closed = s.closed ++ e.sock ∷ [];
            requests = s.requests ++ disconnection (env.object_id id) ∷ [];
            hub = record s.hub { wire = s.hub.wire ++ writes c rest; to_core = 0 };
          },
        )
  unfolding handle_disconnection
  handle_disconnection_tells e s up says present =
      ground (arith, disconnect_hub (erase id s.clients) s.hub up says)

-- A disconnection of a client that is not connected raises `KeyError` and changes nothing.
pub handle_disconnection_unknown :
    (env : Environment) (id : String) (s : Service)
    → lookup id s.clients ≡ none
    → handle_disconnection env id s ≡ (raised key_error, s)
unfolding handle_disconnection
handle_disconnection_unknown env id s absent = rw (handle_disconnection, absent)
