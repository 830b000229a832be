-- ===== src/CotService/MainLoop/Membership.antt =====
-- Which clients a batch of received data leaves connected.
use free_tak_server.Base.{
  String, ◌≡◌, refl, Bool, false, ◌&&◌, ◌||◌, none, List, [], ◌∷◌, ◌==◌, arith, if◌then◌else◌,
}
use free_tak_server.Base.Dict.{lookup}
use free_tak_server.CotService.Service.{Service, Environment}
use free_tak_server.CotService.Service.Handlers.{
  handle_disconnection_clients, component_handler-SameClients,
}
use free_tak_server.CotService.MainLoop.{RawCot, handle_item, handle_items, handle_regular_data}

-- Whether a batch holds an empty text of a client.
abbrev pub departs : String → List RawCot → Bool
departs j [] = false
departs j (d ∷ ds) = (d.xml == "" && d.client == j) || departs j ds

module _ (env : Environment) (j : String) where
  handle_item_clients :
      (d : RawCot) (s : Service)
      → lookup j (handle_item env d s).clients
        ≡ (if d.xml == "" && d.client == j then none else lookup j s.clients)
  unfolding handle_item
  handle_item_clients d s = ground (
    arith,
    (handle_disconnection_clients env d.client j s).0,
    (component_handler-SameClients env d.xml s).0,
  )

  handle_items_clients :
      (ds : List RawCot) (s : Service)
      → lookup j (handle_items env ds s).clients
        ≡ (if departs j ds then none else lookup j s.clients)
  unfolding handle_items
  handle_items_clients [] s = refl
  handle_items_clients (d ∷ ds) s =
      ground (arith, handle_items_clients ds (handle_item env d s), handle_item_clients d s)

-- After a batch of client data a client is connected, with the entry it had, exactly if it was
-- connected before and the batch holds no empty text of it. So the data of one client, and the
-- failures on the way, disconnect no other.
pub handle_regular_data_clients :
    (env : Environment) (j : String) (ds : List RawCot) (s : Service)
    → lookup j (handle_regular_data env ds s).clients
      ≡ (if departs j ds then none else lookup j s.clients)
unfolding handle_regular_data
handle_regular_data_clients env j ds s = handle_items_clients env j ds s
