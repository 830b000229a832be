-- ===== src/CotService/MainLoop/Invariant.antt =====
-- The main loop keeps the dictionary of clients and the dictionary of connections in step.
use mathlib.Core.Path.{subst₂}
use free_tak_server.CotService.Wire.{Body}
use free_tak_server.Base.{
  ℕ, zero, suc, String, refl, sym, ◌∙◌, inl, inr, Bool, true, false, Option, none, some, List, [],
  ◌∷◌, ◌==◌, arith, Bool-cases, Option-cases,
}
use free_tak_server.Base.Dict.{Dict, lookup}
use free_tak_server.CotService.SendData.{Client}
use free_tak_server.CotService.ComponentData.{send_message}
use free_tak_server.CotService.Service.{
  Service, RawConnection, Environment, handle_connection, handle_disconnection, component_handler,
}
use free_tak_server.CotService.Service.Handlers.{
  SameClients, new_entry, new_connection, handle_connection_clients, handle_connection_undecoded,
  component_handler-SameClients,
}
use free_tak_server.CotService.MainLoop.{
  RawCot, SharedData, ClientData, Response, Round, handle_item, handle_items, handle_regular_data,
  get_client_information, handle_shared_data, send_bodies, bodies, broadcast_component_responses,
  accept_round, data_round, shared_round, main_round, main_run_function, pending, received, invalid,
}
use free_tak_server.CotService.MainLoop.InStep.{
  InStep, IsInjective, InStep-insert, InStep-erase, InStep-refresh,
}

abbrev pub IsSound : Environment → Service → Type 0
IsSound env s = InStep env.object_id s.clients s.connections

-- The connections of a service may be listed under its clients after any operation on other fields.
SameClients-IsSound :
    (env : Environment) (s s' : Service) → SameClients s s' → IsSound env s → IsSound env s'
SameClients-IsSound env s s' (c, k) h = subst₂ (InStep env.object_id) (sym c) (sym k) h

module _ (env : Environment) (distinct : IsInjective env.object_id) where
  pub handle_connection-IsSound :
      (raw : Option RawConnection) (s : Service)
      → IsSound env s
      → IsSound env (handle_connection env raw s)
  unfolding handle_connection
  handle_connection-IsSound none s h = h
  handle_connection-IsSound (some raw) s h = elim (Option-cases raw.decoded) [
    | inl undecoded ↦ rw (handle_connection_undecoded env raw s undecoded) h
    | inr (m, decoded) ↦
        let (c, k) = handle_connection_clients env raw m s decoded in
        subst₂ (InStep env.object_id) (sym c) (sym k) (
          InStep-insert env.object_id distinct m.uid (new_entry raw m) (new_connection raw m)
            s.clients s.connections refl refl h)
  ]

  pub handle_disconnection-IsSound :
      (id : String) (s : Service) → IsSound env s → IsSound env (handle_disconnection env id s).1
  unfolding handle_disconnection
  handle_disconnection-IsSound id s h = elim (Option-cases (lookup id s.clients)) [
    | inl absent ↦ rw (handle_disconnection, absent) h
    | inr (e, present) ↦
        rw (handle_disconnection, present) (InStep-erase env.object_id id s.clients s.connections h)
  ]

  handle_item-IsSound :
      (d : RawCot) (s : Service) → IsSound env s → IsSound env (handle_item env d s)
  unfolding handle_item
  handle_item-IsSound d s h = elim (Bool-cases (d.xml == "")) [
    | inl gone ↦ rw (handle_item, gone) (handle_disconnection-IsSound d.client s h)
    | inr cot ↦
        rw (handle_item, cot)
          (SameClients-IsSound env s (component_handler env d.xml s).1
            (component_handler-SameClients env d.xml s) h)
  ]

  handle_items-IsSound :
      (ds : List RawCot) (s : Service) → IsSound env s → IsSound env (handle_items env ds s)
  unfolding handle_items
  handle_items-IsSound [] s h = h
  handle_items-IsSound (d ∷ ds) s h =
      handle_items-IsSound ds (handle_item env d s) (handle_item-IsSound d s h)

  get_client_information-IsSound :
      (users : Option (Dict Client)) (s : Service)
      → IsSound env s
      → IsSound env (get_client_information users s)
  unfolding get_client_information
  get_client_information-IsSound none s h = h
  get_client_information-IsSound (some users) s h =
      InStep-refresh env.object_id users s.clients s.connections h

  shared_round-IsSound :
      (n : ℕ) (users : Option (Dict Client)) (ds : List SharedData) (s : Service)
      → IsSound env s
      → IsSound env (shared_round env n users ds s)
  unfolding shared_round
  shared_round-IsSound zero users ds s h = h
  shared_round-IsSound (suc n) users [] s h = h
  shared_round-IsSound (suc n) users (d ∷ ds) s h =
      shared_round-IsSound n users ds (handle_shared_data env users d s)
        (get_client_information-IsSound users s h)

  send_bodies-SameClients :
      (rs : Option (List String)) (bs : List Body) (s : Service)
      → SameClients s (send_bodies env rs bs s)
  unfolding send_bodies
  send_bodies-SameClients rs [] s = (refl, refl)
  send_bodies-SameClients rs (b ∷ bs) s =
      let r = send_message env.net s.connections b rs s.hub.wire in
      ground (arith, send_bodies-SameClients rs bs (record s { hub = record s.hub { wire = r.1 } }))

  broadcast-SameClients :
      (rs : List Response) (s : Service) → SameClients s (broadcast_component_responses env rs s)
  unfolding broadcast_component_responses
  broadcast-SameClients [] s = (refl, refl)
  broadcast-SameClients (r ∷ rs) s =
      let s' = send_bodies env r.recipients (bodies r.message) s in
      let (c, k) = send_bodies-SameClients r.recipients (bodies r.message) s in
      let (c', k') = broadcast-SameClients rs s' in (c' ∙ c, k' ∙ k)

  accept_round-IsSound :
      (kill : Bool) (output : Option (Option RawConnection)) (s : Service)
      → IsSound env s
      → IsSound env (accept_round env kill output s)
  unfolding accept_round
  accept_round-IsSound true output s h = h
  accept_round-IsSound false none s h = h
  accept_round-IsSound false (some raw) s h = handle_connection-IsSound raw _ h

  data_round-IsSound :
      (d : ClientData) (users : Option (Dict Client)) (s : Service)
      → IsSound env s
      → IsSound env (data_round env d users s)
  unfolding data_round handle_regular_data
  data_round-IsSound pending users s h = h
  data_round-IsSound invalid users s h = h
  data_round-IsSound (received ds) users s h =
      get_client_information-IsSound users _ (handle_items-IsSound ds _ h)

  main_round-IsSound : (r : Round) (s : Service) → IsSound env s → IsSound env (main_round env r s)
  unfolding main_round
  main_round-IsSound r s h =
      let s₁ = accept_round env r.kill_switch r.accepted s in
      let s₂ = data_round env r.client_data r.users s₁ in
      let s₃ = shared_round env 100 r.users r.shared s₂ in
      SameClients-IsSound env s₃ (main_round env r s) (broadcast-SameClients r.responses s₃) (
        shared_round-IsSound 100 r.users r.shared s₂ (
          data_round-IsSound r.client_data r.users s₁
            (accept_round-IsSound r.kill_switch r.accepted s h)))

  -- Through any rounds of the main loop, with whatever connections, disconnections, data, shared
  -- messages, answers and network, where object ids of distinct uids are distinct: each dictionary has
  -- each key once, and every client that is connected has, under its object id, a connection with its
  -- uid and the very socket of its entry.
  pub main_run_function-IsSound :
      (rs : List Round) (s : Service) → IsSound env s → IsSound env (main_run_function env rs s)
  unfolding main_run_function
  main_run_function-IsSound [] s h = h
  main_run_function-IsSound (r ∷ rs) s h =
      main_run_function-IsSound rs (main_round env r s) (main_round-IsSound r s h)
