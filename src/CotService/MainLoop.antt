-- ===== src/CotService/MainLoop.antt =====
-- FreeTAKServer/services/tcp_cot_service/tcp_cot_service_main.py: the handlers of client data, of
-- data shared by other services and of component answers, and the main loop over them.
pub mod Membership
pub mod InStep
pub mod Invariant
use free_tak_server.Base.{
  ℕ, zero, suc, ◌+◌, String, Bool, true, false, Option, none, some, List, [], ◌∷◌, ◌==◌,
  if◌then◌else◌, length, returns, raised,
}
use free_tak_server.Base.Dict.{Dict, lookup}
use free_tak_server.CotService.Wire.{Body}
use free_tak_server.CotService.SendData.{Client, Clients, Cot, Sender}
use free_tak_server.CotService.ComponentData.{send_message}
use free_tak_server.CotService.Service.{
  Service, RawConnection, Environment, handle_connection, handle_disconnection, component_handler,
  send_to_clients,
}

-- A `RawCoT` of the reception handler: the uid of a client and its xml, empty for a client that is
-- to be disconnected.
pub record RawCot : Type 0 where
  pub client : String
  pub xml : String

-- What another service shares, with the sender that the message names.
pub record SharedData : Type 0 where
  pub cot : Cot
  pub sender : Sender

-- The value `message` of a component's answer.
pub data Message : Type 0 where
  single : Body → Message
  several : List Body → Message

pub record Response : Type 0 where
  pub message : Message
  pub recipients : Option (List String)

-- The body of the loop in `handle_regular_data`; what a handler raises is logged.
unfoldable pub handle_item : Environment → RawCot → Service → Service
handle_item env d s =
    if d.xml == ""
    then (handle_disconnection env d.client s).1
    else (component_handler env d.xml s).1

unfoldable pub handle_items : Environment → List RawCot → Service → Service
handle_items env [] s = s
handle_items env (d ∷ ds) s = handle_items env ds (handle_item env d s)

unfoldable pub handle_regular_data : Environment → List RawCot → Service → Service
unfolding handle_items
handle_regular_data env ds s = handle_items env ds s

-- The second item of each entry that the core knows is set to what the core says.
unfoldable pub refresh : Dict Client → Clients → Clients
refresh users [] = []
refresh users ((id, e) ∷ rest) =
    (id, elim (lookup id users) [ none ↦ e | some c ↦ record e { client = some c } ])
    ∷ refresh users rest

-- `none` if the pipe to the core is full or the core does not answer: that is logged.
unfoldable pub get_client_information : Option (Dict Client) → Service → Service
unfolding refresh
get_client_information none s = s
get_client_information (some users) s = record s { clients = refresh users s.clients }

unfoldable pub handle_shared_data :
    Environment → Option (Dict Client) → SharedData → Service → Service
unfolding get_client_information send_to_clients
handle_shared_data env users d s =
    let s' = get_client_information users s in
    let counted = record s' {
      messages_from_core_count = s.messages_from_core_count + 1;
      sent_message_count = s.sent_message_count + 1;
    } in
    (send_to_clients env d.cot d.sender true counted).1

-- The messages of one answer in order; what is raised ends the answer, and is logged.
unfoldable pub send_bodies : Environment → Option (List String) → List Body → Service → Service
send_bodies env recipients [] s = s
send_bodies env recipients (b ∷ bs) s =
    let r = send_message env.net s.connections b recipients s.hub.wire in
    let s' = record s { hub = record s.hub { wire = r.1 } } in
    elim (r.0) [ returns done ↦ send_bodies env recipients bs s' | raised x ↦ s' ]

abbrev pub bodies : Message → List Body
bodies (single b) = b ∷ []
bodies (several bs) = bs

unfoldable pub broadcast_component_responses : Environment → List Response → Service → Service
unfolding send_bodies
broadcast_component_responses env [] s = s
broadcast_component_responses env (r ∷ rs) s =
    broadcast_component_responses env rs (send_bodies env r.recipients (bodies r.message) s)

-- What the reception handler has returned when it is asked: nothing yet, a list, or what is no list.
pub data ClientData : Type 0 where
  pending : ClientData
  received : List RawCot → ClientData
  invalid : ClientData

-- What one round of the main loop finds. `accepted` is absent at a timeout, and a failed accept is
-- `some none`. `shared` is what stands in the pipe, `users` what the core answers.
pub record Round : Type 0 where
  pub kill_switch : Bool
  pub accepted : Option (Option RawConnection)
  pub client_data : ClientData
  pub shared : List SharedData
  pub responses : List Response
  pub users : Option (Dict Client)

module _ (env : Environment) where
  -- A round in which the kill switch is set only listens again.
  unfoldable pub accept_round : Bool → Option (Option RawConnection) → Service → Service
  accept_round true output s = s
  accept_round false none s = s
  accept_round false (some raw) s =
      handle_connection env raw (record s { connection_received = s.connection_received + 1 })

  unfoldable pub data_round : ClientData → Option (Dict Client) → Service → Service
  unfolding handle_regular_data get_client_information
  data_round pending users s = s
  data_round invalid users s = s
  data_round (received ds) users s = get_client_information users (
      handle_regular_data env ds
        (record s { received_message_count = s.received_message_count + length ds }))

  -- `for x in range(n)`, until the pipe is empty.
  unfoldable pub shared_round : ℕ → Option (Dict Client) → List SharedData → Service → Service
  unfolding handle_shared_data
  shared_round zero users ds s = s
  shared_round (suc n) users [] s = s
  shared_round (suc n) users (d ∷ ds) s = shared_round n users ds (handle_shared_data env users d s)

  -- The body of `mainRunFunction`: 100 shared messages at most.
  unfoldable pub main_round : Round → Service → Service
  unfolding accept_round data_round shared_round broadcast_component_responses
  main_round r s = broadcast_component_responses env r.responses (
      shared_round 100 r.users r.shared
        (data_round r.client_data r.users (accept_round r.kill_switch r.accepted s)))

  -- `while event.is_set()`: the rounds until the event is cleared.
  unfoldable pub main_run_function : List Round → Service → Service
  unfolding main_round
  main_run_function [] s = s
  main_run_function (r ∷ rs) s = main_run_function rs (main_round r s)
