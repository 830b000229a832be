-- ===== src/CotService/SendData/Route.antt =====
-- FreeTAKServer/services/tcp_cot_service/controllers/SendDataController.py: the private routes and
-- the choice between the routes.
use free_tak_server.Base.{
  ℕ, ◌+◌, String, Bool, true, false, not, ◌&&◌, ◌||◌, Option, none, some, List, [], ◌∷◌, ◌++◌, ◌==◌,
  if◌then◌else◌, opt_eq, Exn, attribute_error, Outcome, returns, raised, ◌>>=◌,
}
use free_tak_server.CotService.Wire.{Net, Wire, Body, encode, socket_send}
use free_tak_server.CotService.SendData.{
  Client, Entry, Clients, Model, Cot, Sender, itself, connection, Hub, Sent, one, client_failed,
  minus_one, nothing, exception, all_chat_rooms, attribute, second, is_private, has_valid_marti,
  share_with_core, send_to_all,
}

-- `sock.send(processedCoT.xmlString)`, with no second try.
unfoldable pub send_plain : Net → Cot → Entry → Wire → Option Exn × Wire
unfolding socket_send
send_plain net cot e w = elim cot.xml [
  | none ↦ (some attribute_error, w)
  | some b ↦ socket_send net e.sock b w
]

-- `return (-1, client[1])` inside a `try` that answers an exception by `return -1`.
abbrev pub blame_or_minus : Entry → Sent
blame_or_minus e = elim e.client [ none ↦ minus_one | some c ↦ client_failed c ]

-- The handlers of an exception write `processedCoT.xmlString` to the log: without it each of them
-- raises in turn, and the method answers `lost`.
abbrev pub after_logging : Sent → Cot → Sent → Sent
after_logging lost cot s = elim cot.xml [ none ↦ lost | some b ↦ s ]

abbrev pub report : Sent → Cot → Entry → Option Exn × Wire → Option Sent × Wire
report lost cot e (none, w) = (none, w)
report lost cot e (some x, w) = (some (after_logging lost cot (blame_or_minus e)), w)

-- The loop of `geochat_sending` over the clients, with what it returns early.
unfoldable pub whisper : Net → Cot → Option String → Clients → Wire → Option Sent × Wire
unfolding send_plain
whisper net cot uid1 [] w = (none, w)
whisper net cot uid1 ((id, e) ∷ rest) w =
    let r =
      if opt_eq (some id) uid1 then report nothing cot e (send_plain net cot e w) else (none, w) in
    elim (r.0) [ none ↦ whisper net cot uid1 rest r.1 | some s ↦ (some s, r.1) ]

-- The end of a private route: the result of an early return, or 1 once the core has the message.
abbrev pub finish : Bool → Cot → Hub → Option Sent × Wire → Sent × Hub
finish share cot h (none, w) = (one, share_with_core share cot (record h { wire = w }))
finish share cot h (some s, w) = (s, record h { wire = w })

-- An exception out of `send_to_all` becomes the caller's answer.
abbrev pub caught : Sent → Outcome Sent × Hub → Sent × Hub
caught s (returns r, h) = (r, h)
caught s (raised x, h) = (s, h)

-- `processedCoT.modelObject.detail._chat.chatgrp.uid1`
abbrev pub chat_uid1 : Cot → Outcome (Option String)
chat_uid1 cot = attribute cot.model >>= λ m. attribute m.chat_uid1

unfoldable pub geochat_sending : Net → Clients → Cot → Sender → Bool → Hub → Sent × Hub
geochat_sending net clients cot sender share h = elim (chat_uid1 cot) [
  | raised x ↦ (nothing, h)
  | returns uid1 ↦
      if opt_eq uid1 all_chat_rooms
      then caught nothing (send_to_all net clients cot sender share h)
      else finish share cot h (whisper net cot uid1 clients h.wire)
]

-- `client[1].m_presence.modelObject.detail.contact.callsign`
abbrev pub callsign_of : Entry → Outcome (Option String)
callsign_of e = second e >>= λ c. attribute c.presence >>= λ p. returns p.callsign

-- One client under one destination in `send_to_specific_client`.
unfoldable pub address : Net → Cot → Option String → Entry → Wire → Option Sent × Wire
unfolding send_plain
address net cot dest e w = elim (callsign_of e) [
  | raised x ↦ (some minus_one, w)
  | returns callsign ↦
      if opt_eq callsign dest then report minus_one cot e (send_plain net cot e w) else (none, w)
]

-- The loop over the clients, and around it the loop over the destinations.
unfoldable pub address_clients : Net → Cot → Option String → Clients → Wire → Option Sent × Wire
address_clients net cot dest [] w = (none, w)
address_clients net cot dest ((id, e) ∷ rest) w =
    let r = address net cot dest e w in
    elim (r.0) [ none ↦ address_clients net cot dest rest r.1 | some s ↦ (some s, r.1) ]

unfoldable pub address_all : Net → Cot → List (Option String) → Clients → Wire → Option Sent × Wire
address_all net cot [] clients w = (none, w)
address_all net cot (dest ∷ dests) clients w =
    let r = address_clients net cot dest clients w in
    elim (r.0) [ none ↦ address_all net cot dests clients r.1 | some s ↦ (some s, r.1) ]

-- `dests == [None] or dests == [None, None]`
abbrev pub is_unaddressed : List (Option String) → Bool
is_unaddressed (none ∷ []) = true
is_unaddressed (none ∷ none ∷ []) = true
is_unaddressed _ = false

-- `[dest.callsign for dest in processedCoT.modelObject.detail.marti.dest]`, with the model.
abbrev pub destinations : Cot → Outcome (Model × List (Option String))
destinations cot = attribute cot.model >>= λ m. attribute m.marti >>= λ ds. returns (m, ds)

unfoldable pub send_to_specific_client : Net → Clients → Cot → Sender → Bool → Hub → Sent × Hub
send_to_specific_client net clients cot sender share h = elim (destinations cot) [
  | raised x ↦ (minus_one, h)
  | returns (m, dests) ↦ elim (has_valid_marti cot) [
    | raised x ↦ (minus_one, h)
    | returns valid ↦
        if (not valid && not (is_private m.chat_uid1)) || is_unaddressed dests
        then caught minus_one (send_to_all net clients cot sender share h)
        else finish share cot h (address_all net cot dests clients h.wire)
  ]
]

-- The wire after a call, also after one that raised.
abbrev pub written : Option Exn × Wire → Wire
written r = r.1

-- `sock.send(x.encode())` for an attribute `x`, inside a `try` that logs what is raised.
abbrev pub send_attribute : Net → ℕ → Option Body → Wire → Option Exn × Wire
send_attribute net s x w = elim (attribute x >>= λ b. encode b) [
  | raised e ↦ (some e, w)
  | returns b ↦ socket_send net s b w
]

-- The presence of an existing client, sent to the new one.
abbrev pub introduce : Net → Cot → Client → Wire → Option Exn × Wire
introduce net cot c w = elim (attribute cot.socket) [
  | raised e ↦ (some e, w)
  | returns s ↦ elim c.presence [
    | none ↦ (some attribute_error, w)
    | some p ↦ send_attribute net s (some p.xml) w
  ]
]

-- One round of the exchange between a new client and an existing one; exceptions are logged.
unfoldable pub exchange : Net → Cot → String → Entry → Wire → Wire
unfolding socket_send encode
exchange net cot id e w = elim cot.model [
  | none ↦ w
  | some m ↦ if id == m.uid then w else elim e.client [
    | none ↦ w
    | some c ↦
        let r = send_attribute net e.sock cot.id_data w in
        elim (r.0) [ none ↦ written (introduce net cot c r.1) | some x ↦ r.1 ]
  ]
]

unfoldable pub exchange_all : Net → Cot → Clients → Wire → Wire
exchange_all net cot [] w = w
exchange_all net cot ((id, e) ∷ rest) w = exchange_all net cot rest (exchange net cot id e w)

-- The copy with encoded `idData` that goes to the core; the copy has no socket.
unfoldable pub share_connection : Bool → Cot → Hub → Sent × Hub
unfolding encode
share_connection share cot h = elim (attribute cot.id_data >>= λ b. encode b) [
  | raised x ↦ (exception x, h)
  | returns b ↦
      let counted = record h { to_core = h.to_core + 1 } in
      if share
      then (
        one,
        record counted {
          pipe = h.pipe ++ (connection (record cot { id_data = some b; socket = none })) ∷ [];
        },
      )
      else (exception attribute_error, counted)
]

-- `sender == processedCoT`
abbrev pub is_itself : Sender → Bool
is_itself itself = true
is_itself _ = false

-- What `sendDataInQueue` returns for an exception that leaves a route.
abbrev pub surfaced : Outcome Sent × Hub → Sent × Hub
surfaced (returns r, h) = (r, h)
surfaced (raised x, h) = (exception x, h)

-- Every call is made on a fresh controller, whose counter starts at 0.
unfoldable pub send_data_in_queue : Net → Clients → Cot → Sender → Bool → Hub → Sent × Hub
send_data_in_queue net clients cot sender share old =
    let h = record old { to_core = 0 } in
    if cot.kind == "GeoChat"
    then geochat_sending net clients cot sender share h
    else if is_itself sender
    then share_connection share cot (record h { wire = exchange_all net cot clients h.wire })
    else elim (has_valid_marti cot) [
      | raised x ↦ (exception x, h)
      | returns true ↦ send_to_specific_client net clients cot sender share h
      | returns false ↦ surfaced (send_to_all net clients cot sender share h)
    ]
