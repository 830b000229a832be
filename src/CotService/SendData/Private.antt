-- ===== src/CotService/SendData/Private.antt =====
-- The private routes of SendDataController.py: who receives a chat to one user, and a message with
-- destinations.
use free_tak_server.Base.{
  String, ◌≡◌, refl, ap, ◌∙◌, Bool, true, false, Option, none, some, List, [], ◌∷◌, ◌++◌,
  append_assoc, append-nil, map-append, arith, opt_eq, ◌==◌, select, All, Exn, returns, raised,
}
use free_tak_server.CotService.Wire.{Net, Wire, bytes}
use free_tak_server.CotService.SendData.{
  Entry, Clients, Cot, Model, Sender, Hub, Sent, one, minus_one, all_chat_rooms, valid_dests,
  has_valid_marti, share_with_core,
}
use free_tak_server.CotService.SendData.Route.{
  blame_or_minus, send_plain, whisper, chat_uid1, geochat_sending, callsign_of, address,
  address_clients, address_all, is_unaddressed, is_itself, send_to_specific_client,
  send_data_in_queue,
}
use free_tak_server.CotService.SendData.Broadcast.{
  to_entry, writes, to_socket, deliver, deliver_up, IsUp,
}

-- What a private route answers when a write is refused.
abbrev pub verdict : Option Entry × Wire → Option Sent × Wire
verdict (none, w) = (none, w)
verdict (some e, w) = (some (blame_or_minus e), w)

-- The entries whose key is the uid.
abbrev pub keyed : Option String → Clients → Clients
keyed uid = select (λ p. opt_eq (some p.0) uid)

-- `None` where the entry has no presence to read.
abbrev pub callsign : Entry → Option String
callsign e = elim (callsign_of e) [ returns c ↦ c | raised x ↦ none ]

-- Every entry has a `User`, with its presence.
abbrev pub IsKnown : String × Entry → Type 0
IsKnown p = callsign_of p.1 ≡ returns (callsign p.1)

abbrev pub called : Option String → Clients → Clients
called dest = select (λ p. opt_eq (callsign p.1) dest)

-- The entries that the destinations name, destination by destination.
abbrev pub addressed : List (Option String) → Clients → Clients
addressed [] clients = []
addressed (dest ∷ dests) clients = called dest clients ++ addressed dests clients

-- The hub after a completed private route.
abbrev pub completed : Cot → String → Clients → Bool → Hub → Sent × Hub
completed cot c ps share h =
    (one, share_with_core share cot (record h { wire = h.wire ++ writes c ps; to_core = 0 }))

-- What makes a message one with destinations, `dests`.
abbrev pub IsDirected : Cot → Sender → Model → List (Option String) → Type 0
IsDirected cot sender m dests =
    ((cot.kind == "GeoChat") ≡ false)
    × (is_itself sender ≡ false)
    × (cot.model ≡ some m)
    × (m.marti ≡ some dests)
    × (valid_dests dests ≡ returns true)
    × (is_unaddressed dests ≡ false)

module _ (net : Net) (cot : Cot) {c : String} (has : cot.xml ≡ some (bytes c)) where
  send_plain_lem : (e : Entry) (w : Wire) → send_plain net cot e w ≡ to_socket net e.sock c w
  unfolding send_plain
  send_plain_lem e w = ground arith

  -- The loop over all clients is a delivery to those with the uid.
  whisper-eq-deliver :
      (uid : Option String) (clients : Clients) (w : Wire)
      → whisper net cot uid clients w ≡ verdict (deliver net c (keyed uid clients) w)
  unfolding whisper
  whisper-eq-deliver uid [] w = refl
  whisper-eq-deliver uid ((id, e) ∷ rest) w = ground (
    arith,
    send_plain_lem e w,
    whisper-eq-deliver uid rest w,
    whisper-eq-deliver uid rest (w ++ (record { sock = e.sock; content = c }) ∷ []),
  )

  address_clients-eq-deliver :
      (dest : Option String) (clients : Clients) (w : Wire)
      → All IsKnown clients
      → address_clients net cot dest clients w ≡ verdict (deliver net c (called dest clients) w)
  unfolding address_clients address
  address_clients-eq-deliver dest [] w known = refl
  address_clients-eq-deliver dest ((id, e) ∷ rest) w (k, known) = ground (
    arith,
    k,
    send_plain_lem e w,
    address_clients-eq-deliver dest rest w known,
    address_clients-eq-deliver dest rest (w ++ (record { sock = e.sock; content = c }) ∷ []) known,
  )

  whisper_up :
      (uid : Option String) (clients : Clients) (w : Wire)
      → IsUp net
      → whisper net cot uid clients w ≡ (none, w ++ writes c (keyed uid clients))
  whisper_up uid clients w up =
      whisper-eq-deliver uid clients w ∙ ap verdict (deliver_up net c (keyed uid clients) w up)

  address_clients_up :
      (dest : Option String) (clients : Clients) (w : Wire)
      → All IsKnown clients
      → IsUp net
      → address_clients net cot dest clients w ≡ (none, w ++ writes c (called dest clients))
  address_clients_up dest clients w known up =
      address_clients-eq-deliver dest clients w known
      ∙ ap verdict (deliver_up net c (called dest clients) w up)

  address_all_up :
      (dests : List (Option String)) (clients : Clients) (w : Wire)
      → All IsKnown clients
      → IsUp net
      → address_all net cot dests clients w ≡ (none, w ++ writes c (addressed dests clients))
  unfolding address_all
  address_all_up [] clients w known up = rw append-nil
  address_all_up (d ∷ ds) clients w known up =
      let here = called d clients in
      let there = addressed ds clients in
      ground (
        arith,
        address_clients_up d clients w known up,
        address_all_up ds clients (w ++ writes c here) known up,
        map-append (λ (p : String × Entry). to_entry c p) here there,
        append_assoc w (writes c here) (writes c there),
      )

  -- A chat whose `chatgrp.uid1` is not the room of all is written, when no write fails, to the
  -- client whose key is that uid and to no other; the call returns 1, and the core gets the chat if
  -- there is a pipe.
  pub geochat_to_one :
      (clients : Clients) (sender : Sender) (share : Bool) (h : Hub) (uid : Option String)
      → IsUp net
      → (cot.kind == "GeoChat") ≡ true
      → chat_uid1 cot ≡ returns uid
      → opt_eq uid all_chat_rooms ≡ false
      → send_data_in_queue net clients cot sender share h
        ≡ completed cot c (keyed uid clients) share h
  unfolding send_data_in_queue geochat_sending
  geochat_to_one clients sender share h uid up is_chat has_uid private =
      ground (arith, whisper_up uid clients h.wire up)

  -- A message with destinations is written, when no write fails and every client has a presence, to
  -- the clients whose callsign is a destination and to no other, destination by destination; the
  -- call returns 1, and the core gets the message if there is a pipe.
  pub marti_to_addressed :
      (clients : Clients) (sender : Sender) (share : Bool) (h : Hub) (m : Model)
      → (dests : List (Option String)) → IsUp net
      → All IsKnown clients
      → IsDirected cot sender m dests
      → send_data_in_queue net clients cot sender share h
        ≡ completed cot c (addressed dests clients) share h
  unfolding send_data_in_queue send_to_specific_client has_valid_marti
  marti_to_addressed clients sender share h m dests up known directed =
      ground (arith, address_all_up dests clients h.wire known up)

-- A message with destinations is not sent at all while the first entry of the dictionary has no
-- presence: the call returns -1, whoever the destinations are, and writes and shares nothing. A
-- client is such an entry from its connection until the core first lists it.
pub marti_blocked :
    (net : Net) (cot : Cot) (id : String) (e : Entry) (rest : Clients) (sender : Sender)
    (share : Bool) (h : Hub) (m : Model) (d : Option String) (ds : List (Option String)) {x : Exn}
    → callsign_of e ≡ raised x
    → IsDirected cot sender m (d ∷ ds)
    → send_data_in_queue net ((id, e) ∷ rest) cot sender share h
      ≡ (minus_one, record h { to_core = 0 })
unfolding send_data_in_queue send_to_specific_client has_valid_marti address_all address_clients
    address
marti_blocked net cot id e rest sender share h m d ds unknown directed = ground arith
