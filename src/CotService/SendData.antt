-- ===== src/CotService/SendData.antt =====
-- FreeTAKServer/services/tcp_cot_service/controllers/SendDataController.py: who receives a CoT.
-- Every method is a function of the network, the dictionary of clients and the message; what it
-- writes to sockets and to the pipe of the core is the state `Hub`.
pub mod Route
pub mod Broadcast
pub mod Private
pub mod Sharing
use free_tak_server.Base.{
  ℕ, ◌+◌, String, Bool, true, false, not, ◌&&◌, Option, none, some, List, [], ◌∷◌, ◌++◌, ◌==◌,
  if◌then◌else◌, ltb, opt_eq, length, Exn, type_error, attribute_error, index_error, Outcome,
  returns, raised, ◌>>=◌,
}
use free_tak_server.Base.Dict.{Dict}
use free_tak_server.CotService.Wire.{Net, Wire, Body, encode, socket_send}

-- `m_presence` of a `User`: the callsign of its contact and its xml.
pub record Presence : Type 0 where
  pub callsign : Option String
  pub xml : Body

-- The second item of a client's entry: a `User`, or a `ClientInformation`, which has no
-- `m_presence`.
pub record Client : Type 0 where
  pub uid : String
  pub presence : Option Presence

-- A value of `client_information_queue`: `[socket]` or `[socket, client]`.
pub record Entry : Type 0 where
  pub sock : ℕ
  pub client : Option Client

abbrev pub Clients : Type 0
Clients = Dict Entry

-- `modelObject`: its uid, the callsigns of `detail.marti.dest`, and `detail._chat.chatgrp.uid1`,
-- each absent where the object has no such attribute.
pub record Model : Type 0 where
  pub uid : String
  pub marti : Option (List (Option String))
  pub chat_uid1 : Option (Option String)

-- A processed CoT: a `SpecificCoT`, a `RawCoT` or a `ClientInformation`.
pub record Cot : Type 0 where
  pub kind : String
  pub model : Option Model
  pub xml : Option Body
  pub id_data : Option Body
  pub socket : Option ℕ
  pub client_information : Option String

-- The argument `sender`: `None`, an object with a `user_id`, the message itself, or any other.
pub data Sender : Type 0 where
  nobody : Sender
  user : String → Sender
  itself : Sender
  stranger : Sender

-- What is put on the pipe: a message, or a new connection, which is a list of one object.
pub data Shared : Type 0 where
  message : Cot → Shared
  connection : Cot → Shared

pub record Hub : Type 0 where
  pub wire : Wire
  pub pipe : List Shared
  pub to_core : ℕ

-- 1, `(-1, client)`, -1, `None` and `Exception(e)`.
pub data Sent : Type 0 where
  one : Sent
  client_failed : Client → Sent
  minus_one : Sent
  nothing : Sent
  exception : Exn → Sent

abbrev pub all_chat_rooms : Option String
all_chat_rooms = some "All Chat Rooms"

-- `not hasattr(x, name)` raises `AttributeError`.
abbrev pub attribute {ℓ} : {A : Type ℓ} → Option A → Outcome A
attribute none = raised attribute_error
attribute (some a) = returns a

-- `client[1]`
abbrev pub second : Entry → Outcome Client
second e = elim e.client [ none ↦ raised index_error | some c ↦ returns c ]

-- `return (-1, client[1])`, where the subscript itself may raise.
abbrev pub blame : Entry → Outcome Sent
blame e = second e >>= λ c. returns (client_failed c)

-- `message.modelObject.detail.marti.dest[0].callsign`
abbrev pub first_dest : List (Option String) → Outcome (Option String)
first_dest [] = raised index_error
first_dest (d ∷ ds) = returns d

abbrev pub is_named : Option String → Bool
is_named none = false
is_named (some c) = not (c == "")

-- The branch of `has_valid_marti` for an object that has a `marti`.
abbrev pub valid_dests : List (Option String) → Outcome Bool
valid_dests ds =
    if ltb 1 (length ds) then returns true else (first_dest ds >>= λ d. returns (is_named d))

-- `hasattr(detail, "_chat") and detail._chat.chatgrp.uid1 != "All Chat Rooms"`
abbrev pub is_private : Option (Option String) → Bool
is_private none = false
is_private (some uid1) = not (opt_eq uid1 all_chat_rooms)

abbrev pub marti_or_chat : Model → Outcome Bool
marti_or_chat m = elim m.marti [
  | none ↦ returns (is_private m.chat_uid1)
  | some ds ↦ valid_dests ds
]

-- Without a `modelObject` the method returns `None`, which is no truth.
unfoldable pub has_valid_marti : Cot → Outcome Bool
has_valid_marti cot = elim cot.model [ none ↦ returns false | some m ↦ marti_or_chat m ]

abbrev pub is_user : Sender → String → Bool
is_user (user u) id = id == u
is_user _ id = false

-- The client that `send_to_all` passes over: the sender, unless the message is a pong.
abbrev pub skips : Cot → Sender → String → Bool
skips cot sender id = not (cot.kind == "TakPong") && is_user sender id

-- `except TypeError: sock.send(x.encode())`
abbrev pub retry : Net → ℕ → Body → Option Exn × Wire → Option Exn × Wire
retry net s b (some type_error, w) = elim (encode b) [
  | returns b' ↦ socket_send net s b' w
  | raised e ↦ (some e, w)
]
retry net s b (r, w) = (r, w)

unfoldable pub send_encoded : Net → ℕ → Body → Wire → Option Exn × Wire
unfolding socket_send encode
send_encoded net s b w = retry net s b (socket_send net s b w)

-- `xmlString`, or `idData` of an object that has none.
abbrev pub content : Cot → Outcome Body
content cot = elim cot.xml [ none ↦ attribute cot.id_data | some b ↦ returns b ]

-- One round of the loop of `send_to_all`: what the write raised, if anything.
unfoldable pub offer : Net → Cot → Sender → String → Entry → Wire → Option Exn × Wire
unfolding send_encoded
offer net cot sender id e w =
    if skips cot sender id
    then (none, w)
    else elim (content cot) [ returns b ↦ send_encoded net e.sock b w | raised x ↦ (some x, w) ]

-- The loop: `none` if it came to its end, or the entry at which it stopped.
unfoldable pub offer_all : Net → Cot → Sender → Clients → Wire → Option Entry × Wire
offer_all net cot sender [] w = (none, w)
offer_all net cot sender ((id, e) ∷ rest) w =
    let r = offer net cot sender id e w in
    elim (r.0) [ none ↦ offer_all net cot sender rest r.1 | some x ↦ (some e, r.1) ]

-- `if shareDataPipe != None: ...` with which a completed method ends.
unfoldable pub share_with_core : Bool → Cot → Hub → Hub
share_with_core share cot h =
    if share
    then record h {
      pipe = h.pipe ++ (message (record cot { client_information = none })) ∷ [];
      to_core = h.to_core + 1;
    }
    else h

-- The end of `send_to_all`, from how its loop ended.
abbrev pub conclude : Bool → Cot → Hub → Option Entry × Wire → Outcome Sent × Hub
conclude share cot h (none, w) = (returns one, share_with_core share cot (record h { wire = w }))
conclude share cot h (some e, w) = (blame e, record h { wire = w })

unfoldable pub send_to_all : Net → Clients → Cot → Sender → Bool → Hub → Outcome Sent × Hub
send_to_all net clients cot sender share h =
    conclude share cot h (offer_all net cot sender clients h.wire)
