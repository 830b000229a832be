-- ===== src/CotService/ComponentData.antt =====
-- FreeTAKServer/services/tcp_cot_service/controllers/send_component_data_controller.py: the answers
-- of components, sent to all connections or to those that the answer names.
pub mod Delivery
use free_tak_server.Base.{
  ℕ, String, Option, none, some, List, [], ◌∷◌, Exn, os_error, ⊤, Outcome, returns, raised,
}
use free_tak_server.Base.Dict.{Dict, lookup}
use free_tak_server.CotService.Wire.{Net, Wire, Body, socket_send}

-- A `TCPCoTConnection`: the uid of its model object and its socket.
pub record Connection : Type 0 where
  pub uid : String
  pub sock : ℕ

-- `Dict[str, TCPCoTConnection]`, by object id.
abbrev pub Connections : Type 0
Connections = Dict Connection

pub data MessageType : Type 0 where
  send_to_all send_to_some : MessageType

-- No recipients, and an empty list of them, mean everyone.
unfoldable pub determine_message_type : Option (List String) → MessageType
determine_message_type none = send_to_all
determine_message_type (some []) = send_to_all
determine_message_type (some (r ∷ rs)) = send_to_some

-- `TimeoutError` and `BrokenPipeError` are kinds of `OSError`; all three are logged. Anything else
-- leaves the method.
abbrev pub logged : Option Exn × Wire → Outcome ⊤ × Wire
logged (none, w) = (returns tt, w)
logged (some os_error, w) = (returns tt, w)
logged (some x, w) = (raised x, w)

unfoldable pub send_message_to_all : Net → Connections → Body → Wire → Outcome ⊤ × Wire
unfolding socket_send
send_message_to_all net [] b w = (returns tt, w)
send_message_to_all net ((oid, c) ∷ rest) b w =
    let r = logged (socket_send net c.sock b w) in
    elim (r.0) [ returns done ↦ send_message_to_all net rest b r.1 | raised x ↦ (raised x, r.1) ]

-- `connections.get(oid)`, and a write if there is such a connection.
abbrev pub send_to_oid : Net → Connections → Body → String → Wire → Outcome ⊤ × Wire
send_to_oid net connections b oid w = elim (lookup oid connections) [
  | none ↦ (returns tt, w)
  | some c ↦ logged (socket_send net c.sock b w)
]

unfoldable pub send_message_to_some :
    Net → Connections → Body → List String → Wire → Outcome ⊤ × Wire
unfolding socket_send
send_message_to_some net connections b [] w = (returns tt, w)
send_message_to_some net connections b (oid ∷ oids) w =
    let r = send_to_oid net connections b oid w in
    elim (r.0) [
      | returns done ↦ send_message_to_some net connections b oids r.1
      | raised x ↦ (raised x, r.1)
    ]

-- The recipients of a list that is known not to be empty.
abbrev pub named : Option (List String) → List String
named none = []
named (some rs) = rs

unfoldable pub send_message :
    Net → Connections → Body → Option (List String) → Wire → Outcome ⊤ × Wire
unfolding determine_message_type
send_message net connections b recipients w = elim (determine_message_type recipients) [
  | send_to_all ↦ send_message_to_all net connections b w
  | send_to_some ↦ send_message_to_some net connections b (named recipients) w
]
