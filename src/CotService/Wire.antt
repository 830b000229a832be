-- ===== src/CotService/Wire.antt =====
-- Sockets, the bytes written to them, and the values that are written
-- (FreeTAKServer/services/tcp_cot_service). A socket is a number. What the operating system does
-- with a write is a parameter `net`, which may depend on all that was written before.
use free_tak_server.Base.{
  ℕ, String, Bool, Option, none, some, List, [], ◌∷◌, ◌++◌, Exn, type_error, attribute_error,
  os_error, Outcome, returns, raised, if◌then◌else◌,
}

-- A Python value handed to `sock.send`: bytes, a `str`, or `None`. A text and the bytes that
-- `.encode()` makes of it carry the same `String`.
pub data Body : Type 0 where
  bytes : String → Body
  text : String → Body
  missing : Body

pub record Delivery : Type 0 where
  pub sock : ℕ
  pub content : String

-- What was written so far, the oldest first.
abbrev pub Wire : Type 0
Wire = List Delivery

-- Whether a write of bytes to a socket succeeds; a write that fails raises an `OSError`.
abbrev pub Net : Type 0
Net = Wire → ℕ → Bool

-- `x.encode()`
unfoldable pub encode : Body → Outcome Body
encode (bytes s) = raised attribute_error
encode (text s) = returns (bytes s)
encode missing = raised attribute_error

-- `sock.send(x)`, with what it raises.
unfoldable pub socket_send : Net → ℕ → Body → Wire → Option Exn × Wire
socket_send net s (bytes c) w =
    if net w s then (none, w ++ (record { sock = s; content = c }) ∷ []) else (some os_error, w)
socket_send net s (text c) w = (some type_error, w)
socket_send net s missing w = (some type_error, w)
