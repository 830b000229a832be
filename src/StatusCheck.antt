-- ===== src/StatusCheck.antt =====
-- FreeTAKServer/core/health/ServerStatusController.py, TCPCoTStatusCheck: whether the TCP CoT service
-- answers, asked over its own port.
mod Examples
pub mod Answered
use free_tak_server.Base.{
  ℕ, Bool, false, String, ◌==◌, if◌then◌else◌, Option, none, some, List, [], ◌∷◌,
}
use free_tak_server.CotService.ReceiveConnections.{Peer, listen_accepted}

-- What is made of the answer; none where connecting, sending or receiving raises.
abbrev pub verdict : Option String → String
verdict none = "off"
verdict (some reply) = if reply == "success" then "on" else "off"

-- `TCPCoTStatusCheck`: `answer` is what `recv` gives after a text was sent to the service.
unfoldable pub tcp_cot_status_check : (String → Option String) → String
tcp_cot_status_check answer = verdict (answer "TEST")

-- The first text that was sent to a peer; to one that was closed before, `recv` gives no bytes.
abbrev pub first_sent : List String → Option String
first_sent [] = some ""
first_sent (x ∷ xs) = some x

-- What the service's `listen` answers to a text that the network brings in these reads.
unfoldable pub answer_of :
    (String → Option (List String))
    → Bool
    → ℕ
    → String
    → (String → List (Option String))
    → String
    → Option String
unfolding listen_accepted
answer_of parse sends clock address network sent =
    first_sent
      (listen_accepted parse sends clock address
        (record { reads = network sent; sent = []; closed = false })).1.sent
