-- ===== src/CotService/Examples/Accepting.antt =====
-- Accepting a client at concrete inputs.
use free_tak_server.Base.{refl, String, true, false, Option, some, List, [], ◌∷◌}
use free_tak_server.CotService.ReceiveConnections.{
  Peer, receive_connection_data, recv_until_delimiter, attempt, listen_accepted,
}
use free_tak_server.CotService.ReceiveConnections.Listening.{
  IsSettled, Taken, listen-IsSettled, recv_until_delimiter-Taken,
}

abbrev reads : List (Option String)
reads = some "event>" ∷ some "</event>" ∷ some "<event>" ∷ []

abbrev peer : Peer
peer = record { reads = some "<" ∷ reads; sent = []; closed = false }

abbrev parse : String → Option (List String)
parse s = some ("<event></event>" ∷ [])

listen-IsSettled_example :
    IsSettled parse true 9 "10.0.0.2"
      ((attempt parse true 9 (receive_connection_data parse true 9 peer)).0)
      (listen_accepted parse true 9 "10.0.0.2" peer)
listen-IsSettled_example = listen-IsSettled parse true 9 "10.0.0.2" peer refl

recv_until_delimiter-Taken_example : Taken 5 9 "" reads (recv_until_delimiter 9 reads)
recv_until_delimiter-Taken_example = recv_until_delimiter-Taken 9 reads
