-- ===== src/CotService/ReceiveConnections.antt =====
-- FreeTAKServer/services/tcp_cot_service/controllers/ReceiveConnections.py: accepting a client and
-- reading the event with which it connects.
pub mod Listening
use mathlib.Core.Option
use text.Mathlib.Text.{starts_with}
use free_tak_server.Base.{
  ℕ, zero, suc, ◌-◌, String, str_append, ◌==◌, Bool, true, false, ◌||◌, nat_eq, if◌then◌else◌,
  Option, none, some, List, [], ◌∷◌, ◌++◌, Exn, os_error, value_error, index_error, attribute_error,
  Outcome, returns, raised,
}
use free_tak_server.CotService.Reception.{drop_chars}

-- The socket of a client: what its calls of `recv` will give, none for an exception; what was sent
-- to it; whether it is closed. Bytes are the text that they encode.
pub record Peer : Type 0 where
  pub reads : List (Option String)
  pub sent : List String
  pub closed : Bool

-- How `sock.accept()` ends.
pub data Accept : Type 0 where
  accept_timeout accept_failed : Accept
  accepted : String → Peer → Accept

-- `RawConnectionInformation`, without its socket.
pub record RawConnectionInformation : Type 0 where
  pub ip : String
  pub xml_string : String

-- `TEST_SUCCESS`, or the document: the texts of its events.
pub data Received : Type 0 where
  test_success : Received
  events : List String → Received

-- `t in s`
abbrev pub includes : String → String → Bool
includes t String.[] = t == ""
includes t (String.◌∷◌ c s) = starts_with (String.◌∷◌ c s) t || includes t s

-- The loop of `recv_until`: `left` rounds are left of those that are counted, and `clock` of those
-- that the time allows.
unfoldable pub recv_rounds : ℕ → ℕ → String → List (Option String) → String × List (Option String)
recv_rounds zero clock message reads = (message, reads)
recv_rounds (suc left) clock message [] = (message, [])
recv_rounds (suc left) clock message (none ∷ reads) =
    if includes "</event>" message || nat_eq clock 0
    then (message, none ∷ reads)
    else (message, reads)
recv_rounds (suc left) clock message (some c ∷ reads) =
    let rest = recv_rounds left (clock - 1) (str_append message c) reads in
    if includes "</event>" message || nat_eq clock 0 then (message, some c ∷ reads) else rest

-- `recv_until`; MAX_RECEPTION_ITERATIONS is 4, and the round after the fourth is made too.
unfoldable pub recv_until_delimiter : ℕ → List (Option String) → String × List (Option String)
unfolding recv_rounds
recv_until_delimiter clock reads = recv_rounds 5 clock "" reads

-- The text after the last "?>".
abbrev pub after_last : String → Option String
after_last String.[] = none
after_last (String.◌∷◌ c s) = elim (after_last s) [
  | some r ↦ some r
  | none ↦ if starts_with (String.◌∷◌ c s) "?>" then some (drop_chars 2 (String.◌∷◌ c s)) else none
]

-- `re.sub` of `(?s)<\?xml(.*)\?>`: from the first "<?xml" to the last "?>".
unfoldable pub strip_to_last : String → String
strip_to_last String.[] = ""
strip_to_last (String.◌∷◌ c s) =
    let rest = String.◌∷◌ c (strip_to_last s) in
    if starts_with (String.◌∷◌ c s) "<?xml"
    then elim (after_last (drop_chars 5 (String.◌∷◌ c s))) [ none ↦ rest | some r ↦ r ]
    else rest

-- `parse` is lxml: the texts of the events of a document, none where it raises; `sends` is whether
-- a write to the client succeeds; `clock` is the number of rounds that the time allows a read.
module _ (parse : String → Option (List String)) (sends : Bool) (clock : ℕ) where
  -- The end of `receive_connection_data`.
  unfoldable pub interpret : String → Outcome Received
  unfolding strip_to_last
  interpret s =
      if s == "TEST"
      then returns test_success
      else elim (parse (strip_to_last (str_append "<multiEvent>" (str_append s "</multiEvent>")))) [
        | none ↦ raised value_error
        | some es ↦ returns (events es)
      ]

  unfoldable pub receive_connection_data : Peer → Outcome Received × Peer
  unfolding recv_until_delimiter interpret
  receive_connection_data p = elim (p.reads) [
    | [] ↦ (raised os_error, p)
    | none ∷ reads ↦ (raised os_error, record p { reads = reads })
    | some part ∷ reads ↦ if part == "" then (raised value_error, record p { reads = reads }) else (
      interpret (str_append part ((recv_until_delimiter clock reads).0)),
      record p { reads = (recv_until_delimiter clock reads).1 },
    )
  ]

  unfoldable pub close : Peer → Peer
  close p = record p { closed = true }

  -- `instantiate_client_object`: a text has no `findall`, and a document may have no event.
  abbrev pub instantiate_client_object : String → Received → Outcome RawConnectionInformation
  instantiate_client_object address test_success = raised attribute_error
  instantiate_client_object address (events []) = raised index_error
  instantiate_client_object address (events (e ∷ es)) =
      returns (record { ip = address; xml_string = e })

  -- `client.send(b'success')`
  abbrev pub greet_test : Received → Peer → Outcome Received × Peer
  greet_test (events es) p = (returns (events es), p)
  greet_test test_success p =
      if sends
      then (returns test_success, record p { sent = p.sent ++ "success" ∷ [] })
      else (raised os_error, p)

  abbrev pub conclude_listen :
      Outcome RawConnectionInformation → Peer → Option RawConnectionInformation × Peer
  conclude_listen (raised e) p = (none, close p)
  conclude_listen (returns raw) p = (some raw, p)

  abbrev pub instantiate : String → Outcome Received × Peer → Option RawConnectionInformation × Peer
  instantiate address (raised e, p) = (none, close p)
  instantiate address (returns r, p) = conclude_listen (instantiate_client_object address r) p

  -- The two attempts to read.
  abbrev pub attempt : Outcome Received × Peer → Outcome Received × Peer
  attempt (returns r, p) = (returns r, p)
  attempt (raised e, p) = receive_connection_data p

  -- What `listen` does with the two attempts' result.
  abbrev pub serve : String → Outcome Received × Peer → Option RawConnectionInformation × Peer
  serve address (raised e, p) = (none, close p)
  serve address (returns r, p) = instantiate address (greet_test r p)

  -- `listen` for an accepted client. The text of the event is never equal to the bytes `b''`, so
  -- the test before the return holds.
  unfoldable pub listen_accepted : String → Peer → Option RawConnectionInformation × Peer
  unfolding receive_connection_data close
  listen_accepted address p = serve address (attempt (receive_connection_data p))

  -- `listen`: none is -1; the client is none where there is none.
  unfoldable pub listen : Accept → Option RawConnectionInformation × Option Peer
  unfolding listen_accepted
  listen accept_timeout = (none, none)
  listen accept_failed = (none, none)
  listen (accepted address p) = let r = listen_accepted address p in (r.0, some r.1)
