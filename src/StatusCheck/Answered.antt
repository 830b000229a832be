-- ===== src/StatusCheck/Answered.antt =====
-- ServerStatusController.py and ReceiveConnections.py: the status check and the service agree.
use free_tak_server.Base.{
  ap, ◌∙◌, returns, ◌≡◌, refl, ℕ, suc, String, Bool, true, false, if◌then◌else◌, Option, none, some,
  List, [], ◌∷◌, arith,
}
use free_tak_server.CotService.ReceiveConnections.{
  Peer, RawConnectionInformation, listen_accepted, receive_connection_data, recv_until_delimiter,
  recv_rounds, interpret, close, test_success,
}
use free_tak_server.StatusCheck.{verdict, tcp_cot_status_check, first_sent, answer_of}

-- The bytes of the check, the first one alone as `listen` reads it, and then nothing more in time.
abbrev pub test_reads : List (Option String) → String → List (Option String)
test_reads later sent = some "T" ∷ some "EST" ∷ none ∷ later

rest_read :
    (clock : ℕ) (later : List (Option String))
    → recv_until_delimiter (suc (suc clock)) (some "EST" ∷ none ∷ later) ≡ ("EST", later)
unfolding recv_until_delimiter recv_rounds
rest_read clock later = ground arith

received_test :
    (parse : String → Option (List String)) (sends : Bool) (clock : ℕ)
    (later : List (Option String))
    → receive_connection_data parse sends
        (suc (suc clock))
        (record { reads = test_reads later "TEST"; sent = []; closed = false })
      ≡ (returns test_success, record { reads = later; sent = []; closed = false })
unfolding receive_connection_data interpret
received_test parse sends clock later = rw (rest_read clock later) refl

listened :
    (parse : String → Option (List String)) (sends : Bool) (clock : ℕ) (address : String)
    (later : List (Option String))
    → listen_accepted parse sends
        (suc (suc clock))
        address
        (record { reads = test_reads later "TEST"; sent = []; closed = false })
      ≡ (none, record { reads = later; sent = if sends then "success" ∷ [] else []; closed = true })
unfolding listen_accepted close
listened parse true clock address later =
    rw (listen_accepted, received_test parse true clock later) refl
listened parse false clock address later =
    rw (listen_accepted, received_test parse false clock later) refl

answered :
    (sends : Bool)
    → verdict (first_sent (if sends then "success" ∷ [] else [])) ≡ (if sends then "on" else "off")
answered true = refl
answered false = refl

-- The check of a service that listens, with its bytes arriving as one and three and time for two
-- rounds of reading, says "on" exactly if the service can write its answer, whatever the xml parser
-- is and whatever is read later; the client of the check is closed and becomes no connection.
pub check_answered :
    (parse : String → Option (List String)) (sends : Bool) (clock : ℕ) (address : String)
    (later : List (Option String))
    → (tcp_cot_status_check (answer_of parse sends (suc (suc clock)) address (test_reads later))
        ≡ (if sends then "on" else "off"))
      × ((listen_accepted parse sends
            (suc (suc clock))
            address
            (record { reads = test_reads later "TEST"; sent = []; closed = false })).0
          ≡ none)
      × ((listen_accepted parse sends
            (suc (suc clock))
            address
            (record { reads = test_reads later "TEST"; sent = []; closed = false })).1.closed
          ≡ true)
unfolding tcp_cot_status_check answer_of
check_answered parse sends clock address later =
    let same = listened parse sends clock address later in
    (
      ap (λ (r : Option RawConnectionInformation × Peer). verdict (first_sent r.1.sent)) same
          ∙ answered sends,
      ap (λ (r : Option RawConnectionInformation × Peer). r.0) same,
      ap (λ (r : Option RawConnectionInformation × Peer). r.1.closed) same,
    )
