-- ===== src/StatusCheck/Examples.antt =====
-- The status check at concrete inputs.
use free_tak_server.Base.{◌≡◌, String, true, false, Option, none, List, []}
use free_tak_server.CotService.ReceiveConnections.{listen_accepted}
use free_tak_server.StatusCheck.{tcp_cot_status_check, answer_of}
use free_tak_server.StatusCheck.Answered.{test_reads, check_answered}

abbrev no_parser : String → Option (List String)
no_parser s = none

check_answered_example :
    (tcp_cot_status_check (answer_of no_parser true 9 "127.0.0.1" (test_reads [])) ≡ "on")
    × ((listen_accepted no_parser true 9 "127.0.0.1"
          (record { reads = test_reads [] "TEST"; sent = []; closed = false })).0
        ≡ none)
    × ((listen_accepted no_parser true 9 "127.0.0.1"
          (record { reads = test_reads [] "TEST"; sent = []; closed = false })).1.closed
        ≡ true)
check_answered_example = check_answered no_parser true 7 "127.0.0.1" []
