-- ===== src/PrivateCot/Examples.antt =====
-- The recipients of a CoT at concrete inputs.
use free_tak_server.Base.{some, List, [], ◌∷◌}
use free_tak_server.PrivateCot.{ConnectedUser, get_recipients}
use free_tak_server.PrivateCot.Addressed.{Answered, get_recipients_addressed}

abbrev connections : List ConnectedUser
connections =
    (record { oid = "1"; callsign = some "ALPHA" })
    ∷ (record { oid = "2"; callsign = some "BRAVO" })
    ∷ []

get_recipients_addressed_example :
    Answered
      (some "CHARLIE")
      (some "BRAVO" ∷ [])
      connections
      (get_recipients (some (some "CHARLIE" ∷ some "BRAVO" ∷ [])) connections)
get_recipients_addressed_example =
    get_recipients_addressed (some "CHARLIE") (some "BRAVO" ∷ []) connections
