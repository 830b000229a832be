-- ===== src/CotService/Examples/Sending.antt =====
-- SendDataController.py and send_component_data_controller.py at concrete inputs.
use free_tak_server.Base.{
  ℕ, String, ◌≡◌, refl, Bool, true, nat_eq, not, none, some, [], ◌∷◌, ◌++◌, returns,
}
use free_tak_server.CotService.Wire.{Net, bytes}
use free_tak_server.CotService.SendData.{
  Entry, Clients, Model, Cot, nobody, user, Hub, one, minus_one, share_with_core, send_to_all,
}
use free_tak_server.CotService.SendData.Route.{send_data_in_queue}
use free_tak_server.CotService.SendData.Broadcast.{
  recipients, writes, take, Finishes, send_to_all_reaches, send_to_all_stops,
}
use free_tak_server.CotService.SendData.Private.{
  keyed, addressed, completed, geochat_to_one, marti_to_addressed, marti_blocked,
}
use free_tak_server.CotService.SendData.Sharing.{Accounts, send_data_in_queue-Accounts}
use free_tak_server.CotService.ComponentData.{Connections, send_message}
use free_tak_server.CotService.ComponentData.Delivery.{posts, targets, send_message_reaches}

abbrev up : Net
up w s = true

-- Socket 2 takes nothing.
abbrev alive : ℕ → Bool
alive s = not (nat_eq s 2)

abbrev flaky : Net
flaky w s = alive s

abbrev entry : ℕ → String → Entry
entry s name = record {
  sock = s;
  client = some (record {
    uid = name;
    presence = some (record { callsign = some name; xml = bytes "<p/>" });
  });
}

abbrev clients : Clients
clients = ("A", entry 1 "ALPHA") ∷ ("B", entry 2 "BRAVO") ∷ ("C", entry 3 "CHARLIE") ∷ []

-- A client that the core has not listed yet.
abbrev newcomer : Entry
newcomer = record { sock = 9; client = some (record { uid = "N"; presence = none }) }

abbrev hub : Hub
hub = record { wire = []; pipe = []; to_core = 0 }

abbrev cot : String → Model → Cot
cot kind m = record {
  kind = kind;
  model = some m;
  xml = some (bytes "<event/>");
  id_data = none;
  socket = none;
  client_information = some "A";
}

abbrev point : Cot
point = cot "other" (record { uid = "P"; marti = none; chat_uid1 = none })

abbrev chat : Cot
chat = cot "GeoChat" (record { uid = "G"; marti = none; chat_uid1 = some (some "B") })

abbrev to_two : Model
to_two = record { uid = "M"; marti = some (some "CHARLIE" ∷ some "ALPHA" ∷ []); chat_uid1 = none }

send_to_all_reaches_example : send_to_all up clients point (user "A") true hub ≡ (
  returns one,
  share_with_core true point
      (record hub { wire = [] ++ writes "<event/>" (recipients point (user "A") clients) }),
)
send_to_all_reaches_example =
    send_to_all_reaches up point (user "A") refl refl clients true hub (λ w s. refl)

-- The recipients of that broadcast are the other two clients, in order.
recipients_test :
    writes "<event/>" (recipients point (user "A") clients)
    ≡ (record { sock = 2; content = "<event/>" }) ∷ (record { sock = 3; content = "<event/>" }) ∷ []
recipients_test = refl

send_to_all_stops_example :
    let ps = recipients point nobody clients in
    let r = send_to_all flaky clients point nobody true hub in
    (n : ℕ) × (r.1.wire ≡ [] ++ writes "<event/>" (take n ps)) × Finishes point ps true hub n r
send_to_all_stops_example = send_to_all_stops flaky point nobody refl refl clients true hub

geochat_to_one_example :
    send_data_in_queue up clients chat nobody true hub
    ≡ completed chat "<event/>" (keyed (some "B") clients) true hub
geochat_to_one_example =
    geochat_to_one up chat refl clients nobody true hub (some "B") (λ w s. refl) refl refl refl

marti_to_addressed_example :
    send_data_in_queue up clients (cot "other" to_two) nobody true hub
    ≡ completed
        (cot "other" to_two)
        "<event/>"
        (addressed (some "CHARLIE" ∷ some "ALPHA" ∷ []) clients)
        true
        hub
marti_to_addressed_example =
    marti_to_addressed up (cot "other" to_two) refl clients nobody true hub to_two
      (some "CHARLIE" ∷ some "ALPHA" ∷ []) (λ w s. refl) (refl, (refl, (refl, tt)))
      (refl, refl, refl, refl, refl, refl)

marti_blocked_example :
    send_data_in_queue up (("N", newcomer) ∷ clients) (cot "other" to_two) nobody true hub
    ≡ (minus_one, record hub { to_core = 0 })
marti_blocked_example =
    marti_blocked up (cot "other" to_two) "N" newcomer clients nobody true hub to_two
      (some "CHARLIE") (some "ALPHA" ∷ []) refl (refl, refl, refl, refl, refl, refl)

send_data_in_queue-Accounts_example :
    Accounts true hub (send_data_in_queue flaky clients point nobody true hub)
send_data_in_queue-Accounts_example =
    send_data_in_queue-Accounts flaky clients point nobody true hub

abbrev connections : Connections
connections =
    ("c:A", record { uid = "A"; sock = 1 })
    ∷ ("c:B", record { uid = "B"; sock = 2 })
    ∷ ("c:C", record { uid = "C"; sock = 3 })
    ∷ []

send_message_reaches_example :
    send_message (λ _ s. alive s) connections (bytes "<e/>") none []
    ≡ (returns tt, [] ++ posts alive "<e/>" (targets connections none))
send_message_reaches_example = send_message_reaches alive connections "<e/>" none []

posts_test :
    posts alive "<e/>" (targets connections none)
    ≡ (record { sock = 1; content = "<e/>" }) ∷ (record { sock = 3; content = "<e/>" }) ∷ []
posts_test = refl
