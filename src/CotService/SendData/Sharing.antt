-- ===== src/CotService/SendData/Sharing.antt =====
-- SendDataController.py: the core is handed a message exactly when the call returns 1.
use free_tak_server.Base.{
  ◌+◌, String, ◌≡◌, ◌≢◌, refl, inl, inr, Bool, true, false, not, ◌&&◌, ◌||◌, Option, none, some,
  List, [], ◌∷◌, arith, if◌then◌else◌, opt_eq, ◌==◌, Bool-cases, length, length-append, Exn, ◌>>=◌,
  Outcome, returns, raised, Outcome-cases,
}
use free_tak_server.CotService.Wire.{Net, Wire, encode}
use free_tak_server.CotService.SendData.{
  Entry, Clients, Cot, Sender, Hub, Sent, one, minus_one, nothing, all_chat_rooms, share_with_core,
  conclude, offer_all, send_to_all, has_valid_marti, attribute, is_private,
}
use free_tak_server.CotService.SendData.Route.{
  report, send_plain, whisper, chat_uid1, finish, caught, surfaced, geochat_sending, address,
  address_clients, address_all, send_to_specific_client, share_connection, send_data_in_queue,
  exchange_all, destinations, is_unaddressed, is_itself,
}

-- What a call with result `r` has put on the pipe of the core.
abbrev pub Accounts : Bool → Hub → Sent × Hub → Type 0
Accounts share h (one, h') = length h'.pipe ≡ length h.pipe + (if share then 1 else 0)
Accounts share h (_, h') = h'.pipe ≡ h.pipe

abbrev AccountsAll : Bool → Hub → Outcome Sent × Hub → Type 0
AccountsAll share h (returns s, h') = Accounts share h (s, h')
AccountsAll share h (raised x, h') = h'.pipe ≡ h.pipe

share_with_core-Accounts :
    (share : Bool) (cot : Cot) (h : Hub) → Accounts share h (one, share_with_core share cot h)
unfolding share_with_core
share_with_core-Accounts true cot h = length-append h.pipe _
share_with_core-Accounts false cot h = omega arith

conclude-AccountsAll :
    (share : Bool) (cot : Cot) (h : Hub) (r : Option Entry × Wire)
    → AccountsAll share h (conclude share cot h r)
conclude-AccountsAll share cot h (none, w) =
    share_with_core-Accounts share cot (record h { wire = w })
conclude-AccountsAll share cot h (some e, w) = ground arith

finish-Accounts :
    (share : Bool) (cot : Cot) (h : Hub) (r : Option Sent × Wire)
    → (r.0 ≡ some one → ⊥)
    → Accounts share h (finish share cot h r)
finish-Accounts share cot h (none, w) early =
    share_with_core-Accounts share cot (record h { wire = w })
finish-Accounts share cot h (some s, w) early = ground arith

-- An early return of a private route is never 1.
report-ne-one :
    (lost : Sent) (cot : Cot) (e : Entry) (r : Option Exn × Wire)
    → lost ≢ one
    → (report lost cot e r).0 ≢ some one
report-ne-one lost cot e (none, w) other h = cc
report-ne-one lost cot e (some x, w) other h = ground (arith, other)

whisper-ne-one :
    (net : Net) (cot : Cot) (uid : Option String) (clients : Clients) (w : Wire)
    → (whisper net cot uid clients w).0 ≢ some one
unfolding whisper
whisper-ne-one net cot uid [] w h = cc
whisper-ne-one net cot uid ((id, e) ∷ rest) w h = ground (
  arith,
  report-ne-one nothing cot e (send_plain net cot e w) (λ z. ground arith),
  whisper-ne-one net cot uid rest w,
  whisper-ne-one net cot uid rest (report nothing cot e (send_plain net cot e w)).1,
)

address-ne-one :
    (net : Net) (cot : Cot) (dest : Option String) (e : Entry) (w : Wire)
    → (address net cot dest e w).0 ≢ some one
unfolding address
address-ne-one net cot dest e w h =
    ground (arith, report-ne-one minus_one cot e (send_plain net cot e w) (λ z. ground arith))

address_clients-ne-one :
    (net : Net) (cot : Cot) (dest : Option String) (clients : Clients) (w : Wire)
    → (address_clients net cot dest clients w).0 ≢ some one
unfolding address_clients
address_clients-ne-one net cot dest [] w h = cc
address_clients-ne-one net cot dest ((id, e) ∷ rest) w h = ground (
  arith,
  address-ne-one net cot dest e w,
  address_clients-ne-one net cot dest rest (address net cot dest e w).1,
)

address_all-ne-one :
    (net : Net) (cot : Cot) (dests : List (Option String)) (clients : Clients) (w : Wire)
    → (address_all net cot dests clients w).0 ≢ some one
unfolding address_all
address_all-ne-one net cot [] clients w h = cc
address_all-ne-one net cot (d ∷ ds) clients w h = ground (
  arith,
  address_clients-ne-one net cot d clients w,
  address_all-ne-one net cot ds clients (address_clients net cot d clients w).1,
)

module _ (net : Net) (clients : Clients) (cot : Cot) (sender : Sender) (share : Bool)
    (h : Hub) where
  send_to_all-AccountsAll : AccountsAll share h (send_to_all net clients cot sender share h)
  unfolding send_to_all
  send_to_all-AccountsAll =
      conclude-AccountsAll share cot h (offer_all net cot sender clients h.wire)

  caught-Accounts :
      (s : Sent) (r : Outcome Sent × Hub)
      → s ≢ one
      → AccountsAll share h r
      → Accounts share h (caught s r)
  caught-Accounts s (returns x, h') other a = a
  caught-Accounts s (raised x, h') other a = ground arith

  surfaced-Accounts :
      (r : Outcome Sent × Hub) → AccountsAll share h r → Accounts share h (surfaced r)
  surfaced-Accounts (returns x, h') a = a
  surfaced-Accounts (raised x, h') a = a

  geochat_sending-Accounts : Accounts share h (geochat_sending net clients cot sender share h)
  unfolding geochat_sending
  geochat_sending-Accounts = elim (Outcome-cases (chat_uid1 cot)) [
    | inr (x, none_given) ↦ rw (geochat_sending, none_given) refl
    | inl (uid, given) ↦ elim (Bool-cases (opt_eq uid all_chat_rooms)) [
      | inl room ↦
          rw (geochat_sending, given, room) (caught-Accounts nothing _ (cc) send_to_all-AccountsAll)
      | inr private ↦
          rw (geochat_sending, given, private)
            (finish-Accounts share cot h _ (whisper-ne-one net cot uid clients h.wire))
    ]
  ]

  send_to_specific_client-Accounts :
      Accounts share h (send_to_specific_client net clients cot sender share h)
  unfolding send_to_specific_client
  send_to_specific_client-Accounts = elim (Outcome-cases (destinations cot)) [
    | inr (x, none_given) ↦ rw (send_to_specific_client, none_given) refl
    | inl ((m, dests), given) ↦ elim (Outcome-cases (has_valid_marti cot)) [
      | inr (x, broken) ↦ rw (send_to_specific_client, given, broken) refl
      | inl (valid, checked) ↦
          elim (Bool-cases ((not valid && not (is_private m.chat_uid1)) || is_unaddressed dests)) [
            | inl broadcast ↦
                rw (send_to_specific_client, given, checked, broadcast)
                  (caught-Accounts minus_one _ (cc) send_to_all-AccountsAll)
            | inr direct ↦
                rw (send_to_specific_client, given, checked, direct)
                  (finish-Accounts share cot h _ (address_all-ne-one net cot dests clients h.wire))
          ]
    ]
  ]

share_connection-Accounts :
    (share : Bool) (cot : Cot) (h : Hub) → Accounts share h (share_connection share cot h)
unfolding share_connection
share_connection-Accounts true cot h =
    elim (Outcome-cases (attribute cot.id_data >>= λ b. encode b)) [
      | inr (x, failed) ↦ rw (share_connection, failed) refl
      | inl (b, coded) ↦ rw (share_connection, coded) (length-append h.pipe _)
    ]
share_connection-Accounts false cot h = ground arith

-- Whatever the network does and whichever route a message takes, with a pipe the core is handed
-- exactly one item if the call returns 1 and none if it returns anything else; without a pipe it is
-- handed nothing.
pub send_data_in_queue-Accounts :
    (net : Net) (clients : Clients) (cot : Cot) (sender : Sender) (share : Bool) (h : Hub)
    → Accounts share h (send_data_in_queue net clients cot sender share h)
unfolding send_data_in_queue
send_data_in_queue-Accounts net clients cot sender share h =
    let fresh = record h { to_core = 0 } in
    elim (Bool-cases (cot.kind == "GeoChat")) [
      | inl chat ↦
          rw (send_data_in_queue, chat)
            (geochat_sending-Accounts net clients cot sender share fresh)
      | inr other ↦ elim (Bool-cases (is_itself sender)) [
        | inl new ↦
            rw (send_data_in_queue, other, new)
              (share_connection-Accounts share cot
                (record fresh { wire = exchange_all net cot clients h.wire }))
        | inr old ↦ elim (Outcome-cases (has_valid_marti cot)) [
          | inr (x, broken) ↦ rw (send_data_in_queue, other, old, broken) refl
          | inl (true, marti) ↦
              rw (send_data_in_queue, other, old, marti)
                (send_to_specific_client-Accounts net clients cot sender share fresh)
          | inl (false, no_marti) ↦
              rw (send_data_in_queue, other, old, no_marti)
                (surfaced-Accounts net clients cot sender share fresh _
                  (send_to_all-AccountsAll net clients cot sender share fresh))
        ]
      ]
    ]
