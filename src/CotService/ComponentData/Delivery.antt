-- ===== src/CotService/ComponentData/Delivery.antt =====
-- send_component_data_controller.py: one client's broken socket keeps no other client from a message.
use free_tak_server.Base.{
  ℕ, String, ◌≡◌, inl, inr, Bool, Option-cases, Option, none, some, List, [], ◌∷◌, ◌++◌, append-nil,
  append_assoc, arith, if◌then◌else◌, returns,
}
use free_tak_server.Base.Dict.{lookup}
use free_tak_server.CotService.Wire.{Wire, bytes}
use free_tak_server.CotService.ComponentData.{
  Connection, Connections, send_message_to_all, send_message_to_some, send_message,
}

-- The connections that a message is for: all, or those of the recipients that are connected, in the
-- order of the recipients.
abbrev pub known : Connections → List String → List Connection
known connections [] = []
known connections (oid ∷ oids) = elim (lookup oid connections) [
  | none ↦ known connections oids
  | some c ↦ c ∷ known connections oids
]

abbrev pub everyone : Connections → List Connection
everyone [] = []
everyone (p ∷ rest) = p.1 ∷ everyone rest

abbrev pub targets : Connections → Option (List String) → List Connection
targets connections none = everyone connections
targets connections (some []) = everyone connections
targets connections (some (r ∷ rs)) = known connections (r ∷ rs)

-- `c` to each connection whose socket still takes bytes.
abbrev pub posts : (ℕ → Bool) → String → List Connection → Wire
posts alive c [] = []
posts alive c (k ∷ ks) =
    let rest = posts alive c ks in
    if alive k.sock then (record { sock = k.sock; content = c }) ∷ rest else rest

module _ (alive : ℕ → Bool) (c : String) where
  send_message_to_all_lem :
      (connections : Connections) (w : Wire)
      → send_message_to_all (λ _ s. alive s) connections (bytes c) w
        ≡ (returns tt, w ++ posts alive c (everyone connections))
  unfolding send_message_to_all
  send_message_to_all_lem [] w = rw append-nil
  send_message_to_all_lem ((oid, k) ∷ rest) w =
      let d : Wire = (record { sock = k.sock; content = c }) ∷ [] in
      ground (
        arith,
        send_message_to_all_lem rest w,
        send_message_to_all_lem rest (w ++ d),
        append_assoc w d (posts alive c (everyone rest)),
      )

  send_message_to_some_lem :
      (connections : Connections) (oids : List String) (w : Wire)
      → send_message_to_some (λ _ s. alive s) connections (bytes c) oids w
        ≡ (returns tt, w ++ posts alive c (known connections oids))
  unfolding send_message_to_some
  send_message_to_some_lem connections [] w = rw append-nil
  send_message_to_some_lem connections (oid ∷ oids) w =
      elim (Option-cases (lookup oid connections)) [
        | inl absent ↦ ground (arith, send_message_to_some_lem connections oids w)
        | inr (k, present) ↦
            let d : Wire = (record { sock = k.sock; content = c }) ∷ [] in
            ground (
              arith,
              send_message_to_some_lem connections oids w,
              send_message_to_some_lem connections oids (w ++ d),
              append_assoc w d (posts alive c (known connections oids)),
            )
      ]

-- The answer of a component reaches every connection that it is for and whose socket takes bytes,
-- once for each time that it is named, in order; a socket that fails is passed over and the call
-- returns. With no recipients or an empty list it is for all connections, and recipients that are
-- not connected are ignored.
pub send_message_reaches :
    (alive : ℕ → Bool) (connections : Connections) (c : String) (recipients : Option (List String))
    (w : Wire)
    → send_message (λ _ s. alive s) connections (bytes c) recipients w
      ≡ (returns tt, w ++ posts alive c (targets connections recipients))
unfolding send_message
send_message_reaches alive connections c none w = send_message_to_all_lem alive c connections w
send_message_reaches alive connections c (some []) w = send_message_to_all_lem alive c connections w
send_message_reaches alive connections c (some (r ∷ rs)) w =
    send_message_to_some_lem alive c connections (r ∷ rs) w
