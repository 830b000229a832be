-- ===== src/CotService/SendData/Broadcast.antt =====
-- `send_to_all` of SendDataController.py: whom a broadcast reaches, and in which order.
use free_tak_server.Base.{
  ℕ, zero, suc, String, ◌≡◌, refl, sym, ap, ◌⊎◌, inl, inr, Bool, true, false, not, Option, none,
  some, List, [], ◌∷◌, ◌++◌, ◌∙◌, map, append-nil, append_assoc, arith, if◌then◌else◌, Bool-cases,
  select, length, Exn, Outcome, returns, raised,
}
use free_tak_server.CotService.Wire.{Net, Wire, Body, bytes, text, missing, Delivery}
use free_tak_server.CotService.SendData.{
  Entry, Clients, Cot, Sender, Hub, Sent, one, content, skips, blame, send_encoded, offer,
  offer_all, conclude, share_with_core, send_to_all,
}

-- The text that a value carries to a socket.
abbrev pub carried : Body → Option String
carried (bytes s) = some s
carried (text s) = some s
carried missing = none

-- What a message writes, where it writes at all: `xmlString`, or else `idData`.
abbrev pub carried_by : Cot → Option String
carried_by cot = elim (content cot) [ returns b ↦ carried b | raised x ↦ none ]

-- The entries that a broadcast is for, in the order of the dictionary.
abbrev pub recipients : Cot → Sender → Clients → Clients
recipients cot sender = select (λ p. not (skips cot sender p.0))

abbrev pub to_entry : String → String × Entry → Delivery
to_entry c p = record { sock = p.1.sock; content = c }

abbrev pub writes : String → Clients → Wire
writes c = map (to_entry c)

abbrev pub take {ℓ} : {A : Type ℓ} → ℕ → List A → List A
take zero xs = []
take (suc n) [] = []
take (suc n) (x ∷ xs) = x ∷ take n xs

-- A network on which no write fails.
abbrev pub IsUp : Net → Type 0
IsUp net = (w : Wire) (s : ℕ) → net w s ≡ true

abbrev pub to_socket : Net → ℕ → String → Wire → Option Exn × Wire
to_socket net s c w =
    if net w s then (none, w ++ (record { sock = s; content = c }) ∷ []) else (some Exn.os_error, w)

-- Text or bytes: with the second try the result is that of one write.
send_encoded-carried :
    (net : Net) (s : ℕ) (b : Body) (c : String) (w : Wire)
    → carried b ≡ some c
    → send_encoded net s b w ≡ to_socket net s c w
unfolding send_encoded
send_encoded-carried net s (bytes t) c w h = ground arith
send_encoded-carried net s (text t) c w h = ground arith
send_encoded-carried net s missing c w h = ground arith

-- A write to each entry in turn, up to the first that is refused.
abbrev pub deliver : Net → String → Clients → Wire → Option Entry × Wire
deliver net c [] w = (none, w)
deliver net c (p ∷ ps) w =
    let rest = deliver net c ps (w ++ (record { sock = p.1.sock; content = c }) ∷ []) in
    if net w p.1.sock then rest else (some p.1, w)

abbrev pub get_elem? {ℓ} : {A : Type ℓ} → List A → ℕ → Option A
get_elem? [] i = none
get_elem? (x ∷ xs) zero = some x
get_elem? (x ∷ xs) (suc i) = get_elem? xs i

-- How a delivery ends: after all entries, or at the entry whose write was refused.
abbrev pub Ends : Clients → ℕ → Option Entry → Type 0
Ends ps n none = n ≡ length ps
Ends ps n (some e) = (p : String × Entry) × (get_elem? ps n ≡ some p) × (p.1 ≡ e)

Ends-suc :
    (p : String × Entry) (ps : Clients) (n : ℕ) (r : Option Entry)
    → Ends ps n r
    → Ends (p ∷ ps) (suc n) r
Ends-suc p ps n none h = omega arith
Ends-suc p ps n (some e) h = h

-- The wire grows by the writes to a prefix of the entries.
pub deliver_prefix :
    (net : Net) (c : String) (ps : Clients) (w : Wire)
    → let r = deliver net c ps w in (n : ℕ) × (r.1 ≡ w ++ writes c (take n ps)) × Ends ps n r.0
deliver_prefix net c [] w = (0, rw append-nil, refl)
deliver_prefix net c (p ∷ ps) w = elim (Bool-cases (net w p.1.sock)) [
  | inl up ↦
      let d = deliver_prefix net c ps (w ++ (record { sock = p.1.sock; content = c }) ∷ []) in
      rw up (suc d.0, d.1 ∙ append_assoc w _ _, Ends-suc p ps d.0 _ d.2)
  | inr down ↦ rw down (0, rw append-nil, (p, refl, refl))
]

pub deliver_up :
    (net : Net) (c : String) (ps : Clients) (w : Wire)
    → IsUp net
    → deliver net c ps w ≡ (none, w ++ writes c ps)
deliver_up net c [] w up = rw append-nil
deliver_up net c (p ∷ ps) w up =
    let d : Wire = (record { sock = p.1.sock; content = c }) ∷ [] in
    rw (up w p.1.sock)
      (deliver_up net c ps (w ++ d) up ∙ ap (λ v. (none, v)) (append_assoc w d (writes c ps)))

-- How a broadcast ends. `n` is the number of recipients that were written to.
abbrev pub Finishes : Cot → Clients → Bool → Hub → ℕ → Outcome Sent × Hub → Type 0
Finishes cot ps share h n (r, h') =
    (n ≡ length ps) × (r ≡ returns one) × (h'.pipe ≡ (share_with_core share cot h).pipe)
    ⊎ ((p : String × Entry) × (get_elem? ps n ≡ some p) × (r ≡ blame p.1) × (h'.pipe ≡ h.pipe))

share_with_core_lem :
    (share : Bool) (cot : Cot) (h : Hub) (w : Wire)
    → let h' = share_with_core share cot (record h { wire = w }) in
      (h'.wire ≡ w) × (h'.pipe ≡ (share_with_core share cot h).pipe)
unfolding share_with_core
share_with_core_lem true cot h w = (refl, refl)
share_with_core_lem false cot h w = (refl, refl)

conclude-Finishes :
    (cot : Cot) (ps : Clients) (share : Bool) (h : Hub) (n : ℕ) (r : Option Entry × Wire)
    → Ends ps n r.0
    → ((conclude share cot h r).1.wire ≡ r.1) × Finishes cot ps share h n (conclude share cot h r)
conclude-Finishes cot ps share h n (none, w) ends =
    let (same, piped) = share_with_core_lem share cot h w in (same, inl (ends, refl, piped))
conclude-Finishes cot ps share h n (some e, w) (p, at, e') =
    (refl, inr (p, at, ap blame (sym e'), refl))

module _ (net : Net) (cot : Cot) (sender : Sender) {b : Body} {c : String}
    (has : content cot ≡ returns b) (says : carried b ≡ some c) where
  offer_lem :
      (id : String) (e : Entry) (w : Wire)
      → offer net cot sender id e w
        ≡ (if skips cot sender id then (none, w) else to_socket net e.sock c w)
  unfolding offer
  offer_lem id e w = ground (arith, send_encoded-carried net e.sock b c w says)

  -- The loop that skips the sender is a delivery to the entries that remain.
  offer_all-eq-deliver :
      (clients : Clients) (w : Wire)
      → offer_all net cot sender clients w ≡ deliver net c (recipients cot sender clients) w
  unfolding offer_all
  offer_all-eq-deliver [] w = refl
  offer_all-eq-deliver ((id, e) ∷ rest) w = ground (
    arith,
    offer_lem id e w,
    offer_all-eq-deliver rest w,
    offer_all-eq-deliver rest (w ++ (record { sock = e.sock; content = c }) ∷ []),
  )

  -- On a network that takes every write, `send_to_all` writes the message once to each client but
  -- the sender (for a pong, to the sender too), in the order of the dictionary, returns 1, and
  -- then hands the message to the core if it was given a pipe. The message carries text or bytes.
  pub send_to_all_reaches :
      (clients : Clients) (share : Bool) (h : Hub)
      → IsUp net
      → send_to_all net clients cot sender share h ≡ (
        returns one,
        share_with_core share cot
            (record h { wire = h.wire ++ writes c (recipients cot sender clients) }),
      )
  unfolding send_to_all
  send_to_all_reaches clients share h up =
      let ps = recipients cot sender clients in
      ap (conclude share cot h)
        (offer_all-eq-deliver clients h.wire ∙ deliver_up net c ps h.wire up)

  -- Whatever the network does, the recipients that get the message are the first `n` of those that
  -- `send_to_all` is for, each gets it once, and no one else gets anything. Either all got it, the
  -- result is 1 and the core gets the message where there is a pipe; or the write to the next one
  -- was refused, the result names that client, and the core gets nothing.
  pub send_to_all_stops :
      (clients : Clients) (share : Bool) (h : Hub)
      → let ps = recipients cot sender clients in
        let r = send_to_all net clients cot sender share h in
        (n : ℕ) × (r.1.wire ≡ h.wire ++ writes c (take n ps)) × Finishes cot ps share h n r
  unfolding send_to_all
  send_to_all_stops clients share h =
      let ps = recipients cot sender clients in
      let (n, grew, ends) = deliver_prefix net c ps h.wire in
      let (same, finishes) = conclude-Finishes cot ps share h n (deliver net c ps h.wire) ends in
      rw (send_to_all, offer_all-eq-deliver clients h.wire) (n, same ∙ grew, finishes)
