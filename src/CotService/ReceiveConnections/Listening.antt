-- ===== src/CotService/ReceiveConnections/Listening.antt =====
-- ReceiveConnections.py, `listen`: what becomes of a client.
use free_tak_server.Base.{
  length, map, ◌≤◌, ◌≡◌, refl, ap, inl, inr, ◌⊎◌, ℕ, zero, suc, ◌-◌, String, str_append, Bool, true,
  false, ◌||◌, nat_eq, Option, none, some, List, [], ◌∷◌, ◌++◌, arith, Bool-cases, Outcome, returns,
  raised,
}
use free_tak_server.CotService.ReceiveConnections.{
  Peer, includes, RawConnectionInformation, Received, test_success, events, recv_rounds,
  recv_until_delimiter, receive_connection_data, close, attempt, serve, listen_accepted,
}

module _ (parse : String → Option (List String)) (sends : Bool) (clock : ℕ) where
  -- The client is closed and there is no connection, or it is open and the connection has its
  -- address and the first event of what was received.
  abbrev pub IsSettled : String → Outcome Received → Option RawConnectionInformation × Peer → Type 0
  IsSettled address r (none, p) = p.closed ≡ true
  IsSettled address r (some raw, p) =
      (p.closed ≡ false)
      × (raw.ip ≡ address)
      × (rest : List String) × (r ≡ returns (events (raw.xml_string ∷ rest)))

  serve-IsSettled :
      (address : String) (r : Outcome Received) (p : Peer)
      → p.closed ≡ false
      → IsSettled address r (serve parse sends clock address (r, p))
  unfolding close
  serve-IsSettled address (raised e) p h = refl
  serve-IsSettled address (returns test_success) p h = elim (Bool-cases sends) [
    | inl sent_it ↦ rw sent_it refl
    | inr refused ↦ rw refused refl
  ]
  serve-IsSettled address (returns (events [])) p h = refl
  serve-IsSettled address (returns (events (e ∷ es))) p h = (h, refl, es, refl)

  receive-open :
      (p : Peer) → p.closed ≡ false → (receive_connection_data parse sends clock p).1.closed ≡ false
  unfolding receive_connection_data
  receive-open p h = ground (arith, h)

  attempt-open :
      (r : Outcome Received × Peer)
      → r.1.closed ≡ false
      → (attempt parse sends clock r).1.closed ≡ false
  attempt-open (returns r, p) h = h
  attempt-open (raised e, p) h = receive-open p h

  -- An accepted client that was open is either closed, and `listen` answers -1, or it stays open
  -- and `listen` answers its address and the first event of the document that one of the two
  -- attempts received.
  pub listen-IsSettled :
      (address : String) (p : Peer)
      → p.closed ≡ false
      → IsSettled address
          ((attempt parse sends clock (receive_connection_data parse sends clock p)).0)
          (listen_accepted parse sends clock address p)
  unfolding listen_accepted
  listen-IsSettled address p h =
      let r = attempt parse sends clock (receive_connection_data parse sends clock p) in
      serve-IsSettled address (r.0) (r.1)
        (attempt-open (receive_connection_data parse sends clock p) (receive-open p h))

-- A message with chunks after it.
abbrev pub appended : String → List String → String
appended m [] = m
appended m (c ∷ cs) = appended (str_append m c) cs

-- While each of the chunks was read, the delimiter was still missing.
abbrev pub IsAwaited : String → List String → Type 0
IsAwaited m [] = Unit
IsAwaited m (c ∷ cs) = (includes "</event>" m ≡ false) × IsAwaited (str_append m c) cs

-- Why the reading ended: the delimiter is there, all rounds are used, the time is over, or the
-- socket gave no more, which an exception does too.
abbrev pub IsOver : ℕ → ℕ → String → ℕ → List (Option String) → Type 0
IsOver left clock m n stop =
    (includes "</event>" m ≡ true)
    ⊎ ((n ≡ left)
        ⊎ ((n ≡ clock) ⊎ ((stop ≡ []) ⊎ ((after : List (Option String)) × (stop ≡ none ∷ after)))))

-- The chunks that were read, and what stood behind them.
abbrev pub Taken : ℕ → ℕ → String → List (Option String) → String × List (Option String) → Type 0
Taken left clock m reads (m', rest) =
    (taken : List String) × (stop : List (Option String)) × (reads ≡ map some taken ++ stop)
    × (m' ≡ appended m taken)
    × ((rest ≡ stop) ⊎ (stop ≡ none ∷ rest))
    × IsAwaited m taken
    × ((length taken ≤ left) × (length taken ≤ clock))
    × IsOver left clock m' (length taken) stop

recv_rounds-Taken :
    (left clock : ℕ) (m : String) (reads : List (Option String))
    → Taken left clock m reads (recv_rounds left clock m reads)
unfolding recv_rounds
recv_rounds-Taken zero clock m reads =
    ([], reads, refl, refl, inl refl, tt, (omega arith, omega arith), inr (inl refl))
recv_rounds-Taken (suc left) clock m [] =
    ([], [], refl, refl, inl refl, tt, (omega arith, omega arith), inr (inr (inr (inl refl))))
recv_rounds-Taken (suc left) clock m (none ∷ reads) =
    elim (Bool-cases (includes "</event>" m || nat_eq clock 0)) [
      | inl done ↦
          rw (recv_rounds, done)
            (
              [],
              none ∷ reads,
              refl,
              refl,
              inl refl,
              tt,
              (omega arith, omega arith),
              inr (inr (inr (inr (reads, refl)))),
            )
      | inr go ↦
          rw (recv_rounds, go)
            (
              [],
              none ∷ reads,
              refl,
              refl,
              inr refl,
              tt,
              (omega arith, omega arith),
              inr (inr (inr (inr (reads, refl)))),
            )
    ]
recv_rounds-Taken (suc left) clock m (some c ∷ reads) =
    elim (Bool-cases (includes "</event>" m || nat_eq clock 0)) [
      | inl done ↦
          rw (recv_rounds, done)
            ([], some c ∷ reads, refl, refl, inl refl, tt, (omega arith, omega arith), over done)
      | inr go ↦
          rw (recv_rounds, go)
            (after c reads (recv_rounds left (clock - 1) (str_append m c) reads)
              (ground (arith, go)) (ground (arith, go))
              (recv_rounds-Taken left (clock - 1) (str_append m c) reads))
    ]
  where
    over :
        (includes "</event>" m || nat_eq clock 0) ≡ true
        → IsOver (suc left) clock m 0 (some c ∷ reads)
    over done = elim (Bool-cases (includes "</event>" m)) [
      | inl there ↦ inl there
      | inr missing ↦ inr (inr (inl (ground (arith, done, missing))))
    ]

    later :
        (k : ℕ) (m' : String) (n : ℕ) (stop : List (Option String))
        → clock ≡ suc k
        → IsOver left k m' n stop
        → IsOver (suc left) clock m' (suc n) stop
    later k m' n stop e (inl there) = inl there
    later k m' n stop e (inr (inl rounds)) = inr (inl (ap suc rounds))
    later k m' n stop e (inr (inr (inl time))) = inr (inr (inl (omega (arith, e, time))))
    later k m' n stop e (inr (inr (inr no_more))) = inr (inr (inr no_more))

    after :
        (d : String) (ds : List (Option String)) (r : String × List (Option String))
        → includes "</event>" m ≡ false
        → clock ≡ suc (clock - 1)
        → Taken left (clock - 1) (str_append m d) ds r
        → Taken (suc left) clock m (some d ∷ ds) r
    after d ds (m', rest) missing time
          (taken, stop, split, made, behind, awaited, (few, soon), over') =
        (
          d ∷ taken,
          stop,
          ap (λ xs. some d ∷ xs) split,
          made,
          behind,
          (missing, awaited),
          (omega (arith, few), omega (arith, soon, time)),
          later (clock - 1) m' (length taken) stop time over',
        )

-- Whatever the socket gives and however long the time is, `recv_until` joins the chunks from the
-- front of what is there, none left out, at most five and no more than the time allows, each read
-- while the delimiter was still missing, and what follows them stays to be read, but for an
-- exception that ended the reading. It ends for one of these reasons only: the delimiter is in the
-- text, five chunks were read, the time is over, or the socket raised or has no more.
pub recv_until_delimiter-Taken :
    (clock : ℕ) (reads : List (Option String))
    → Taken 5 clock "" reads (recv_until_delimiter clock reads)
unfolding recv_until_delimiter
recv_until_delimiter-Taken clock reads = recv_rounds-Taken 5 clock "" reads
