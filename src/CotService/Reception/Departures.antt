-- ===== src/CotService/Reception/Departures.antt =====
-- A pass of ClientReceptionHandler over the clients, followed by the handling of what it received:
-- who is disconnected.
use free_tak_server.Base.{
  ℕ, String, ◌≡◌, refl, ◌∙◌, Bool, true, false, ◌&&◌, ◌||◌, ◌==◌, eq_iff, Option, none, some, List,
  [], ◌∷◌, ◌++◌, arith, if◌then◌else◌, Bool-cases, Option-cases, inl, inr, All,
}
use free_tak_server.Base.Dict.{lookup, IsDict}
use free_tak_server.CotService.SendData.{Entry, Clients}
use free_tak_server.CotService.Service.{Service, Environment}
use free_tak_server.CotService.MainLoop.{RawCot, handle_regular_data}
use free_tak_server.CotService.MainLoop.Membership.{departs, handle_regular_data_clients}
use free_tak_server.CotService.Reception.{
  Recv, Reading, message, timed_out, would_block, disconnected, faulty, recv_until, strip_newlines,
  wrapped, return_all, report_reading, monitor_for_data,
}

-- Readings after which a client is let go: an end of the stream, a document that is not well formed,
-- a connection that is gone, any unforeseen exception.
abbrev pub closes : (String → Option (List String)) → Reading → Bool
closes events (message s) =
    if s == "" then true else elim (events (wrapped s)) [ none ↦ true | some es ↦ false ]
closes events timed_out = false
closes events would_block = false
closes events disconnected = true
closes events faulty = true

-- The text of an event is not empty, newlines aside.
abbrev pub HasText : String → Type 0
HasText e = (strip_newlines e == "") ≡ false

abbrev pub EventsHaveText : (String → Option (List String)) → Type 0
EventsHaveText events = (doc : String) (es : List String) → events doc ≡ some es → All HasText es

departs-append :
    (j : String) (xs ys : List RawCot) → departs j (xs ++ ys) ≡ (departs j xs || departs j ys)
departs-append j [] ys = refl
departs-append j (d ∷ ds) ys = ground (arith, departs-append j ds ys)

departs-return_all :
    (j id : String) (es : List String) → All HasText es → departs j (return_all id es) ≡ false
unfolding return_all
departs-return_all j id [] h = refl
departs-return_all j id (e ∷ es) h = ground (arith, departs-return_all j id es h.1)

module _ (events : String → Option (List String)) (full : EventsHaveText events) (j : String) where
  departs-report_reading :
      (id : String) (r : Reading)
      → departs j (report_reading events id r) ≡ (closes events r && id == j)
  unfolding report_reading
  departs-report_reading id (message s) = elim (Bool-cases (s == "")) [
    | inl ended ↦ rw ended (ground arith)
    | inr more ↦ elim (Option-cases (events (wrapped s))) [
      | inl malformed ↦ rw (more, malformed) (ground arith)
      | inr (es, parsed) ↦
          rw (more, parsed) (departs-return_all j id es (full (wrapped s) es parsed))
    ]
  ]
  departs-report_reading id timed_out = refl
  departs-report_reading id would_block = refl
  departs-report_reading id disconnected = ground arith
  departs-report_reading id faulty = ground arith

  -- Whether the client of an entry is let go.
  abbrev leaves : ℕ → (ℕ → List Recv) → Option Entry → Bool
  leaves rounds reads none = false
  leaves rounds reads (some e) = closes events (recv_until rounds (reads e.sock))

  departs-monitor :
      (rounds : ℕ) (reads : ℕ → List Recv) (clients : Clients)
      → IsDict clients
      → departs j (monitor_for_data events rounds reads clients)
        ≡ leaves rounds reads (lookup j clients)
  unfolding monitor_for_data lookup
  departs-monitor rounds reads [] h = refl
  departs-monitor rounds reads ((id, e) ∷ rest) (fresh, h) =
      let reading = recv_until rounds (reads e.sock) in
      ground (
        arith,
        departs-append j (report_reading events id reading)
            (monitor_for_data events rounds reads rest),
        departs-report_reading id reading,
        departs-monitor rounds reads rest h,
        eq_iff id j,
        fresh,
      )

-- The entry of a client after a pass, from its entry before.
abbrev pub survives :
    (String → Option (List String)) → ℕ → (ℕ → List Recv) → Option Entry → Option Entry
survives events rounds reads none = none
survives events rounds reads (some e) =
    if closes events (recv_until rounds (reads e.sock)) then none else some e

-- One pass over the clients and the handling of all that it received, where the xml parser answers
-- with events that are not empty: a client stays, with its entry, exactly if the read of its own
-- socket ended in a timeout, in EWOULDBLOCK, or in a document of events. An end of the stream, a
-- document that is not well formed, a connection that is gone and any other exception disconnect the
-- client that they are about, and no other.
pub pass_survives :
    (events : String → Option (List String)) (env : Environment) (rounds : ℕ)
    (reads : ℕ → List Recv) (s : Service) (j : String)
    → EventsHaveText events
    → IsDict s.clients
    → lookup j (handle_regular_data env (monitor_for_data events rounds reads s.clients) s).clients
      ≡ survives events rounds reads (lookup j s.clients)
pass_survives events env rounds reads s j full dict =
    handle_regular_data_clients env j (monitor_for_data events rounds reads s.clients) s
    ∙ ground (arith, departs-monitor events full j rounds reads s.clients dict)
