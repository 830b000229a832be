-- ===== src/ServiceManager/Commands/Examples.antt =====
-- Runs and instances of the theorems on the thread for the commands of the REST service, in
-- FreeTAKServer/controllers/services/FTS.py.
use free_tak_server.Base.{
  ℕ, ◌+◌, String, ◌==◌, false, Option, none, some, List, [], ◌∷◌, ◌++◌, ◌≡◌, refl, returns, raised,
  type_error, if◌then◌else◌, arith,
}
use free_tak_server.Base.Actions.{Action}
use free_tak_server.ServiceManager.Commands.{
  federation, call, CommandThread, CommandEvent, arrives, goes_on, output, internal_error,
  run_events, stop_receive_rest,
}
use free_tak_server.ServiceManager.Commands.Replied.{run_events-replies}
use free_tak_server.ServiceManager.Commands.Waited.{turns, stop_receive_rest-waits}

-- A method that counts its calls, and wants no argument.
abbrev count : Option ℕ → Action (ℕ × Option (List ℕ)) ℕ
count none (n, pipe) = (returns (n + 1), (n + 1, pipe))
count (some a) s = (raised type_error, s)

abbrev methods : String → Option (Option ℕ → Action (ℕ × Option (List ℕ)) ℕ)
methods name = if name == "count" then some count else none

abbrev asked : CommandThread ℕ ℕ ℕ ℕ
asked = record {
  server = 0;
  federation_pipe = some [];
  pending = call "count" none ∷ [];
  answers = [];
  killed = false;
  ended = false;
}

abbrev events : List (CommandEvent ℕ ℕ)
events =
    arrives (call "count" none)
    ∷ goes_on
    ∷ arrives (federation 7)
    ∷ arrives (call "count" (some 1))
    ∷ []

run_events-replies_example :
    let t = run_events methods (events ++ turns 4) asked in
    (t.pending ≡ [])
    × ((t.answers ≡ output 1 ∷ output 2 ∷ internal_error ∷ [])
        × (◌≡◌ {A = ℕ × Option (List ℕ)} (t.server, t.federation_pipe) (2, some (7 ∷ []))))
run_events-replies_example = run_events-replies methods events 4 asked (refl, refl) (omega arith)

stop_receive_rest-waits_example :
    stop_receive_rest methods
      (run_events methods (arrives (call "count" none) ∷ goes_on ∷ goes_on ∷ []) asked)
    ≡ none
stop_receive_rest-waits_example =
    stop_receive_rest-waits methods (arrives (call "count" none) ∷ []) 2 asked (refl, refl)
      (omega arith)
