-- ===== src/ServiceManager/Commands.antt =====
-- FreeTAKServer/controllers/services/FTS.py: receive_Rest_commands, the thread that does what the
-- REST service asks for, and the end of stop_rest_api_service, which waits for that thread.
pub mod Served
pub mod Waited
pub mod Replied
mod Examples
use free_tak_server.Base.{
  ℕ, String, Bool, true, false, Option, none, some, List, [], ◌∷◌, ◌++◌, Outcome, returns, raised,
  Exn, attribute_error, type_error, ⊤, if◌then◌else◌,
}
use free_tak_server.Base.Actions.{Action}

-- What the REST service puts into its queue: a tuple is for the federation client, a list names a
-- method and its argument; None, which a `get` gives that failed, and an empty list are no command.
pub data Command (A T : Type 0) : Type 0 where
  federation : T → Command A T
  call : String → Option A → Command A T
  no_command : Command A T

-- An output of a method, or "500".
pub data Answer (R : Type 0) : Type 0 where
  output : R → Answer R
  internal_error : Answer R

-- `S` is the state of the server that the methods change, with the pipe to the federation client;
-- none stands for a pipe that is not there. `answers` is what has been put into the one queue of
-- `RestAPICommandsFTS`, and `pending` what has not been taken from the other.
pub record CommandThread (S A T R : Type 0) : Type 0 where
  pub server : S
  pub federation_pipe : Option (List T)
  pub pending : List (Command A T)
  pub answers : List (Answer R)
  pub killed : Bool
  pub ended : Bool

-- A command comes, or the thread goes on.
pub data CommandEvent (A T : Type 0) : Type 0 where
  arrives : Command A T → CommandEvent A T
  goes_on : CommandEvent A T

module _ {S A T R : Type 0}
    (methods : String → Option (Option A → Action (S × Option (List T)) R)) where
  abbrev put_answer : Answer R → CommandThread S A T R → CommandThread S A T R
  put_answer a s = record s { answers = s.answers ++ a ∷ [] }

  -- An exception, of the method too, is answered with "500".
  abbrev reply : Outcome R × (S × Option (List T)) → CommandThread S A T R → CommandThread S A T R
  reply (returns r, t) s = put_answer (output r) (record s { server = t.0; federation_pipe = t.1 })
  reply (raised e, t) s =
      put_answer internal_error (record s { server = t.0; federation_pipe = t.1 })

  -- `getattr(self, command[0])` and the call.
  abbrev call_method :
      Option (Option A → Action (S × Option (List T)) R)
      → Option A
      → CommandThread S A T R
      → CommandThread S A T R
  call_method none a s = put_answer internal_error s
  call_method (some function) a s = reply (function a (s.server, s.federation_pipe)) s

  abbrev pass_on : T → Option (List T) → CommandThread S A T R → CommandThread S A T R
  pass_on t none s = put_answer internal_error s
  pass_on t (some q) s = record s { federation_pipe = some (q ++ t ∷ []) }

  unfoldable pub process_command : Command A T → CommandThread S A T R → CommandThread S A T R
  process_command (federation t) s = pass_on t s.federation_pipe s
  process_command (call name a) s = call_method (methods name) a s
  process_command no_command s = put_answer internal_error s

  abbrev pub take_command : List (Command A T) → CommandThread S A T R → CommandThread S A T R
  take_command [] s = s
  take_command (c ∷ cs) s =
      let t = process_command c (record s { pending = cs }) in record t { ended = t.killed }

  -- A round of the loop, from `get` to the test of the event, which ends it once the event is set.
  -- Without a command it waits in `get`.
  unfoldable pub command_round : CommandThread S A T R → CommandThread S A T R
  command_round s = if s.ended then s else take_command s.pending s

  -- `stop_rest_api_service` from `receive_Rest_stopper.set()` on. The process of the service, which
  -- alone puts commands, has ended before, and the thread is in `get`. none stands for a
  -- `receive_Rest.join()` that does not return.
  abbrev joined : CommandThread S A T R → Option (CommandThread S A T R)
  joined s = if s.ended then some s else none

  unfoldable pub stop_receive_rest : CommandThread S A T R → Option (CommandThread S A T R)
  unfolding command_round
  stop_receive_rest s = joined (command_round (record s { killed = true }))

  abbrev take_event : CommandEvent A T → CommandThread S A T R → CommandThread S A T R
  take_event (arrives c) s = record s { pending = s.pending ++ c ∷ [] }
  take_event goes_on s = command_round s

  -- The commands come from another process, at any time.
  unfoldable pub run_events :
      List (CommandEvent A T) → CommandThread S A T R → CommandThread S A T R
  unfolding command_round
  run_events [] s = s
  run_events (e ∷ es) s = run_events es (take_event e s)
