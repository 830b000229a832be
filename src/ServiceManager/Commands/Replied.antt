-- ===== src/ServiceManager/Commands/Replied.antt =====
-- What the REST service is answered, and what its commands do.
use free_tak_server.Base.{
  ℕ, zero, suc, ◌+◌, ◌≤◌, String, Option, none, some, List, [], ◌∷◌, ◌++◌, ◌≡◌, refl, ◌∙◌, sym, ap,
  length, append-nil, append_assoc, Outcome, returns, raised, attribute_error, Option-cases, inl,
  inr,
}
use free_tak_server.Base.Actions.{Action}
use free_tak_server.ServiceManager.Commands.{
  Command, federation, call, no_command, Answer, output, internal_error, CommandThread,
  CommandEvent, arrives, goes_on, reply, call_method, process_command, run_events,
}
use free_tak_server.ServiceManager.Commands.Served.{
  arrived, IsRunning, with_pending, process_all, run_events-process_all,
}
use free_tak_server.ServiceManager.Commands.Waited.{
  turns, run_events-append, run_events-turns, length-run_events,
}

abbrev pub answer_to : {R : Type 0} → Outcome R → Answer R
answer_to (returns r) = output r
answer_to (raised e) = internal_error

arrived-turns :
    {A T : Type 0} (es : List (CommandEvent A T)) (n : ℕ) → arrived (es ++ turns n) ≡ arrived es
arrived-turns [] zero = refl
arrived-turns [] (suc n) = arrived-turns [] n
arrived-turns (arrives c ∷ es) n = ap (λ cs. c ∷ cs) (arrived-turns es n)
arrived-turns (goes_on ∷ es) n = arrived-turns es n

module _ {S A T R : Type 0} where
  -- The server with the pipe to the federation client.
  abbrev pub run_method :
      Option (Option A → Action (S × Option (List T)) R) → Option A → Action (S × Option (List T)) R
  run_method none a s = (raised attribute_error, s)
  run_method (some function) a s = function a s

module _ {S A T R : Type 0}
    (methods : String → Option (Option A → Action (S × Option (List T)) R)) where
  -- The answers to the commands in their order, and the state after them: a call of a method is
  -- answered with its output, or with "500" if it raises or there is no such method; what is no
  -- command is answered with "500"; a message to the federation client goes to the end of the pipe
  -- and has no answer, and has "500" for an answer if there is no pipe.
  abbrev pub replies :
      List (Command A T) → S × Option (List T) → List (Answer R) × (S × Option (List T))
  replies [] s = ([], s)
  replies (no_command ∷ cs) s = let r = replies cs s in (internal_error ∷ r.0, r.1)
  replies (federation t ∷ cs) (v, none) =
      let r = replies cs (v, none) in (internal_error ∷ r.0, r.1)
  replies (federation t ∷ cs) (v, some q) = replies cs (v, some (q ++ t ∷ []))
  replies (call name a ∷ cs) s =
      let o = run_method (methods name) a s in let r = replies cs o.1 in (answer_to o.0 ∷ r.0, r.1)

  abbrev state : CommandThread S A T R → S × Option (List T)
  state s = (s.server, s.federation_pipe)

  abbrev pub HasReplied :
      List (Command A T) → CommandThread S A T R → CommandThread S A T R → Type 0
  HasReplied cs s t =
      (t.answers ≡ s.answers ++ (replies cs (s.server, s.federation_pipe)).0)
      × ((t.server, t.federation_pipe) ≡ (replies cs (s.server, s.federation_pipe)).1)

  -- How the answer of one command comes before those of the others.
  abbrev IsFirst :
      List (Command A T)
      → CommandThread S A T R
      → Outcome R × (S × Option (List T))
      → CommandThread S A T R
      → Type 0
  IsFirst cs s d u =
      ((process_all methods cs u).answers ≡ s.answers ++ answer_to d.0 ∷ (replies cs d.1).0)
      × (state (process_all methods cs u) ≡ (replies cs d.1).1)

  module _ (cs : List (Command A T)) (s : CommandThread S A T R)
      (ih : (u : CommandThread S A T R) → HasReplied cs u (process_all methods cs u)) where
    after-reply : (d : Outcome R × (S × Option (List T))) → IsFirst cs s d (reply methods d s)
    after-reply (returns r, t) =
        let (b, p) = ih (reply methods (returns r, t) s) in
        (b ∙ append_assoc s.answers (output r ∷ []) _, p)
    after-reply (raised e, t) =
        let (b, p) = ih (reply methods (raised e, t) s) in
        (b ∙ append_assoc s.answers (internal_error ∷ []) _, p)

    after-call_method :
        (a : Option A) (o : Option (Option A → Action (S × Option (List T)) R))
        → IsFirst cs s (run_method o a (state s)) (call_method methods o a s)
    after-call_method a none =
        let (b, p) = ih (call_method methods none a s) in
        (b ∙ append_assoc s.answers (internal_error ∷ []) _, p)
    after-call_method a (some function) = after-reply (function a (state s))

  process_all-HasReplied :
      (cs : List (Command A T)) (s : CommandThread S A T R)
      → HasReplied cs s (process_all methods cs s)
  unfolding process_command
  process_all-HasReplied [] s = (sym (append-nil s.answers), refl)
  process_all-HasReplied (no_command ∷ cs) s =
      let (a, p) = process_all-HasReplied cs (process_command methods no_command s) in
      (a ∙ append_assoc s.answers (internal_error ∷ []) _, p)
  process_all-HasReplied (federation t ∷ cs) s = elim (Option-cases s.federation_pipe) [
    | inl e ↦
        let (a, p) =
          rw e at
            (process_all-HasReplied cs (record s { answers = s.answers ++ internal_error ∷ [] })) in
        rw e (a ∙ append_assoc s.answers (internal_error ∷ []) _, p)
    | inr (q, e) ↦
        rw e (process_all-HasReplied cs (record s { federation_pipe = some (q ++ t ∷ []) }))
  ]
  process_all-HasReplied (call name a ∷ cs) s =
      after-call_method cs s (process_all-HasReplied cs) a (methods name)

  -- Whatever commands come, in whatever order with the rounds of the thread: once it has had as many
  -- further rounds as commands waited or came, and while it is not told to end, all are done. The
  -- answers are those to the commands in the order in which they came, one to each but for the
  -- messages that went to the federation client, and the server and the pipe to the federation
  -- client are as the commands, one after the other, leave them.
  pub run_events-replies :
      (es : List (CommandEvent A T)) (n : ℕ) (s : CommandThread S A T R)
      → IsRunning s
      → length s.pending + length (arrived es) ≤ n
      → ((run_events methods (es ++ turns n) s).pending ≡ [])
        × HasReplied (s.pending ++ arrived es) s (run_events methods (es ++ turns n) s)
  run_events-replies es n s h short =
      let u = run_events methods es s in
      let t = run_events methods (es ++ turns n) s in
      let (_, i) = run_events-process_all methods es s h in
      let (empty, _) = run_events-turns methods n u i (length-run_events methods es s n h short) in
      let drained = ap (λ v. v.pending) (run_events-append methods es (turns n) s) ∙ empty in
      let (same, _) = run_events-process_all methods (es ++ turns n) s h in
      let (a, p) = process_all-HasReplied (s.pending ++ arrived es) (with_pending [] s) in
      let all : with_pending [] t
          ≡ process_all methods (s.pending ++ arrived es) (with_pending [] s) =
        rw (drained, arrived-turns es n) at same in
      (drained, (ap (λ v. v.answers) all ∙ a, ap state all ∙ p))
