-- ===== src/ServiceManager/Commands/Waited.antt =====
-- What stop_rest_api_service waits for.
use free_tak_server.Base.{
  ℕ, zero, suc, ◌+◌, ◌-◌, ◌≤◌, String, true, Option, none, some, List, [], ◌∷◌, ◌++◌, ◌≡◌, refl,
  ◌∙◌, sym, ap, length, length-append, arith, List-cases, inl, inr, if◌then◌else◌,
}
use mathlib.Core.Path.{subst}
use free_tak_server.Base.Actions.{Action}
use free_tak_server.ServiceManager.Commands.{
  Command, CommandThread, CommandEvent, arrives, goes_on, take_command, joined, command_round,
  run_events, stop_receive_rest,
}
use free_tak_server.ServiceManager.Commands.Served.{
  arrived, IsRunning, process_command-pending, command_round-first, command_round-take_command,
  run_events-process_all,
}

-- The thread goes on `n` times.
abbrev pub turns : {A T : Type 0} → ℕ → List (CommandEvent A T)
turns zero = []
turns (suc n) = goes_on ∷ turns n

module _ {S A T R : Type 0}
    (methods : String → Option (Option A → Action (S × Option (List T)) R)) where
  pub run_events-append :
      (es fs : List (CommandEvent A T)) (s : CommandThread S A T R)
      → run_events methods (es ++ fs) s ≡ run_events methods fs (run_events methods es s)
  unfolding run_events
  run_events-append [] fs s = refl
  run_events-append (arrives c ∷ es) fs s = run_events-append es fs _
  run_events-append (goes_on ∷ es) fs s = run_events-append es fs _

  length-command_round :
      (s : CommandThread S A T R)
      → IsRunning s
      → (length ((command_round methods s).pending) ≤ length s.pending - 1)
        × IsRunning (command_round methods s)
  length-command_round s h = elim (List-cases s.pending) [
    | inl p ↦
        subst (IsShorter (length s.pending)) (sym (command_round-take_command methods s [] h p))
          (rw p (ground arith), h)
    | inr (c, cs, p) ↦
        let (q, k, e) = process_command-pending methods c [] s in
        subst (IsShorter (length s.pending)) (sym (command_round-first methods c cs s h p))
          (rw p (ground arith), (k ∙ h.0, e ∙ h.1))
  ]
    where
      IsShorter : ℕ → CommandThread S A T R → Type 0
      IsShorter n t = (length t.pending ≤ n - 1) × IsRunning t

  pub run_events-turns :
      (n : ℕ) (s : CommandThread S A T R)
      → IsRunning s
      → length s.pending ≤ n
      → ((run_events methods (turns n) s).pending ≡ []) × IsRunning (run_events methods (turns n) s)
  unfolding run_events
  run_events-turns zero s h short = (nil s.pending short, h)
    where
      nil : (l : List (Command A T)) → length l ≤ 0 → l ≡ []
      nil [] k = refl
      nil (x ∷ xs) k = ground arith
  run_events-turns (suc n) s h short =
      let (l, i) = length-command_round s h in
      run_events-turns n (command_round methods s) i (ground arith)

  pub length-run_events :
      (es : List (CommandEvent A T)) (s : CommandThread S A T R) (n : ℕ)
      → IsRunning s
      → length s.pending + length (arrived es) ≤ n
      → length ((run_events methods es s).pending) ≤ n
  unfolding run_events
  length-run_events [] s n h short = ground arith
  length-run_events (arrives c ∷ es) s n h short =
      length-run_events es (record s { pending = s.pending ++ c ∷ [] }) n h
        (rw (length-append s.pending (c ∷ [])) (ground arith))
  length-run_events (goes_on ∷ es) s n h short =
      let (l, i) = length-command_round s h in
      length-run_events es (command_round methods s) n i (ground arith)

  stop_receive_rest-none :
      (s : CommandThread S A T R)
      → IsRunning s
      → s.pending ≡ []
      → stop_receive_rest methods s ≡ none
  unfolding stop_receive_rest command_round
  stop_receive_rest-none s (k, e) p =
      let t = record s { killed = true } in
      ap (joined methods) (
        ap (λ b. if b then t else take_command methods t.pending t) e
        ∙ ap (λ l. take_command methods l t) p)
      ∙ ap (λ b. if b then some t else none) e

  -- Whatever commands come, in whatever order with the rounds of the thread: once it has had as many
  -- further rounds as commands waited or came, the stop of the REST service does not return.
  pub stop_receive_rest-waits :
      (es : List (CommandEvent A T)) (n : ℕ) (s : CommandThread S A T R)
      → IsRunning s
      → length s.pending + length (arrived es) ≤ n
      → stop_receive_rest methods (run_events methods (es ++ turns n) s) ≡ none
  stop_receive_rest-waits es n s h short =
      let t = run_events methods es s in
      let (_, i) = run_events-process_all methods es s h in
      let (p, j) = run_events-turns n t i (length-run_events es s n h short) in
      rw (run_events-append es (turns n) s)
        (stop_receive_rest-none (run_events methods (turns n) t) j p)
