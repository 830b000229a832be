-- ===== src/ServiceManager/Commands/Served.antt =====
-- The order in which commands are done.
use free_tak_server.Base.{
  String, false, Option, List, [], ◌∷◌, ◌++◌, ◌≡◌, refl, ◌∙◌, sym, ap, append-nil, append_assoc,
  if◌then◌else◌, Option-cases, Outcome-cases, List-cases, inl, inr,
}
use mathlib.Core.Path.{subst}
use free_tak_server.Base.Actions.{Action}
use free_tak_server.ServiceManager.Commands.{
  Command, federation, call, no_command, CommandThread, CommandEvent, arrives, goes_on,
  process_command, take_command, command_round, run_events,
}

abbrev pub arrived : {A T : Type 0} → List (CommandEvent A T) → List (Command A T)
arrived [] = []
arrived (arrives c ∷ es) = c ∷ arrived es
arrived (goes_on ∷ es) = arrived es

module _ {S A T R : Type 0} where
  abbrev pub with_pending : List (Command A T) → CommandThread S A T R → CommandThread S A T R
  with_pending cs s = record s { pending = cs }

  -- The thread has not been told to end and has not ended.
  abbrev pub IsRunning : CommandThread S A T R → Type 0
  IsRunning s = (s.killed ≡ false) × (s.ended ≡ false)

module _ {S A T R : Type 0}
    (methods : String → Option (Option A → Action (S × Option (List T)) R)) where
  -- The commands done one after the other.
  abbrev pub process_all : List (Command A T) → CommandThread S A T R → CommandThread S A T R
  process_all [] s = s
  process_all (c ∷ cs) s = process_all cs (process_command methods c s)

  pub process_command-pending :
      (c : Command A T) (cs : List (Command A T)) (s : CommandThread S A T R)
      → (process_command methods c (with_pending cs s)
          ≡ with_pending cs (process_command methods c s))
        × ((process_command methods c s).killed ≡ s.killed)
        × ((process_command methods c s).ended ≡ s.ended)
  unfolding process_command
  process_command-pending (federation t) cs s = elim (Option-cases s.federation_pipe) [
    | inl e ↦ rw e (refl, refl, refl)
    | inr (q, e) ↦ rw e (refl, refl, refl)
  ]
  process_command-pending no_command cs s = (refl, refl, refl)
  process_command-pending (call name a) cs s = elim (Option-cases (methods name)) [
    | inl e ↦ rw e (refl, refl, refl)
    | inr (function, e) ↦ elim (Outcome-cases ((function a (s.server, s.federation_pipe)).0)) [
      | inl (r, o) ↦ rw (e, o) (refl, refl, refl)
      | inr (x, o) ↦ rw (e, o) (refl, refl, refl)
    ]
  ]

  pub command_round-take_command :
      (s : CommandThread S A T R) (cs : List (Command A T))
      → IsRunning s
      → s.pending ≡ cs
      → command_round methods s ≡ take_command methods cs s
  unfolding command_round
  command_round-take_command s cs (k, e) p =
      ap (λ b. if b then s else take_command methods s.pending s) e
      ∙ ap (λ l. take_command methods l s) p

  pub command_round-first :
      (c : Command A T) (cs : List (Command A T)) (s : CommandThread S A T R)
      → IsRunning s
      → s.pending ≡ c ∷ cs
      → command_round methods s ≡ with_pending cs (process_command methods c s)
  command_round-first c cs s (k, e) p =
      let (q, kept, going) = process_command-pending c cs s in
      let done = with_pending cs (process_command methods c s) in
      command_round-take_command s (c ∷ cs) (k, e) p
      ∙ ap (λ (t : CommandThread S A T R). record t { ended = t.killed }) q
      ∙ ap (λ b. record done { ended = b }) (kept ∙ k ∙ sym e ∙ sym going)

  -- What is done and what still waits come to the same in both states.
  abbrev pub AsLater : CommandThread S A T R → CommandThread S A T R → Type 0
  AsLater s t =
      (process_all t.pending (with_pending [] t) ≡ process_all s.pending (with_pending [] s))
      × IsRunning t

  command_round-AsLater :
      (s : CommandThread S A T R) → IsRunning s → AsLater s (command_round methods s)
  command_round-AsLater s h = elim (List-cases s.pending) [
    | inl p ↦ subst (AsLater s) (sym (command_round-take_command s [] h p)) (refl, h)
    | inr (c, cs, p) ↦
        let (q, k, e) = process_command-pending c [] s in
        subst (AsLater s) (sym (command_round-first c cs s h p)) (
          ap (process_all cs) (sym q) ∙ ap (λ l. process_all l (with_pending [] s)) (sym p),
          (k ∙ h.0, e ∙ h.1),
        )
  ]

  process_all-append :
      (cs ds : List (Command A T)) (s : CommandThread S A T R)
      → process_all (cs ++ ds) s ≡ process_all ds (process_all cs s)
  process_all-append [] ds s = refl
  process_all-append (c ∷ cs) ds s = process_all-append cs ds (process_command methods c s)

  -- However the arrivals of commands and the rounds of the thread fall together, while the thread
  -- is not told to end: what it has done, followed by what still waits, is what the commands do one
  -- after the other in the order in which they came. Answers, messages to the federation client
  -- and the state of the server all agree, and the thread still runs.
  pub run_events-process_all :
      (es : List (CommandEvent A T)) (s : CommandThread S A T R)
      → IsRunning s
      → let t = run_events methods es s in
        (process_all t.pending (with_pending [] t)
          ≡ process_all (s.pending ++ arrived es) (with_pending [] s))
        × IsRunning t
  unfolding run_events
  run_events-process_all [] s h = (rw (append-nil s.pending) refl, h)
  run_events-process_all (arrives c ∷ es) s h =
      let (e, i) = run_events-process_all es (record s { pending = s.pending ++ c ∷ [] }) h in
      (e ∙ rw (append_assoc s.pending (c ∷ []) (arrived es)) refl, i)
  run_events-process_all (goes_on ∷ es) s h =
      let t = command_round methods s in
      let (p, i) = command_round-AsLater s h in
      let (q, j) = run_events-process_all es t i in
      (
        q
            ∙ process_all-append t.pending (arrived es) (with_pending [] t)
            ∙ ap (process_all (arrived es)) p
            ∙ sym (process_all-append s.pending (arrived es) (with_pending [] s)),
        j,
      )
