-- ===== src/ServiceManager/Stopping/Ended.antt =====
-- What the calls that end a running process change. The calls are of an attribute `o`.
use free_tak_server.Base.{ℕ, false, Option, some, List, ◌≡◌, refl, returns, nat_eq, nat_eq_refl, ⊤}
use free_tak_server.ServiceManager.State.{
  Pipe, queue, manager, Process, Fts, Run, running, exited, terminate, join_process, clear_event,
  close_pipe,
}
use free_tak_server.ServiceManager.Stopping.{end_process}

-- It returns, the process has ended, and nothing else is changed.
abbrev pub Ended : Run ⊤ → Fts → ℕ → Type 0
Ended end s i =
    (ps : ℕ → Process) × (end s ≡ (returns tt, record s { processes = ps }))
    × ((ps i).phase ≡ exited)
    × ((j : ℕ) → nat_eq i j ≡ false → ps j ≡ s.processes j)

pub terminate-Ended :
    (s : Fts) (o : Option ℕ) (i : ℕ)
    → o ≡ some i
    → (s.processes i).phase ≡ running
    → Ended (terminate o) s i
unfolding terminate
terminate-Ended s o i a h = rw (a, h) (_, refl, rw nat_eq_refl refl, λ j n. rw n refl)

pub join_process-exited :
    (s : Fts) (o : Option ℕ) (i : ℕ)
    → o ≡ some i
    → (s.processes i).phase ≡ exited
    → join_process o s ≡ (returns tt, s)
unfolding join_process
join_process-exited s o i a h = rw (a, h) refl

pub end_process-Ended :
    (s : Fts) (o : Option ℕ) (i : ℕ)
    → o ≡ some i
    → (s.processes i).phase ≡ running
    → Ended (end_process o) s i
unfolding end_process
end_process-Ended s o i a h =
    let (ps, e, x, k) = terminate-Ended s o i a h in
    rw (a, h)
      (rw⁻¹ a (rw (e, join_process-exited (record s { processes = ps }) o i a x) (ps, refl, x, k)))

pub clear_event-returns :
    (s : Fts) (o : Option ℕ) (e : ℕ)
    → o ≡ some e
    → (es : List ℕ) × (clear_event o s ≡ (returns tt, record s { set_events = es }))
unfolding clear_event
clear_event-returns s o e a = rw a (_, refl)

pub close_pipe-returns :
    (s : Fts) (o : Option Pipe) (p : Pipe)
    → o ≡ some p
    → (qs : List ℕ) × (close_pipe o s ≡ (returns tt, record s { closed = qs }))
unfolding close_pipe
close_pipe-returns s o (queue q) a = rw a (_, refl)
close_pipe-returns s o (manager q r) a = rw a (_, refl)
