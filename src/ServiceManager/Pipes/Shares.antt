-- ===== src/ServiceManager/Pipes/Shares.antt =====
-- One round over all the sources.
use free_tak_server.Base.{
  ℕ, ◌+◌, String, Bool, true, false, List, [], ◌∷◌, ◌++◌, ◌≡◌, refl, ◌∙◌, sym, ap, nat_eq,
  append-nil, append_assoc, arith,
}
use mathlib.Core.Path.{subst}
use free_tak_server.Base.Dict.{Dict}
use free_tak_server.Base.Dict.Items.{AllItems}
use free_tak_server.ServiceManager.Queues.{QueueManager, on_hand}
use free_tak_server.ServiceManager.Pipes.{PipeData, Exchange, check_pipe, check_each}
use free_tak_server.ServiceManager.Pipes.Sent.{all_copies}
use free_tak_server.ServiceManager.Pipes.Shared.{
  first, told, weight, check_pipe-copies, check_pipe-IsLike,
}
use free_tak_server.ServiceManager.Pipes.Drained.{
  IsQuiet, AllOpen, AllOpen-IsLike, check_pipe-IsQuiet,
}

-- No pipe of the dictionary listens at the queue.
abbrev pub IsUnread : ℕ → Dict QueueManager → Type 0
IsUnread q = AllItems λ name pipe. nat_eq pipe.listener_queue q ≡ false

-- The pipes listen at queues of their own, into which no receiver puts.
abbrev pub IsSeparate : Dict QueueManager → Dict QueueManager → Type 0
IsSeparate receivers [] = Unit
IsSeparate receivers ((name, pipe) ∷ d) =
    IsQuiet pipe.listener_queue receivers
    × AllItems (λ other next. nat_eq pipe.listener_queue next.listener_queue ≡ false) d
    × IsSeparate receivers d

module _ {X : Type 0} where
  -- What reaches the queue `q` in a round: for each source in turn the copies of what its first
  -- item says, and what all the first items count.
  abbrev pub arrivals :
      Dict QueueManager
      → List X
      → Bool
      → ℕ
      → (ℕ → List (PipeData X))
      → Dict QueueManager
      → List (PipeData X)
  arrivals receivers ps opened q held [] = []
  arrivals receivers ps opened q held ((name, pipe) ∷ d) =
      all_copies opened q receivers (told ps (first (held pipe.listener_queue))) name
      ++ arrivals receivers ps opened q held d

  abbrev pub weights : (ℕ → List (PipeData X)) → Dict QueueManager → ℕ
  weights held [] = 0
  weights held ((name, pipe) ∷ d) = weight (first (held pipe.listener_queue)) + weights held d

  abbrev HoldSame : (ℕ → List (PipeData X)) → (ℕ → List (PipeData X)) → Dict QueueManager → Type 0
  HoldSame held after = AllItems λ name pipe. after pipe.listener_queue ≡ held pipe.listener_queue

  arrivals-HoldSame :
      (receivers : Dict QueueManager) (ps : List X) (opened : Bool) (q : ℕ)
      (held after : ℕ → List (PipeData X)) (d : Dict QueueManager)
      → HoldSame held after d
      → (arrivals receivers ps opened q after d ≡ arrivals receivers ps opened q held d)
        × (weights after d ≡ weights held d)
  arrivals-HoldSame receivers ps opened q held after [] h = (refl, refl)
  arrivals-HoldSame receivers ps opened q held after ((name, pipe) ∷ d) (e, h) =
      let (a, w) = arrivals-HoldSame receivers ps opened q held after d h in
      (rw (e, a) refl, rw (e, w) refl)

  -- What can be taken from each queue in the round.
  abbrev pub at_hand : (ℕ → Bool) → Exchange X → ℕ → List (PipeData X)
  at_hand late s q = on_hand (late q) (s.queues.contents q)

  check_pipe-HoldSame :
      (late : ℕ → Bool) (name : String) (pipe : QueueManager) (s : Exchange X)
      (d : Dict QueueManager)
      → s.queues.is_open pipe.listener_queue ≡ true
      → AllItems (λ other next. nat_eq pipe.listener_queue next.listener_queue ≡ false) d
      → IsSeparate s.group.receivers d
      → HoldSame (at_hand late s) (at_hand late (check_pipe late name pipe s)) d
  check_pipe-HoldSame late name pipe s [] h apart sep = tt
  check_pipe-HoldSame late name pipe s ((k, p) ∷ d) h (e, apart) (quiet, _, sep) = (
    ap (on_hand (late p.listener_queue))
        (check_pipe-IsQuiet late name pipe s p.listener_queue quiet h ∙ rw e refl),
    check_pipe-HoldSame late name pipe s d h apart sep,
  )

  -- A round over the sources, whose queues are open, are no two the same and are no receiver's
  -- queue, whichever queues are late in it: a queue at which no source listens then holds what it
  -- held and after it, source by source in the order of the group, what the first item that can be
  -- taken from the source's queue says, once for each receiver that puts into the queue and has
  -- another name than the source; for a list that is its first object and the presences of all the
  -- users. `data_from_services` has grown by one for each object and by the length of each list.
  pub check_each-arrivals :
      (late : ℕ → Bool) (d : Dict QueueManager) (s : Exchange X) (q : ℕ)
      → AllOpen d s
      → IsSeparate s.group.receivers d
      → IsUnread q d
      → ((check_each late d s).queues.contents q
          ≡ s.queues.contents q
            ++ arrivals s.group.receivers s.presences (s.queues.is_open q) q (at_hand late s) d)
        × ((check_each late d s).data_from_services
            ≡ s.data_from_services + weights (at_hand late s) d)
  unfolding check_each
  check_each-arrivals late [] s q h sep unread =
      (sym (append-nil (s.queues.contents q)), ground arith)
  check_each-arrivals late ((name, pipe) ∷ d) s q (o, h) (quiet, apart, sep) (u, unread) =
      let t = check_pipe late name pipe s in
      let like = check_pipe-IsLike late name pipe s o in
      let (c, w) = check_pipe-copies late name pipe s q o in
      let (c', w') =
        check_each-arrivals late d t q (AllOpen-IsLike d s t like h)
          (subst (λ g. IsSeparate g.receivers d) (sym like.0) sep) unread in
      let (a, v) =
        arrivals-HoldSame s.group.receivers s.presences (s.queues.is_open q) q (at_hand late s)
          (at_hand late t) d (check_pipe-HoldSame late name pipe s d o apart sep) in
      let rest = arrivals s.group.receivers s.presences (s.queues.is_open q) q (at_hand late s) d in
      let here = first (at_hand late s pipe.listener_queue) in
      let sent = all_copies (s.queues.is_open q) q s.group.receivers (told s.presences here) name in
      let own = rw u at c in
      (
        c' ∙ rw (like.0, like.1, like.2 q, own, a) (append_assoc (s.queues.contents q) sent rest),
        w' ∙ rw (w, v) (ground arith),
      )
