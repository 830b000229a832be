-- ===== src/ServiceManager/Pipes/Drained.antt =====
-- How the rounds empty the queues of the sources.
use free_tak_server.Base.{
  ℕ, zero, suc, ◌-◌, ◌≤◌, String, ◌==◌, Bool, true, false, some, List, [], ◌∷◌, ◌≡◌, refl, ◌∙◌, sym,
  ap, nat_eq, nat_eq_refl, if◌then◌else◌, append-nil, Bool-cases, inl, inr, length, arith, ◌&&◌,
  not,
}
use mathlib.Core.Option.{some-injective}
use mathlib.Core.Path.{subst}
use free_tak_server.Base.Dict.{Dict, lookup}
use free_tak_server.Base.Dict.Items.{AllItems}
use free_tak_server.ServiceManager.Queues.{QueueManager, on_hand}
use free_tak_server.ServiceManager.Queues.Same.{nat_eq-equal}
use free_tak_server.ServiceManager.Pipes.{PipeData, Exchange, check_pipe, check_each, check_pipes}
use free_tak_server.ServiceManager.Pipes.Sent.{copies, all_copies}
use free_tak_server.ServiceManager.Pipes.Shared.{
  first, rest_of, left_of, told, IsLike, check_pipe-copies, check_pipe-IsLike,
}

-- No pipe of the dictionary puts into the queue.
abbrev pub IsQuiet : ℕ → Dict QueueManager → Type 0
IsQuiet q = AllItems λ name pipe. nat_eq pipe.sender_queue q ≡ false

-- How many pipes of the dictionary listen at the queue.
abbrev pub looks : ℕ → Dict QueueManager → ℕ
looks q [] = 0
looks q ((name, pipe) ∷ d) = if nat_eq pipe.listener_queue q then suc (looks q d) else looks q d

looks-lookup :
    (name : String) (pipe : QueueManager) (d : Dict QueueManager)
    → lookup name d ≡ some pipe
    → 1 ≤ looks pipe.listener_queue d
unfolding lookup
looks-lookup name pipe [] h = ground arith
looks-lookup name pipe ((k, p) ∷ d) h = elim (Bool-cases (k == name)) [
  | inl same ↦ here (some-injective p pipe (rw (lookup, same) at h))
  | inr other ↦ later (looks-lookup name pipe d (rw (lookup, other) at h))
]
  where
    later : 1 ≤ looks pipe.listener_queue d → 1 ≤ looks pipe.listener_queue ((k, p) ∷ d)
    later h = ground arith

    here : p ≡ pipe → 1 ≤ looks pipe.listener_queue ((k, p) ∷ d)
    here e =
        rw
          (ap (λ m. nat_eq m.listener_queue pipe.listener_queue) e
            ∙ nat_eq_refl pipe.listener_queue)
          (ground arith)

-- How many items a round takes from the queue.
abbrev taken : (ℕ → Bool) → ℕ → Dict QueueManager → ℕ
taken late q d = if late q then 0 else looks q d

-- The rounds in which the items of the queue do not come late.
abbrev pub prompt : ℕ → List (ℕ → Bool) → ℕ
prompt q [] = 0
prompt q (late ∷ rounds) = if late q then prompt q rounds else suc (prompt q rounds)

module _ {X : Type 0} where
  -- The pipes of the dictionary listen at open queues.
  abbrev pub AllOpen : Dict QueueManager → Exchange X → Type 0
  AllOpen d s = AllItems (λ name pipe. s.queues.is_open pipe.listener_queue ≡ true) d

  pub AllOpen-IsLike :
      (d : Dict QueueManager) (s t : Exchange X) → IsLike t s → AllOpen d s → AllOpen d t
  AllOpen-IsLike [] s t like h = tt
  AllOpen-IsLike ((name, pipe) ∷ d) s t like (o, h) =
      (like.2 pipe.listener_queue ∙ o, AllOpen-IsLike d s t like h)

  copies-IsQuiet :
      (opened : Bool) (q : ℕ) (d : Dict QueueManager) (x : X) (origin : String)
      → IsQuiet q d
      → copies opened q d x origin ≡ []
  copies-IsQuiet opened q [] x origin h = refl
  copies-IsQuiet opened q ((name, pipe) ∷ d) x origin (i, h) =
      rw i (unsent opened (not (name == origin)) _ _ (copies-IsQuiet opened q d x origin h))
    where
      unsent :
          (a b : Bool) (l m : List (PipeData X)) → l ≡ [] → (if a && b && false then m else l) ≡ []
      unsent true true l m e = e
      unsent true false l m e = e
      unsent false b l m e = e

  pub all_copies-IsQuiet :
      (opened : Bool) (q : ℕ) (d : Dict QueueManager) (xs : List X) (origin : String)
      → IsQuiet q d
      → all_copies opened q d xs origin ≡ []
  all_copies-IsQuiet opened q d [] origin h = refl
  all_copies-IsQuiet opened q d (x ∷ xs) origin h =
      rw (copies-IsQuiet opened q d x origin h, all_copies-IsQuiet opened q d xs origin h) refl

  abbrev pub drop_first : ℕ → List (PipeData X) → List (PipeData X)
  drop_first zero xs = xs
  drop_first (suc n) xs = drop_first n (rest_of xs)

  length-drop_first :
      (k n : ℕ) (xs : List (PipeData X)) → length xs ≤ n → length (drop_first k xs) ≤ n - k
  length-drop_first zero n xs h = ground arith
  length-drop_first (suc k) n [] h = ground (arith, length-drop_first k (n - 1) [] (ground arith))
  length-drop_first (suc k) n (x ∷ xs) h =
      ground (arith, length-drop_first k (n - 1) xs (ground arith))

  pub check_pipe-IsQuiet :
      (late : ℕ → Bool) (name : String) (pipe : QueueManager) (s : Exchange X) (q : ℕ)
      → IsQuiet q s.group.receivers
      → s.queues.is_open pipe.listener_queue ≡ true
      → (check_pipe late name pipe s).queues.contents q ≡ (
          if nat_eq pipe.listener_queue q
          then left_of (late q) (s.queues.contents q)
          else s.queues.contents q)
  check_pipe-IsQuiet late name pipe s q quiet h =
      let p = pipe.listener_queue in
      let (c, _) = check_pipe-copies late name pipe s q h in
      let none =
        all_copies-IsQuiet (s.queues.is_open q) q s.group.receivers
          (told s.presences (first (on_hand (late p) (s.queues.contents p)))) name quiet in
      c
      ∙ rw none (elim (Bool-cases (nat_eq p q)) [
        | inl t ↦
            rw t (append-nil _ ∙ ap (λ r. left_of (late r) (s.queues.contents r)) (nat_eq-equal t))
        | inr t ↦ rw t (append-nil _)
      ])

  pub check_each-IsLike :
      (late : ℕ → Bool) (d : Dict QueueManager) (s : Exchange X)
      → AllOpen d s
      → IsLike (check_each late d s) s
  unfolding check_each
  check_each-IsLike late [] s h = (refl, refl, λ q. refl)
  check_each-IsLike late ((name, pipe) ∷ d) s (o, h) =
      let t = check_pipe late name pipe s in
      let like = check_pipe-IsLike late name pipe s o in
      let (a, b, c) = check_each-IsLike late d t (AllOpen-IsLike d s t like h) in
      (a ∙ like.0, b ∙ like.1, λ q. c q ∙ like.2 q)

  check_each-drop_first :
      (late : ℕ → Bool) (d : Dict QueueManager) (s : Exchange X) (q : ℕ)
      → IsQuiet q s.group.receivers
      → AllOpen d s
      → (check_each late d s).queues.contents q ≡ drop_first (taken late q d) (s.queues.contents q)
  unfolding check_each
  check_each-drop_first late [] s q quiet h = elim (Bool-cases (late q)) [
    | inl l ↦ rw l refl
    | inr l ↦ rw l refl
  ]
  check_each-drop_first late ((name, pipe) ∷ d) s q quiet (o, h) =
      let t = check_pipe late name pipe s in
      let like = check_pipe-IsLike late name pipe s o in
      let here = check_pipe-IsQuiet late name pipe s q quiet o in
      let rest =
        check_each-drop_first late d t q (subst (λ g. IsQuiet q g.receivers) (sym like.0) quiet)
          (AllOpen-IsLike d s t like h) in
      rest
      ∙ ap (drop_first (taken late q d)) here
      ∙ taken-first (late q) (nat_eq pipe.listener_queue q) (looks q d) (s.queues.contents q)
    where
      taken-first :
          (l e : Bool) (n : ℕ) (xs : List (PipeData X))
          → drop_first (if l then 0 else n) (if e then left_of l xs else xs)
            ≡ drop_first (if l then 0 else if e then suc n else n) xs
      taken-first true true n xs = refl
      taken-first true false n xs = refl
      taken-first false true n xs = refl
      taken-first false false n xs = refl

  shortened :
      (l : Bool) (k n : ℕ) (xs : List (PipeData X))
      → 1 ≤ k
      → length xs ≤ (if l then n else suc n)
      → length (drop_first (if l then 0 else k) xs) ≤ n
  shortened true k n xs some_look short = short
  shortened false k n xs some_look short = ground (arith, length-drop_first k (suc n) xs short)

  -- If no receiver puts into the queue of a source, and the queues of all the sources are open, and
  -- nothing more comes in, then the rounds empty the queue of the source, if what it holds is not
  -- late in as many of them as it holds items, whatever the other sources hold and whatever is late
  -- of theirs.
  pub check_pipes-IsDrained :
      (rounds : List (ℕ → Bool)) (s : Exchange X) (name : String) (pipe : QueueManager)
      → lookup name s.group.sources ≡ some pipe
      → IsQuiet pipe.listener_queue s.group.receivers
      → AllOpen s.group.sources s
      → length (s.queues.contents pipe.listener_queue) ≤ prompt pipe.listener_queue rounds
      → (check_pipes rounds s).queues.contents pipe.listener_queue ≡ []
  unfolding check_pipes
  check_pipes-IsDrained [] s name pipe found quiet h short =
      drop_first-nil (s.queues.contents pipe.listener_queue) short
    where
      drop_first-nil : (xs : List (PipeData X)) → length xs ≤ 0 → xs ≡ []
      drop_first-nil [] h = refl
      drop_first-nil (x ∷ xs) h = ground arith
  check_pipes-IsDrained (late ∷ rounds) s name pipe found quiet h short =
      let p = pipe.listener_queue in
      let t = check_each late s.group.sources s in
      let like = check_each-IsLike late s.group.sources s h in
      let opened = AllOpen-IsLike s.group.sources s t like h in
      let once = check_each-drop_first late s.group.sources s p quiet h in
      check_pipes-IsDrained rounds t name pipe (ap (λ g. lookup name g.sources) like.0 ∙ found)
        (subst (λ g. IsQuiet p g.receivers) (sym like.0) quiet)
        (subst (λ g. AllOpen g.sources t) (sym like.0) opened)
        (rw once (
          shortened (late p) (looks p s.group.sources) (prompt p rounds) (s.queues.contents p)
            (looks-lookup name pipe s.group.sources found) short))
