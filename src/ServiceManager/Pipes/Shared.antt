-- ===== src/ServiceManager/Pipes/Shared.antt =====
-- What one look at one source does to every queue.
use free_tak_server.Base.{
  ℕ, ◌+◌, String, Bool, true, List, [], ◌∷◌, ◌++◌, ◌≡◌, refl, ◌∙◌, sym, nat_eq, if◌then◌else◌,
  append-nil, Bool-cases, inl, inr, length, arith, List-cases,
}
use free_tak_server.ServiceManager.Queues.{
  QueueManager, Queues, Got, got, nothing, waits, on_hand, get_data,
}
use free_tak_server.ServiceManager.Queues.Same.{same_contents}
use free_tak_server.ServiceManager.Pipes.{
  PipeData, zero_data, listing, single, Exchange, share, check_pipe,
}
use free_tak_server.ServiceManager.Pipes.Sent.{all_copies, send_each-copies}

module _ {X : Type 0} where
  -- The first item of a queue, the rest of it, what the receivers are told for an item, and what
  -- it counts.
  abbrev pub first : List (PipeData X) → Got (PipeData X)
  first [] = nothing
  first (x ∷ xs) = got x

  abbrev pub rest_of : List (PipeData X) → List (PipeData X)
  rest_of [] = []
  rest_of (x ∷ xs) = xs

  abbrev pub told : List X → Got (PipeData X) → List X
  told ps nothing = []
  told ps waits = []
  told ps (got zero_data) = []
  told ps (got (listing [])) = []
  told ps (got (listing (x ∷ xs))) = x ∷ ps
  told ps (got (single x)) = x ∷ []

  abbrev pub weight : Got (PipeData X) → ℕ
  weight nothing = 0
  weight waits = 0
  weight (got zero_data) = 0
  weight (got (listing xs)) = length xs
  weight (got (single x)) = 1

  -- The two states differ in the queues and the counter at most, and no queue is opened or closed.
  abbrev pub IsLike : Exchange X → Exchange X → Type 0
  IsLike s t =
      (s.group ≡ t.group)
      × (s.presences ≡ t.presences)
      × ((q : ℕ) → s.queues.is_open q ≡ t.queues.is_open q)

  pub share-copies :
      (name : String) (g : Got (PipeData X)) (s : Exchange X) (q : ℕ)
      → ((share name g s).queues.contents q
          ≡ s.queues.contents q
            ++ all_copies (s.queues.is_open q) q s.group.receivers (told s.presences g) name)
        × ((share name g s).data_from_services ≡ s.data_from_services + weight g)
  unfolding share
  share-copies name nothing s q = (sym (append-nil (s.queues.contents q)), ground arith)
  share-copies name waits s q = (sym (append-nil (s.queues.contents q)), ground arith)
  share-copies name (got zero_data) s q = (sym (append-nil (s.queues.contents q)), ground arith)
  share-copies name (got (listing [])) s q = (sym (append-nil (s.queues.contents q)), ground arith)
  share-copies name (got (listing (x ∷ xs))) s q =
      ((send_each-copies s.group.receivers (x ∷ s.presences) name s.queues q).0, refl)
  share-copies name (got (single x)) s q =
      ((send_each-copies s.group.receivers (x ∷ []) name s.queues q).0, refl)

  pub share-IsLike :
      (name : String) (g : Got (PipeData X)) (s : Exchange X) → IsLike (share name g s) s
  unfolding share
  share-IsLike name nothing s = (refl, refl, λ q. refl)
  share-IsLike name waits s = (refl, refl, λ q. refl)
  share-IsLike name (got zero_data) s = (refl, refl, λ q. refl)
  share-IsLike name (got (listing [])) s = (refl, refl, λ q. refl)
  share-IsLike name (got (listing (x ∷ xs))) s =
      (refl, refl, λ q. (send_each-copies s.group.receivers (x ∷ s.presences) name s.queues q).1)
  share-IsLike name (got (single x)) s =
      (refl, refl, λ q. (send_each-copies s.group.receivers (x ∷ []) name s.queues q).1)

  -- What a look leaves in a queue.
  abbrev pub left_of : Bool → List (PipeData X) → List (PipeData X)
  left_of late xs = if late then xs else rest_of xs

  get_data-contents :
      (late : ℕ → Bool) (m : QueueManager) (s : Queues (PipeData X)) (q : ℕ)
      → s.is_open m.listener_queue ≡ true
      → ((get_data late true m s).0
          ≡ first (on_hand (late m.listener_queue) (s.contents m.listener_queue)))
        × ((get_data late true m s).1.contents q ≡ (
            if nat_eq m.listener_queue q
            then left_of (late m.listener_queue) (s.contents m.listener_queue)
            else s.contents q))
        × ((get_data late true m s).1.is_open q ≡ s.is_open q)
  unfolding get_data
  get_data-contents late m s q h = elim (Bool-cases (late m.listener_queue)) [
    | inl l ↦ elim (Bool-cases (nat_eq m.listener_queue q)) [
      | inl t ↦ rw (h, l, t) (refl, same_contents m.listener_queue q s t, refl)
      | inr t ↦ rw (h, l, t) (refl, refl, refl)
    ]
    | inr l ↦ elim (List-cases (s.contents m.listener_queue)) [
      | inl e ↦ elim (Bool-cases (nat_eq m.listener_queue q)) [
        | inl t ↦ rw (h, l, e, t) (refl, same_contents m.listener_queue q s t ∙ e, refl)
        | inr t ↦ rw (h, l, e, t) (refl, refl, refl)
      ]
      | inr (x, xs, e) ↦ rw (h, l, e) (refl, refl, refl)
    ]
  ]

  pub check_pipe-copies :
      (late : ℕ → Bool) (name : String) (pipe : QueueManager) (s : Exchange X) (q : ℕ)
      → s.queues.is_open pipe.listener_queue ≡ true
      → let p = pipe.listener_queue in
        let item = first (on_hand (late p) (s.queues.contents p)) in
        let opened = s.queues.is_open q in
        ((check_pipe late name pipe s).queues.contents q
          ≡ (if nat_eq p q then left_of (late p) (s.queues.contents p) else s.queues.contents q)
            ++ all_copies opened q s.group.receivers (told s.presences item) name)
        × ((check_pipe late name pipe s).data_from_services ≡ s.data_from_services + weight item)
  unfolding check_pipe
  check_pipe-copies late name pipe s q h =
      let (g, c, o) = get_data-contents late pipe s.queues q h in
      let r = get_data late true pipe s.queues in
      let (d, w) = share-copies name r.0 (record s { queues = r.1 }) q in
      (d ∙ rw (g, c, o) refl, w ∙ rw g refl)

  pub check_pipe-IsLike :
      (late : ℕ → Bool) (name : String) (pipe : QueueManager) (s : Exchange X)
      → s.queues.is_open pipe.listener_queue ≡ true
      → IsLike (check_pipe late name pipe s) s
  unfolding check_pipe
  check_pipe-IsLike late name pipe s h =
      let r = get_data late true pipe s.queues in
      let (a, b, c) = share-IsLike name r.0 (record s { queues = r.1 }) in
      (a, b, λ q. c q ∙ (get_data-contents late pipe s.queues q h).2)
