-- ===== src/ServiceManager/Pipes/Sent.antt =====
-- What `send` leaves in a queue.
use free_tak_server.Base.{
  ℕ, String, ◌==◌, Bool, true, false, List, [], ◌∷◌, ◌++◌, ◌≡◌, refl, ◌∙◌, sym, ap, nat_eq,
  if◌then◌else◌, append-nil, append_assoc, Bool-cases, inl, inr, ◌&&◌, not,
}
use free_tak_server.Base.Dict.{Dict}
use free_tak_server.ServiceManager.Queues.{QueueManager, Queues, put_data}
use free_tak_server.ServiceManager.Queues.Same.{nat_eq-equal}
use free_tak_server.ServiceManager.Pipes.{PipeData, single, send, send_each}

module _ {X : Type 0} where
  -- The copies of an item of `origin` that reach the queue `q`: one for each receiver of another
  -- name that puts into the queue, if it is open.
  abbrev pub copies : Bool → ℕ → Dict QueueManager → X → String → List (PipeData X)
  copies opened q [] x origin = []
  copies opened q ((service, pipe) ∷ pipes) x origin =
      if opened && not (service == origin) && nat_eq pipe.sender_queue q
      then single x ∷ copies opened q pipes x origin
      else copies opened q pipes x origin

  put_data-contents_any :
      (m : QueueManager) (x : PipeData X) (s : Queues (PipeData X)) (q : ℕ)
      → ((put_data m x s).contents q ≡ (
          if s.is_open q && nat_eq m.sender_queue q then s.contents q ++ x ∷ [] else s.contents q))
        × ((put_data m x s).is_open q ≡ s.is_open q)
  unfolding put_data
  put_data-contents_any m x s q = elim (Bool-cases (nat_eq m.sender_queue q)) [
    | inl t ↦ elim (Bool-cases (s.is_open q)) [
      | inl o ↦ rw (ap s.is_open (nat_eq-equal t) ∙ o, o, t) (rw (nat_eq-equal t) (refl, refl))
      | inr c ↦ rw (ap s.is_open (nat_eq-equal t) ∙ c, c) (refl, refl)
    ]
    | inr t ↦ elim (Bool-cases (s.is_open m.sender_queue)) [
      | inl o ↦ elim (Bool-cases (s.is_open q)) [
        | inl o' ↦ rw (o, o', t) (refl, refl)
        | inr c' ↦ rw (o, c', t) (refl, refl)
      ]
      | inr c ↦ elim (Bool-cases (s.is_open q)) [
        | inl o' ↦ rw (c, o', t) (refl, refl)
        | inr c' ↦ rw (c, c') (refl, refl)
      ]
    ]
  ]

  pub send-copies :
      (pipes : Dict QueueManager) (x : X) (origin : String) (s : Queues (PipeData X)) (q : ℕ)
      → ((send pipes x origin s).contents q ≡ s.contents q ++ copies (s.is_open q) q pipes x origin)
        × ((send pipes x origin s).is_open q ≡ s.is_open q)
  unfolding send
  send-copies [] x origin s q = (sym (append-nil (s.contents q)), refl)
  send-copies ((service, pipe) ∷ pipes) x origin s q = elim (Bool-cases (service == origin)) [
    | inl e ↦
        let (c, o) = send-copies pipes x origin s q in
        rw (send, e) (c ∙ unsent (s.is_open q) (nat_eq pipe.sender_queue q), o)
    | inr e ↦
        rw (send, e)
          (let (c, o) = send-copies pipes x origin (put_data pipe (single x) s) q in
            let (d, p) = put_data-contents_any pipe (single x) s q in
            (c ∙ rw (d, p) (joined (s.is_open q) (nat_eq pipe.sender_queue q)), o ∙ p))
  ]
    where
      unsent :
          (a b : Bool)
          → s.contents q ++ copies a q pipes x origin
            ≡ s.contents q
              ++ (if a && false && b
                  then single x ∷ copies a q pipes x origin
                  else copies a q pipes x origin)
      unsent true b = refl
      unsent false b = refl

      joined :
          (a b : Bool)
          → (if a && b then s.contents q ++ single x ∷ [] else s.contents q)
              ++ copies a q pipes x origin
            ≡ s.contents q
              ++ (if a && true && b
                  then single x ∷ copies a q pipes x origin
                  else copies a q pipes x origin)
      joined true true = append_assoc (s.contents q) (single x ∷ []) (copies true q pipes x origin)
      joined true false = refl
      joined false b = refl

  abbrev pub all_copies : Bool → ℕ → Dict QueueManager → List X → String → List (PipeData X)
  all_copies opened q pipes [] origin = []
  all_copies opened q pipes (x ∷ xs) origin =
      copies opened q pipes x origin ++ all_copies opened q pipes xs origin

  pub send_each-copies :
      (pipes : Dict QueueManager) (xs : List X) (origin : String) (s : Queues (PipeData X)) (q : ℕ)
      → ((send_each pipes xs origin s).contents q
          ≡ s.contents q ++ all_copies (s.is_open q) q pipes xs origin)
        × ((send_each pipes xs origin s).is_open q ≡ s.is_open q)
  send_each-copies pipes [] origin s q = (sym (append-nil (s.contents q)), refl)
  send_each-copies pipes (x ∷ xs) origin s q =
      let (c, o) = send_each-copies pipes xs origin (send pipes x origin s) q in
      let (d, p) = send-copies pipes x origin s q in
      (
        c
            ∙ rw (d, p)
                (append_assoc (s.contents q) (copies (s.is_open q) q pipes x origin)
                  (all_copies (s.is_open q) q pipes xs origin)),
        o ∙ p,
      )
