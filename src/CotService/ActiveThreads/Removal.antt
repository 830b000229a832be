-- ===== src/CotService/ActiveThreads/Removal.antt =====
-- ActiveThreadsController.removeClientThread: what the removal keeps, and what it misses.
use free_tak_server.Base.{
  ℕ, zero, suc, ◌+◌, String, ◌≡◌, refl, ◌∙◌, inl, inr, true, not, Option, none, some, [], ◌∷◌, ◌==◌,
  eq_iff, arith, Option-cases, select, length,
}
use free_tak_server.CotService.ActiveThreads.{
  Threads, item?, remove, drop_if, remove_from, remove_client_thread,
  remove_receive_connection_process,
}

-- The threads of the other clients, in order.
abbrev pub others : String → Threads → Threads
others client = select (λ x. not (x.0 == client))

others-remove :
    (client : String) (x : String × ℕ) (xs : Threads)
    → (x.0 == client) ≡ true
    → others client (remove x xs) ≡ others client xs
others-remove client x [] own = refl
others-remove client x (y ∷ ys) own =
    ground
      (arith, others-remove client x ys own, eq_iff x.0 client, eq_iff y.0 x.0, eq_iff y.0 client)

others-drop_if :
    (client : String) (o : Option (String × ℕ)) (xs : Threads)
    → others client (drop_if client o xs) ≡ others client xs
others-drop_if client none xs = refl
others-drop_if client (some x) xs = ground (arith, others-remove client x xs)

others-remove_from :
    (fuel : ℕ) (client : String) (i : ℕ) (xs : Threads)
    → others client (remove_from fuel client i xs) ≡ others client xs
unfolding remove_from
others-remove_from zero client i xs = refl
others-remove_from (suc fuel) client i xs = elim (Option-cases (item? xs i)) [
  | inl past_end ↦ rw (remove_from, past_end) refl
  | inr (x, here) ↦
      rw (remove_from, here)
        (others-remove_from fuel client (i + 1) (drop_if client (some x) xs)
          ∙ others-drop_if client (some x) xs)
]

-- Removing the threads of a client, and removing those of a process that receives connections, keep
-- every other item of the array, in their order.
pub remove_client_thread_keeps :
    (removed : String) (threads : Threads)
    → (others removed (remove_client_thread removed threads) ≡ others removed threads)
      × (others removed (remove_receive_connection_process removed threads)
          ≡ others removed threads)
unfolding remove_client_thread remove_receive_connection_process
remove_client_thread_keeps removed threads =
    let kept = others-remove_from (length threads) removed 0 threads in (kept, kept)

-- The loop removes from the list that it walks, so of two threads of one client that stand side by
-- side it takes the first and leaves the second.
remove_client_thread_misses :
    (client : String) (p q : ℕ)
    → remove_client_thread client ((client, p) ∷ (client, q) ∷ []) ≡ (client, q) ∷ []
unfolding remove_client_thread
remove_client_thread_misses client p q = ground (arith, eq_iff client client)
