-- ===== src/CotService/ActiveThreads.antt =====
-- FreeTAKServer/core/connection/ActiveThreadsController.py: the array of client threads. A thread is
-- a number; an item is a pair of a client and its thread.
pub mod Removal
use free_tak_server.Base.{
  ℕ, zero, suc, ◌+◌, String, Bool, Option, none, some, List, [], ◌∷◌, ◌++◌, ◌==◌, ◌&&◌, nat_eq,
  if◌then◌else◌, length,
}

abbrev pub Threads : Type 0
Threads = List (String × ℕ)

unfoldable pub add_client_thread : String → ℕ → Threads → Threads
add_client_thread client process threads = threads ++ (client, process) ∷ []

abbrev pub item? : Threads → ℕ → Option (String × ℕ)
item? [] i = none
item? (x ∷ xs) zero = some x
item? (x ∷ xs) (suc i) = item? xs i

-- `thread_array.remove(x)`: the first item that is equal to `x`.
abbrev pub remove : String × ℕ → Threads → Threads
remove x [] = []
remove x (y ∷ ys) = let rest = remove x ys in if y.0 == x.0 && nat_eq y.1 x.1 then ys else y ∷ rest

-- One round of the loop, at the item that the position shows.
abbrev pub drop_if : String → Option (String × ℕ) → Threads → Threads
drop_if client none xs = xs
drop_if client (some x) xs = if x.0 == client then remove x xs else xs

-- Python's `for` over a list that its body changes: it goes by position, and ends at the first
-- position that is out of the list. `fuel` bounds the rounds.
unfoldable pub remove_from : ℕ → String → ℕ → Threads → Threads
remove_from zero client i xs = xs
remove_from (suc fuel) client i xs = elim (item? xs i) [
  | none ↦ xs
  | some x ↦ remove_from fuel client (i + 1) (drop_if client (some x) xs)
]

-- Each round goes one position on and the list does not grow, so its length is enough.
unfoldable pub remove_client_thread : String → Threads → Threads
unfolding remove_from
remove_client_thread client threads = remove_from (length threads) client 0 threads

-- The same two methods for the processes that receive connections, which share the array.
unfoldable pub add_receive_connections_thread : String → ℕ → Threads → Threads
add_receive_connections_thread receiver process threads = threads ++ (receiver, process) ∷ []

unfoldable pub remove_receive_connection_process : String → Threads → Threads
unfolding remove_from
remove_receive_connection_process receiver threads = remove_from (length threads) receiver 0 threads
