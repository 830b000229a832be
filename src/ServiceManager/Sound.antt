-- ===== src/ServiceManager/Sound.antt =====
-- An invariant of the server's attributes, and that each step of its methods keeps it.
pub mod Methods
use free_tak_server.Base.{
  ℕ, String, Bool, true, false, List, Option, none, some, ◌≡◌, refl, inl, inr, Outcome, returns,
  raised, arith, Bool-cases, ⊤, Exn,
}
use free_tak_server.Base.Dict.{Dict, IsDict, insert-IsDict, erase-IsDict, contains, erase}
use free_tak_server.Base.Actions.{pure, ◌>>=◌, field, raise, require, change}
use free_tak_server.Base.Actions.Preserving.{Preserves, preserving, >>=-Preserves}
use free_tak_server.ServiceManager.FilterGroup.{delete}
use free_tak_server.ServiceManager.State.{
  Parameter, Pipe, queue, manager, Startup, Fts, Machine, Run, Code, success, failure,
  configure_service, new_process, start_process, get_instances, set_pipe, delete_pipe,
  add_source_of, add_receiver_of, remove_source_of, remove_receiver_of, terminate, join_process,
  is_alive, close_pipe, clear_event, running, exited, unused, created,
}
use free_tak_server.ServiceManager.Starting.{
  start_rest_api_service, prepare_rest_api_service, start_cot_service, prepare_cot_service,
  start_tcp_data_package_service, prepare_tcp_data_package_service, start_ssl_data_package_service,
  prepare_ssl_data_package_service, start_ssl_cot_service, prepare_ssl_cot_service,
  start_federation_client_service, prepare_federation_client_service,
  start_federation_server_service, prepare_federation_server_service,
}
use free_tak_server.ServiceManager.Stopping.{
  end_process, unless_failed, stop_cot_service, stop_tcp_data_package_service,
  stop_ssl_data_package_service, stop_ssl_cot_service, stop_federation_client_service,
  stop_federation_server_service,
}

-- No key stands twice in the three dictionaries, and the queue that the stop of the SSL service
-- closes first is None.
abbrev pub IsCoherent : Fts → Type 0
IsCoherent s =
    (s.ssl_client_data_pipe ≡ none)
    × IsDict s.pipe_list
    × IsDict s.filter_group.sources
    × IsDict s.filter_group.receivers

abbrev pub Keeps : {A : Type 0} → Run A → Type 0
Keeps = Preserves IsCoherent

pub changes : (f : Fts → Fts) → ((s : Fts) → IsCoherent s → IsCoherent (f s)) → Keeps (change f)
changes f k = record { keeps = k }

pub set_pipe-Keeps : (k : String) (p : Pipe) → Keeps (set_pipe k p)
set_pipe-Keeps k p = record { keeps = λ s (n, a, b, c). (n, insert-IsDict k p _ a, b, c) }

pub add_source_of-Keeps : (p : Pipe) (k : String) → Keeps (add_source_of p k)
add_source_of-Keeps p k = record { keeps = λ s (n, a, b, c). (n, a, insert-IsDict k p _ b, c) }

pub add_receiver_of-Keeps : (p : Pipe) (k : String) → Keeps (add_receiver_of p k)
add_receiver_of-Keeps p k = record { keeps = λ s (n, a, b, c). (n, a, b, insert-IsDict k p _ c) }

pub delete_pipe-Keeps : (k : String) → Keeps (delete_pipe k)
unfolding delete delete_pipe
delete_pipe-Keeps k = record {
  keeps = λ s (n, a, b, c). elim (Bool-cases (contains k s.pipe_list)) [
    | inl t ↦ rw (delete_pipe, t) (n, erase-IsDict k _ a, b, c)
    | inr t ↦ rw (delete_pipe, t) (n, a, b, c)
  ];
}

pub remove_source_of-Keeps : (k : String) → Keeps (remove_source_of k)
unfolding delete remove_source_of
remove_source_of-Keeps k = record {
  keeps = λ s (n, a, b, c). elim (Bool-cases (contains k s.filter_group.sources)) [
    | inl t ↦ rw (remove_source_of, t) (n, a, erase-IsDict k _ b, c)
    | inr t ↦ rw (remove_source_of, t) (n, a, b, c)
  ];
}

pub remove_receiver_of-Keeps : (k : String) → Keeps (remove_receiver_of k)
unfolding delete remove_receiver_of
remove_receiver_of-Keeps k = record {
  keeps = λ s (n, a, b, c). elim (Bool-cases (contains k s.filter_group.receivers)) [
    | inl t ↦ rw (remove_receiver_of, t) (n, a, b, erase-IsDict k _ c)
    | inr t ↦ rw (remove_receiver_of, t) (n, a, b, c)
  ];
}

pub require-Keeps : (b : Bool) (e : Exn) → Keeps (require b e)
require-Keeps b e = record {
  keeps = λ s h. elim (Bool-cases b) [ inl t ↦ rw t h | inr t ↦ rw t h ];
}

pub new_process-Keeps :
    (target : String) (ip port : Parameter) (pill : Option ℕ)
    → Keeps (new_process target ip port pill)
new_process-Keeps target ip port pill = record { keeps = λ s h. h }

pub start_process-Keeps : (m : Machine) (target : String) (i : ℕ) → Keeps (start_process m target i)
start_process-Keeps m target i =
    >>=-Preserves (require-Keeps (m.spawns target) _) (λ _. record { keeps = λ s h. h })

pub get_instances-Keeps : (m : Machine) (names : List String) → Keeps (get_instances m names)
get_instances-Keeps m names = require-Keeps _ _

pub ruleset keeping = (
  preserving, require-Keeps, get_instances-Keeps, new_process-Keeps, start_process-Keeps, changes,
  set_pipe-Keeps, add_source_of-Keeps, add_receiver_of-Keeps, delete_pipe-Keeps,
  remove_source_of-Keeps, remove_receiver_of-Keeps,
)

pub is_alive-Keeps : (o : Option ℕ) → Keeps (is_alive o)
is_alive-Keeps none = record { keeps = λ s h. h }
is_alive-Keeps (some i) = record { keeps = λ s h. h }

pub terminate-Keeps : (o : Option ℕ) → Keeps (terminate o)
unfolding terminate
terminate-Keeps none = record { keeps = λ s h. h }
terminate-Keeps (some i) = record { keeps = λ s h. ground arith }

pub join_process-Keeps : (o : Option ℕ) → Keeps (join_process o)
unfolding join_process
join_process-Keeps none = record { keeps = λ s h. h }
join_process-Keeps (some i) = record { keeps = λ s h. ground arith }

pub clear_event-Keeps : (o : Option ℕ) → Keeps (clear_event o)
unfolding clear_event
clear_event-Keeps none = record { keeps = λ s h. h }
clear_event-Keeps (some e) = record { keeps = λ s h. h }

pub close_pipe-Keeps : (o : Option Pipe) → Keeps (close_pipe o)
unfolding close_pipe
close_pipe-Keeps none = record { keeps = λ s h. h }
close_pipe-Keeps (some (queue q)) = record { keeps = λ s h. h }
close_pipe-Keeps (some (manager a b)) = record { keeps = λ s h. h }

pub unless_failed-Keeps : {m : Run Code} (c : Code) → Keeps m → Keeps (unless_failed c m)
unless_failed-Keeps success f = f
unless_failed-Keeps failure f = record { keeps = λ s h. h }

pub end_process-Keeps : (o : Option ℕ) → Keeps (end_process o)
unfolding end_process
end_process-Keeps o =
    search (keeping, is_alive-Keeps, terminate-Keeps, join_process-Keeps) depth 25 fits 4000

pub ruleset ending = (
  keeping, is_alive-Keeps, terminate-Keeps, join_process-Keeps, clear_event-Keeps, close_pipe-Keeps,
  unless_failed-Keeps, end_process-Keeps,
)
