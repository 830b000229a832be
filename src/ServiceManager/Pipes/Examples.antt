-- ===== src/ServiceManager/Pipes/Examples.antt =====
-- Runs and instances of the theorems on checkPipes of FreeTAKServer/controllers/services/FTS.py.
use free_tak_server.Base.{
  ℕ, Bool, false, true, nat_eq, if◌then◌else◌, List, [], ◌∷◌, ◌≡◌, refl, arith,
}
use free_tak_server.Base.Dict.{Dict, lookup}
use free_tak_server.ServiceManager.Queues.{QueueManager}
use free_tak_server.ServiceManager.Pipes.{
  PipeData, zero_data, listing, single, Exchange, check_pipes, check_each,
}
use free_tak_server.ServiceManager.Pipes.Drained.{check_pipes-IsDrained}
use free_tak_server.ServiceManager.Pipes.Shares.{check_each-arrivals}

-- The core's ends of the pairs of queues of two services.
abbrev ends : Dict QueueManager
ends =
    ("TCP", record { sender_queue = 1; listener_queue = 2 })
    ∷ ("SSL", record { sender_queue = 3; listener_queue = 4 })
    ∷ []

abbrev held : ℕ → List (PipeData ℕ)
held q =
    if nat_eq q 2
    then listing (20 ∷ []) ∷ zero_data ∷ []
    else if nat_eq q 4
    then single 40 ∷ []
    else []

abbrev busy : Exchange ℕ
busy = record {
  group = record { sources = ends; receivers = ends; allowed_type = []; rejected_type = [] };
  presences = 100 ∷ 101 ∷ [];
  data_from_services = 0;
  queues = record { contents = held; is_open = λ q. true };
}

abbrev prompt_round : ℕ → Bool
prompt_round q = false

abbrev late_round : ℕ → Bool
late_round q = true

check_pipes-IsDrained_example :
    (check_pipes (prompt_round ∷ late_round ∷ prompt_round ∷ []) busy).queues.contents 2 ≡ []
unfolding lookup
check_pipes-IsDrained_example =
    check_pipes-IsDrained (prompt_round ∷ late_round ∷ prompt_round ∷ []) busy "TCP"
      (record { sender_queue = 1; listener_queue = 2 }) refl (refl, (refl, tt)) (refl, (refl, tt))
      (omega arith)

-- The SSL service is told of the new client and of all users, and not of its own object.
check_each-arrivals_example :
    ((check_each prompt_round ends busy).queues.contents 3
      ≡ single 20 ∷ single 100 ∷ single 101 ∷ [])
    × ((check_each prompt_round ends busy).data_from_services ≡ 2)
check_each-arrivals_example =
    check_each-arrivals prompt_round ends busy 3 (refl, (refl, tt))
      ((refl, (refl, tt)), (refl, tt), ((refl, (refl, tt)), tt, tt)) (refl, (refl, tt))
