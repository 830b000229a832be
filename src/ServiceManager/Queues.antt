-- ===== src/ServiceManager/Queues.antt =====
-- FreeTAKServer/controllers/services/FTS.py: `QueueManager`, one end of a pair of queues between
-- two processes.
pub mod Same
use free_tak_server.Base.{ℕ, Bool, true, false, ◌&&◌, List, [], ◌∷◌, ◌++◌, nat_eq, if◌then◌else◌}

pub record QueueManager : Type 0 where
  pub sender_queue : ℕ
  pub listener_queue : ℕ

-- The queues by their numbers: what is in them, and whether they are open.
pub record Queues (D : Type 0) : Type 0 where
  pub contents : ℕ → List D
  pub is_open : ℕ → Bool

-- What a call of `get` gives: an item, None, or no end, if it waits without a timeout.
pub data Got (D : Type 0) : Type 0 where
  got : D → Got D
  nothing : Got D
  waits : Got D

module _ {D : Type 0} where
  abbrev set_contents : ℕ → List D → Queues D → Queues D
  set_contents q items s = record s { contents = λ r. if nat_eq q r then items else s.contents r }

  -- `put`: a queue that is closed raises, and that is passed over.
  unfoldable pub put_data : QueueManager → D → Queues D → Queues D
  put_data m item s =
      if s.is_open m.sender_queue
      then set_contents m.sender_queue (s.contents m.sender_queue ++ item ∷ []) s
      else s

  abbrev take_first : Bool → ℕ → List D → Queues D → Got D × Queues D
  take_first timed q [] s = (if timed then nothing else waits, s)
  take_first timed q (item ∷ items) s = (got item, set_contents q items s)

  -- What can be taken within a timeout: an item that was put may come late.
  abbrev pub on_hand : Bool → List D → List D
  on_hand late items = if late then [] else items

  -- `get`, with whether there is a timeout; `late` says at which queues what was put does not come
  -- within it. Without a timeout `get` waits for it.
  unfoldable pub get_data : (ℕ → Bool) → Bool → QueueManager → Queues D → Got D × Queues D
  get_data late timed m s =
      let q = m.listener_queue in
      if s.is_open q
      then take_first timed q (on_hand (timed && late q) (s.contents q)) s
      else (nothing, s)

  abbrev is_nil : List D → Bool
  is_nil [] = true
  is_nil (x ∷ xs) = false

  abbrev pub queue_empty : QueueManager → Queues D → Bool
  queue_empty m s = is_nil (s.contents m.listener_queue)

  -- `close`
  abbrev pub close_queues : QueueManager → Queues D → Queues D
  close_queues m s = record s {
    is_open = λ q.
        if nat_eq m.sender_queue q
        then false
        else if nat_eq m.listener_queue q
        then false
        else s.is_open q;
  }
