-- ===== src/ServiceManager/Pipes.antt =====
-- FreeTAKServer/controllers/services/FTS.py: checkPipes, which takes data from the sources and gives
-- it to the receivers, with FreeTAKServer/core/util/AddDataToCoTList.py.
pub mod Sent
pub mod Shared
pub mod Drained
pub mod Shares
mod Examples
use free_tak_server.Base.{
  ℕ, ◌+◌, Bool, String, ◌==◌, Bool, true, List, [], ◌∷◌, length, if◌then◌else◌,
}
use free_tak_server.Base.Dict.{Dict}
use free_tak_server.ServiceManager.FilterGroup.{FilterGroup}
use free_tak_server.ServiceManager.Queues.{
  QueueManager, Queues, Got, got, nothing, waits, put_data, get_data,
}

-- What a service puts into its queue: 0, a list of what a new client is told, or one object.
pub data PipeData (X : Type 0) : Type 0 where
  zero_data : PipeData X
  listing : List X → PipeData X
  single : X → PipeData X

-- The attributes of `FTS` that the method uses, and the queues. Of the users only the presences
-- are read.
pub record Exchange (X : Type 0) : Type 0 where
  pub group : FilterGroup QueueManager
  pub presences : List X
  pub data_from_services : ℕ
  pub queues : Queues (PipeData X)

module _ {X : Type 0} where
  -- `send`: to each receiver but the origin.
  unfoldable pub send : Dict QueueManager → X → String → Queues (PipeData X) → Queues (PipeData X)
  send [] x origin s = s
  send ((service, pipe) ∷ pipes) x origin s =
      send pipes x origin (if service == origin then s else put_data pipe (single x) s)

  abbrev pub send_each :
      Dict QueueManager → List X → String → Queues (PipeData X) → Queues (PipeData X)
  send_each pipes [] origin s = s
  send_each pipes (x ∷ xs) origin s = send_each pipes xs origin (send pipes x origin s)

  -- `data[0]` of an empty list raises, which is logged; a get with a timeout never waits on.
  unfoldable pub share : String → Got (PipeData X) → Exchange X → Exchange X
  share name nothing s = s
  share name waits s = s
  share name (got zero_data) s = s
  share name (got (listing [])) s = s
  share name (got (listing (x ∷ xs))) s = record s {
    data_from_services = s.data_from_services + length (x ∷ xs);
    queues = send_each s.group.receivers s.presences name (send s.group.receivers x name s.queues);
  }
  share name (got (single x)) s = record s {
    data_from_services = s.data_from_services + 1;
    queues = send s.group.receivers x name s.queues;
  }

  -- One source: `recv` with the timeout, which is not 0, and what follows it.
  unfoldable pub check_pipe : (ℕ → Bool) → String → QueueManager → Exchange X → Exchange X
  check_pipe late name pipe s =
      let r = get_data late true pipe s.queues in share name r.0 (record s { queues = r.1 })

  unfoldable pub check_each : (ℕ → Bool) → Dict QueueManager → Exchange X → Exchange X
  check_each late [] s = s
  check_each late ((name, pipe) ∷ pipes) s = check_each late pipes (check_pipe late name pipe s)

  -- `checkPipes`: the rounds of its loop, each with the queues at which items come late in it.
  unfoldable pub check_pipes : List (ℕ → Bool) → Exchange X → Exchange X
  check_pipes [] s = s
  check_pipes (late ∷ rounds) s = check_pipes rounds (check_each late s.group.sources s)
