-- ===== src/Emergency.antt =====
-- FreeTAKServer/components/extended/emergency/controllers: emergency_persistence.py, and of
-- emergency_general_controller.py and emergency_sender_controller.py who is sent an emergency.
mod Memory
pub mod Restart
pub mod Detached
mod Examples
pub mod Recipients
use free_tak_server.Base.{
  ℕ, zero, suc, ◌+◌, String, Bool, true, false, ◌||◌, Option, none, some, List, [], ◌∷◌, ◌++◌, ◌==◌,
  if◌then◌else◌, nat_eq, length, Exn, key_error, os_error, Outcome, returns, raised, ⊤, ◌>>=◌,
}
use free_tak_server.Base.Dict.{Dict, insert, erase, contains, values}

-- A dictionary of emergencies: a text for each uid.
abbrev pub Texts : Type 0
Texts = Dict String

abbrev pub at : ℕ → List Texts → Texts
at n [] = []
at zero (d ∷ ds) = d
at (suc n) (d ∷ ds) = at n ds

abbrev pub put : ℕ → Texts → List Texts → List Texts
put n e [] = []
put zero e (d ∷ ds) = e ∷ ds
put (suc n) e (d ∷ ds) = d ∷ put n e ds

-- An `EmergencyPersistence`, with the dictionaries in memory, which it refers to by position:
-- `_persistence["emergencies"]` and `emergencies`. `file` is the file at PERSISTENCE_PATH.
pub record Store : Type 0 where
  pub file : Option Texts
  pub memory : List Texts
  pub _persistence : ℕ
  pub emergencies : ℕ

-- `__init__`: a missing file is written first; both names are then for the one dictionary read.
unfoldable pub init : Option Texts → Store
init none = record { file = some []; memory = [] ∷ []; _persistence = 0; emergencies = 0 }
init (some d) = record { file = some d; memory = d ∷ []; _persistence = 0; emergencies = 0 }

-- `_update_persistence`
unfoldable pub _update_persistence : Store → Store
_update_persistence s = record s { file = some (at s._persistence s.memory) }

-- `_sync_persistence`: a new dictionary is read, and `_persistence` is for it.
unfoldable pub _sync_persistence : Store → Outcome ⊤ × Store
_sync_persistence s = elim s.file [
  | none ↦ (raised os_error, s)
  | some d ↦ (returns tt, record s { memory = s.memory ++ d ∷ []; _persistence = length s.memory })
]

-- Events, pickled to a text and back.
module _ {E : Type 0} (uid : E → String) (dumps : E → String) (loads : String → Outcome E) where
  unfoldable pub save_emergency : E → Store → Store
  unfolding _update_persistence
  save_emergency e s = _update_persistence (record s {
    memory = put s.emergencies (insert (uid e) (dumps e) (at s.emergencies s.memory)) s.memory;
  })

  unfoldable pub delete_emergency : E → Store → Outcome ⊤ × Store
  unfolding _update_persistence contains
  delete_emergency e s =
      if contains (uid e) (at s.emergencies s.memory)
      then (
        returns tt,
        _update_persistence (record s {
          memory = put s.emergencies (erase (uid e) (at s.emergencies s.memory)) s.memory;
        }),
      )
      else (raised key_error, s)

  abbrev pub load_all : List String → Outcome (List E)
  load_all [] = returns []
  load_all (x ∷ xs) = loads x >>= λ e. load_all xs >>= λ es. returns (e ∷ es)

  abbrev pub read_all : Outcome ⊤ × Store → Outcome (List E) × Store
  read_all (raised x, s) = (raised x, s)
  read_all (returns u, s) = (load_all (values (at s.emergencies s.memory)), s)

  unfoldable pub get_all_emergencies : Store → Outcome (List E) × Store
  unfolding _sync_persistence
  get_all_emergencies s = read_all (_sync_persistence s)

-- What is sent of an emergency: to all, or to the users of a list.
pub data Addressees : Type 0 where
  everyone : Addressees
  users : List String → Addressees

-- Users and events; `nearer` is whether their distance in kilometres, by geopy, is less than a
-- radius.
module _ {U E : Type 0} (oid : U → String) (nearer : E → U → ℕ → Bool) where
  unfoldable pub validate_user_distance : ℕ → E → U → Bool
  validate_user_distance radius e u = if nat_eq radius 0 then true else nearer e u radius

  -- The loop of `filter_by_distance`, on the recipients so far.
  unfoldable pub filter_users : ℕ → E → List U → List String → List String
  unfolding validate_user_distance
  filter_users radius e [] recipients = recipients
  filter_users radius e (u ∷ us) recipients =
      filter_users radius e us
        (if validate_user_distance radius e u then recipients ++ oid u ∷ [] else recipients)

  -- `filter_by_distance`, from the empty recipients of `parse_emergency_on`.
  unfoldable pub filter_by_distance : ℕ → E → List U → Addressees
  unfolding filter_users
  filter_by_distance radius e connections =
      if nat_eq radius 0 then everyone else users (filter_users radius e connections [])

  -- The loop of `send_emergencies_to_client`: the recipients and the messages so far.
  unfoldable pub send_emergencies : ℕ → U → List E → List String × List E → List String × List E
  unfolding validate_user_distance
  send_emergencies radius u [] sent = sent
  send_emergencies radius u (e ∷ es) sent = send_emergencies radius u es (
      if validate_user_distance radius e u
      then ((sent.0) ++ oid u ∷ [], (sent.1) ++ e ∷ [])
      else sent)
