-- ===== src/Repeater.antt =====
-- FreeTAKServer/core/cot_management/controllers: cot_management_repeater_controller.py and
-- cot_management_repeater_persistence.py, the messages that are sent to each new connection.
pub mod Stored
mod Examples
use free_tak_server.Base.{String, Bool, true, false, List, [], ◌∷◌, if◌then◌else◌, ⊤}
use free_tak_server.Base.Dict.{Dict, insert, erase, contains, values}

-- The file at PERSISTENCE_PATH: missing, empty, or the pickle of a dictionary, which pickle reads
-- back as it was.
pub data File {ℓ} (E : Type ℓ) : Type ℓ where
  missing empty : File E
  holds : Dict E → File E

-- Messages are events, by their uid.
module _ {E : Type 0} (uid : E → String) where
  unfoldable pub _save_repeated_messages : Dict E → File E → File E
  _save_repeated_messages messages file = holds messages

  -- `_load_repeated_messages`: where there is nothing to read, an empty dictionary is written.
  unfoldable pub _load_repeated_messages : File E → Dict E × File E
  unfolding _save_repeated_messages
  _load_repeated_messages missing = ([], _save_repeated_messages [] missing)
  _load_repeated_messages empty = ([], _save_repeated_messages [] empty)
  _load_repeated_messages (holds d) = (d, holds d)

  -- The loops of the two methods below.
  unfoldable pub add_nodes : List E → Dict E → Dict E
  unfolding insert
  add_nodes [] d = d
  add_nodes (node ∷ nodes) d = add_nodes nodes (insert (uid node) node d)

  unfoldable pub remove_ids : List String → Dict E → Dict E
  unfolding erase contains
  remove_ids [] d = d
  remove_ids (id ∷ ids) d = remove_ids ids (if contains id d then erase id d else d)

  unfoldable pub create_repeated_messages : List E → File E → File E
  unfolding _load_repeated_messages _save_repeated_messages add_nodes
  create_repeated_messages message file =
      let r = _load_repeated_messages file in _save_repeated_messages (add_nodes message r.0) r.1

  unfoldable pub delete_repeated_message : List String → File E → File E
  unfolding _load_repeated_messages _save_repeated_messages remove_ids
  delete_repeated_message ids file =
      let r = _load_repeated_messages file in _save_repeated_messages (remove_ids ids r.0) r.1

  -- The messages that `get_repeated_messages` and `connected_user` set in the response.
  unfoldable pub get_repeated_messages : File E → List E × File E
  unfolding _load_repeated_messages values
  get_repeated_messages file = let r = _load_repeated_messages file in (values r.0, r.1)
