-- ===== src/PrivateCot.antt =====
-- FreeTAKServer/core/cot_management/controllers/cot_management_private_cot_controller.py: the
-- recipients of a CoT without a handler of its own.
pub mod Addressed
mod Examples
use free_tak_server.Base.{String, Option, none, some, List, [], ◌∷◌, ◌++◌, opt_eq, if◌then◌else◌}

-- A connection of the answer to GetAllConnections: its object id, and the callsign of its contact.
pub record ConnectedUser : Type 0 where
  pub oid : String
  pub callsign : Option String

-- "*", or a list of object ids.
pub data Recipients : Type 0 where
  star : Recipients
  oids : List String → Recipients

-- The inner loop, for the callsign of one destination.
unfoldable pub recipients_of : Option String → List ConnectedUser → List String → List String
recipients_of dest [] recipients = recipients
recipients_of dest (con ∷ cons) recipients =
    recipients_of dest cons
      (if opt_eq dest con.callsign then recipients ++ con.oid ∷ [] else recipients)

-- The outer loop.
unfoldable pub recipients_of_all :
    List (Option String) → List ConnectedUser → List String → List String
unfolding recipients_of
recipients_of_all [] connections recipients = recipients
recipients_of_all (dest ∷ dests) connections recipients =
    recipients_of_all dests connections (recipients_of dest connections recipients)

-- `get_recipients`: the callsigns of `detail.marti.dest`, where the detail has a marti.
unfoldable pub get_recipients : Option (List (Option String)) → List ConnectedUser → Recipients
unfolding recipients_of_all
get_recipients none connections = star
get_recipients (some []) connections = star
get_recipients (some (none ∷ dests)) connections = star
get_recipients (some (some c ∷ dests)) connections =
    oids (recipients_of_all (some c ∷ dests) connections [])
