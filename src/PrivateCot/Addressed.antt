-- ===== src/PrivateCot/Addressed.antt =====
-- cot_management_private_cot_controller.py: who is a recipient.
use free_tak_server.Base.{
  ◌≡◌, refl, String, Bool, false, ◌||◌, ◌&&◌, Option, none, some, List, [], ◌∷◌, ◌++◌, ◌==◌, opt_eq,
  arith, contains_text,
}
use free_tak_server.PrivateCot.{
  ConnectedUser, Recipients, star, oids, recipients_of, recipients_of_all, get_recipients,
}

-- A destination has the callsign.
abbrev pub names : List (Option String) → Option String → Bool
names [] callsign = false
names (dest ∷ dests) callsign = opt_eq dest callsign || names dests callsign

-- A connection has the object id, and a callsign that a destination has.
abbrev pub is_addressed : String → List (Option String) → List ConnectedUser → Bool
is_addressed o dests [] = false
is_addressed o dests (con ∷ cons) =
    (con.oid == o && names dests con.callsign) || is_addressed o dests cons

-- The answer is "*", or a list of the object ids of the connections that are addressed.
abbrev pub Answered :
    Option String → List (Option String) → List ConnectedUser → Recipients → Type 0
Answered none dests connections r = r ≡ star
Answered (some c) dests connections r =
    (rs : List String) × (r ≡ oids rs)
    × ((o : String) → contains_text o rs ≡ is_addressed o (some c ∷ dests) connections)

contains-append :
    (o : String) (xs ys : List String)
    → contains_text o (xs ++ ys) ≡ (contains_text o xs || contains_text o ys)
contains-append o [] ys = refl
contains-append o (x ∷ xs) ys = ground (arith, contains-append o xs ys)

is_addressed-nil : (o : String) (cons : List ConnectedUser) → is_addressed o [] cons ≡ false
is_addressed-nil o [] = refl
is_addressed-nil o (con ∷ cons) = ground (arith, is_addressed-nil o cons)

is_addressed-cons :
    (o : String) (dest : Option String) (dests : List (Option String)) (cons : List ConnectedUser)
    → is_addressed o (dest ∷ dests) cons
      ≡ (is_addressed o (dest ∷ []) cons || is_addressed o dests cons)
is_addressed-cons o dest dests [] = refl
is_addressed-cons o dest dests (con ∷ cons) = ground (arith, is_addressed-cons o dest dests cons)

contains-recipients_of :
    (o : String) (dest : Option String) (cons : List ConnectedUser) (rs : List String)
    → contains_text o (recipients_of dest cons rs)
      ≡ (contains_text o rs || is_addressed o (dest ∷ []) cons)
unfolding recipients_of
contains-recipients_of o dest [] rs = ground arith
contains-recipients_of o dest (con ∷ cons) rs = ground (
  arith,
  contains-recipients_of o dest cons (rs ++ con.oid ∷ []),
  contains-recipients_of o dest cons rs,
  contains-append o rs (con.oid ∷ []),
)

contains-recipients_of_all :
    (o : String) (dests : List (Option String)) (cons : List ConnectedUser) (rs : List String)
    → contains_text o (recipients_of_all dests cons rs)
      ≡ (contains_text o rs || is_addressed o dests cons)
unfolding recipients_of_all
contains-recipients_of_all o [] cons rs = ground (arith, is_addressed-nil o cons)
contains-recipients_of_all o (dest ∷ dests) cons rs = ground (
  arith,
  contains-recipients_of_all o dests cons (recipients_of dest cons rs),
  contains-recipients_of o dest cons rs,
  is_addressed-cons o dest dests cons,
)

-- For a CoT with destinations: if the first one has a callsign, the answer is a list, in which an
-- object id stands exactly if a connection has it whose callsign is that of a destination, so the
-- list is empty if no such connection is there; if the first has none, it is "*", whatever the
-- other destinations are.
pub get_recipients_addressed :
    (first : Option String) (dests : List (Option String)) (connections : List ConnectedUser)
    → Answered first dests connections (get_recipients (some (first ∷ dests)) connections)
unfolding get_recipients
get_recipients_addressed none dests connections = refl
get_recipients_addressed (some c) dests connections = (
  recipients_of_all (some c ∷ dests) connections [],
  refl,
  λ o. contains-recipients_of_all o (some c ∷ dests) connections [],
)
