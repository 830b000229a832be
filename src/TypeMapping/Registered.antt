-- ===== src/TypeMapping/Registered.antt =====
-- memory_mapping.py: what is found after registrations, and after a restart.
use free_tak_server.Base.{
  ◌≡◌, refl, sym, ◌∙◌, ap, String, Option, some, List, [], ◌∷◌, ◌==◌, if◌then◌else◌,
}
use free_tak_server.Base.Dict.{Dict, lookup, insert, lookup-insert}
use free_tak_server.TypeMapping.{
  Mappings, Memory, start, write_persistence, update, register_machine_to_human_mapping,
  register_human_to_machine_mapping, or_default, get_machine_readable_type, get_human_readable_type,
}

pub data Registration : Type 0 where
  machine_to_human human_to_machine : Dict String → Registration

unfoldable pub register : List Registration → Memory → Memory
unfolding register_machine_to_human_mapping register_human_to_machine_mapping
register [] s = s
register (machine_to_human m ∷ rs) s = register rs (register_machine_to_human_mapping m s)
register (human_to_machine m ∷ rs) s = register rs (register_human_to_machine_mapping m s)

-- The last value that a dictionary gives a key, or the one from before.
abbrev pub latest : String → Dict String → Option String → Option String
latest k [] old = old
latest k ((j, v) ∷ m) old = latest k m (if j == k then some v else old)

-- The value that the registrations in the one direction, and in the other, leave for a key.
abbrev pub human_of : String → List Registration → Option String → Option String
human_of k [] old = old
human_of k (machine_to_human m ∷ rs) old = human_of k rs (latest k m old)
human_of k (human_to_machine m ∷ rs) old = human_of k rs old

abbrev pub machine_of : String → List Registration → Option String → Option String
machine_of k [] old = old
machine_of k (machine_to_human m ∷ rs) old = machine_of k rs old
machine_of k (human_to_machine m ∷ rs) old = machine_of k rs (latest k m old)

lookup-update : (k : String) (m d : Dict String) → lookup k (update d m) ≡ latest k m (lookup k d)
unfolding update
lookup-update k [] d = refl
lookup-update k ((j, v) ∷ m) d =
    lookup-update k m (insert j v d) ∙ ap (latest k m) (lookup-insert j k v d)

human-register :
    (k : String) (rs : List Registration) (s : Memory)
    → lookup k (register rs s)._persistence.machine_to_human_mapping
      ≡ human_of k rs (lookup k s._persistence.machine_to_human_mapping)
unfolding register register_machine_to_human_mapping register_human_to_machine_mapping
    write_persistence
human-register k [] s = refl
human-register k (machine_to_human m ∷ rs) s =
    human-register k rs (register_machine_to_human_mapping m s)
    ∙ ap (human_of k rs) (lookup-update k m s._persistence.machine_to_human_mapping)
human-register k (human_to_machine m ∷ rs) s =
    human-register k rs (register_human_to_machine_mapping m s)

machine-register :
    (k : String) (rs : List Registration) (s : Memory)
    → lookup k (register rs s)._persistence.human_to_machine_mapping
      ≡ machine_of k rs (lookup k s._persistence.human_to_machine_mapping)
unfolding register register_machine_to_human_mapping register_human_to_machine_mapping
    write_persistence
machine-register k [] s = refl
machine-register k (machine_to_human m ∷ rs) s =
    machine-register k rs (register_machine_to_human_mapping m s)
machine-register k (human_to_machine m ∷ rs) s =
    machine-register k rs (register_human_to_machine_mapping m s)
    ∙ ap (machine_of k rs) (lookup-update k m s._persistence.human_to_machine_mapping)

-- The file holds what is in memory.
written-register :
    (rs : List Registration) (s : Memory)
    → s.file ≡ some s._persistence
    → (register rs s).file ≡ some (register rs s)._persistence
unfolding register register_machine_to_human_mapping register_human_to_machine_mapping
    write_persistence
written-register [] s h = h
written-register (machine_to_human m ∷ rs) s h =
    written-register rs (register_machine_to_human_mapping m s) refl
written-register (human_to_machine m ∷ rs) s h =
    written-register rs (register_human_to_machine_mapping m s) refl

-- After any registrations on the mappings of a file, and after a restart from the file that they
-- leave, the human readable type of a machine readable one is the last that was registered for it,
-- or the file's, or the default; the machine readable type of a human readable one likewise.
-- Registrations in one direction never count for the other, and a restart changes nothing.
pub registered_types :
    (rs : List Registration) (m : Mappings) (k : String) (default : Option String)
    → let s = register rs (start (some m)) in
      (get_human_readable_type k default s
        ≡ or_default (human_of k rs (lookup k m.machine_to_human_mapping)) default)
      × (get_machine_readable_type k default s
          ≡ or_default (machine_of k rs (lookup k m.human_to_machine_mapping)) default)
      × (start s.file ≡ s)
unfolding start get_human_readable_type get_machine_readable_type
registered_types rs m k default =
    let s = register rs (start (some m)) in
    let kept = written-register rs (start (some m)) refl in
    (
      ap (λ o. or_default o default) (human-register k rs (start (some m))),
      ap (λ o. or_default o default) (machine-register k rs (start (some m))),
      ap start kept
          ∙ ap (λ (f : Option Mappings). record { _persistence = s._persistence; file = f })
              (sym kept),
    )
