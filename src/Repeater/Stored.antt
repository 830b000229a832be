-- ===== src/Repeater/Stored.antt =====
-- cot_management_repeater_controller.py: which message is repeated for a uid.
use free_tak_server.Base.{
  ◌≡◌, refl, ◌∙◌, inl, inr, String, Option, none, some, List, [], ◌∷◌, ◌==◌, eq_iff, arith,
  if◌then◌else◌, Bool-cases, Option-cases, contains_text,
}
use free_tak_server.Base.Dict.{
  Dict, lookup, insert, erase, contains, values, lookup-insert, lookup-erase, IsDict, insert-IsDict,
  erase-IsDict,
}
use free_tak_server.Repeater.{
  File, _load_repeated_messages, _save_repeated_messages, add_nodes, remove_ids,
  create_repeated_messages, delete_repeated_message, get_repeated_messages,
}

module _ {E : Type 0} (uid : E → String) where
  -- What the file holds for a load.
  unfoldable pub held : File E → Dict E
  unfolding _load_repeated_messages
  held file = (_load_repeated_messages uid file).0

  -- The last of some messages that has a uid.
  abbrev pub last_with : String → List E → Option E
  last_with k [] = none
  last_with k (e ∷ es) = elim (last_with k es) [
    | some f ↦ some f
    | none ↦ if uid e == k then some e else none
  ]

  abbrev pub or_else : Option E → Option E → Option E
  or_else (some e) old = some e
  or_else none old = old

  lookup-add_nodes :
      (k : String) (nodes : List E) (d : Dict E)
      → lookup k (add_nodes uid nodes d) ≡ or_else (last_with k nodes) (lookup k d)
  unfolding add_nodes
  lookup-add_nodes k [] d = refl
  lookup-add_nodes k (e ∷ es) d = elim (Option-cases (last_with k es)) [
    | inl nothing ↦
        ground
          (arith, nothing, lookup-add_nodes k es (insert (uid e) e d), lookup-insert (uid e) k e d)
    | inr (f, later) ↦ ground (arith, later, lookup-add_nodes k es (insert (uid e) e d))
  ]

  lookup-drop :
      (k id : String) (d : Dict E)
      → lookup k (if contains id d then erase id d else d) ≡ (if id == k then none else lookup k d)
  unfolding contains
  lookup-drop k id d = elim (Option-cases (lookup id d)) [
    | inl absent ↦ ground (arith, absent, eq_iff id k)
    | inr (e, present) ↦ ground (arith, present, lookup-erase id k d)
  ]

  lookup-remove_ids :
      (k : String) (ids : List String) (d : Dict E)
      → lookup k (remove_ids uid ids d) ≡ (if contains_text k ids then none else lookup k d)
  unfolding remove_ids
  lookup-remove_ids k [] d = refl
  lookup-remove_ids k (id ∷ ids) d =
      ground (
        arith,
        lookup-drop k id d,
        lookup-remove_ids k ids (if contains id d then erase id d else d),
      )

  add_nodes-IsDict : (nodes : List E) (d : Dict E) → IsDict d → IsDict (add_nodes uid nodes d)
  unfolding add_nodes
  add_nodes-IsDict [] d h = h
  add_nodes-IsDict (e ∷ es) d h =
      add_nodes-IsDict es (insert (uid e) e d) (insert-IsDict (uid e) e d h)

  remove_ids-IsDict : (ids : List String) (d : Dict E) → IsDict d → IsDict (remove_ids uid ids d)
  unfolding remove_ids
  remove_ids-IsDict [] d h = h
  remove_ids-IsDict (id ∷ ids) d h =
      remove_ids-IsDict ids (if contains id d then erase id d else d) (drop h)
    where
      drop : IsDict d → IsDict (if contains id d then erase id d else d)
      drop k = elim (Bool-cases (contains id d)) [
        | inl yes_there ↦ rw yes_there (erase-IsDict id d k)
        | inr absent ↦ rw absent k
      ]

  -- After messages are added and then some ids deleted, the message repeated for a uid is the last
  -- one added that has it, or the one from before, and none if the uid is among the ids; the next
  -- load reads this dictionary, whatever the file was, and it has no key twice if it had none.
  pub repeated_message :
      (message : List E) (ids : List String) (file : File E) (k : String)
      → IsDict (held file)
      → let file' = delete_repeated_message uid ids (create_repeated_messages uid message file) in
        (lookup k (held file') ≡ (
          if contains_text k ids
          then none
          else or_else (last_with k message) (lookup k (held file))))
        × IsDict (held file')
        × (get_repeated_messages uid file' ≡ (values (held file'), file'))
  unfolding held delete_repeated_message create_repeated_messages get_repeated_messages
      _load_repeated_messages _save_repeated_messages
  repeated_message message ids file k h = (
    lookup-remove_ids k ids (add_nodes uid message (held file))
        ∙ rw (lookup-add_nodes k message (held file)) refl,
    remove_ids-IsDict ids (add_nodes uid message (held file))
        (add_nodes-IsDict message (held file) h),
    refl,
  )
