-- ===== src/Emergency/Detached.antt =====
-- emergency_persistence.py: after `get_all_emergencies` the two names are for two dictionaries, and
-- what is saved or deleted later does not reach the file.
use free_tak_server.Base.{
  ◌≡◌, ◌≢◌, refl, sym, ◌∙◌, ap, inl, inr, ◌<◌, String, some, List, [], ◌∷◌, ◌++◌, length,
  Bool-cases, arith, Outcome,
}
use free_tak_server.Base.Dict.{insert, erase, contains}
use free_tak_server.Emergency.{
  Texts, at, put, Store, _update_persistence, _sync_persistence, save_emergency,
  get_all_emergencies,
}
use free_tak_server.Emergency.Memory.{at-put_other}
use free_tak_server.Emergency.Restart.{
  Change, save, delete, change, changes, held, delete_absent, delete_present,
}

-- The names are for two dictionaries, and the file holds the one that is not changed.
pub record IsDetached (s : Store) : Type 0 where
  pub apart : s.emergencies ≢ s._persistence
  pub written : s.file ≡ some (at s._persistence s.memory)

module _ {E : Type 0} (uid : E → String) (dumps : E → String) (loads : String → Outcome E) where
  -- Putting another dictionary at `emergencies` and writing the file.
  update-IsDetached :
      (d : Texts) (s : Store)
      → IsDetached s
      → IsDetached (_update_persistence (record s { memory = put s.emergencies d s.memory }))
  unfolding _update_persistence
  update-IsDetached d s h = record { apart = h.apart; written = refl }

  update-file :
      (d : Texts) (s : Store)
      → IsDetached s
      → (_update_persistence (record s { memory = put s.emergencies d s.memory })).file ≡ s.file
  unfolding _update_persistence
  update-file d s h =
      ap some (at-put_other s.emergencies s._persistence d s.memory h.apart) ∙ sym h.written

  change-IsDetached :
      (c : Change E) (s : Store)
      → IsDetached s
      → IsDetached (change uid dumps loads c s) × ((change uid dumps loads c s).file ≡ s.file)
  unfolding change save_emergency
  change-IsDetached (save e) s h =
      let d = insert (uid e) (dumps e) (at s.emergencies s.memory) in
      (update-IsDetached d s h, update-file d s h)
  change-IsDetached (delete e) s h = elim (Bool-cases (contains (uid e) (held uid dumps loads s))) [
    | inr absent ↦ rw (change, delete_absent uid dumps loads e s absent) (h, refl)
    | inl present ↦
        rw (change, delete_present uid dumps loads e s present)
          (
            update-IsDetached (erase (uid e) (at s.emergencies s.memory)) s h,
            update-file (erase (uid e) (at s.emergencies s.memory)) s h,
          )
  ]

  changes-file :
      (cs : List (Change E)) (s : Store)
      → IsDetached s
      → (changes uid dumps loads cs s).file ≡ s.file
  unfolding changes
  changes-file [] s h = refl
  changes-file (c ∷ cs) s h =
      let (h', same) = change-IsDetached c s h in
      changes-file cs (change uid dumps loads c s) h' ∙ same

  at-last : (ds : List Texts) (d : Texts) → at (length ds) (ds ++ d ∷ []) ≡ d
  at-last [] d = refl
  at-last (e ∷ ds) d = at-last ds d

  synced-IsDetached :
      (s : Store) (d : Texts)
      → s.file ≡ some d
      → s.emergencies < length s.memory
      → IsDetached ((get_all_emergencies uid dumps loads s).1)
        × ((get_all_emergencies uid dumps loads s).1.file ≡ some d)
  unfolding get_all_emergencies _sync_persistence
  synced-IsDetached s d there inside =
      rw (get_all_emergencies, _sync_persistence, there)
        (
          record {
            apart = λ same. ground (arith, same, inside);
            written = there ∙ ap some (sym (at-last s.memory d));
          },
          there,
        )

  -- Once a process has read all emergencies, nothing that it saves or deletes changes the file,
  -- whatever the changes are: the file keeps the dictionary that it had.
  pub later_changes_lost :
      (cs : List (Change E)) (s : Store) (d : Texts)
      → s.file ≡ some d
      → s.emergencies < length s.memory
      → (changes uid dumps loads cs ((get_all_emergencies uid dumps loads s).1)).file ≡ some d
  later_changes_lost cs s d there inside =
      let (detached, kept) = synced-IsDetached s d there inside in
      changes-file cs ((get_all_emergencies uid dumps loads s).1) detached ∙ kept
