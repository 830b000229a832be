-- ===== src/Emergency/Restart.antt =====
-- emergency_persistence.py: the emergencies that a process saved are those that the next one reads.
use free_tak_server.Base.{
  ◌≡◌, refl, sym, ◌∙◌, ap, inl, inr, ◌<◌, String, true, false, Option, none, some, List, [], ◌∷◌,
  length, ◌==◌, Bool-cases, arith, Outcome, ⊤, returns, raised, key_error,
}
use free_tak_server.Base.Dict.{lookup, insert, erase, contains, values}
use free_tak_server.Emergency.{
  Texts, at, put, Store, init, _update_persistence, _sync_persistence, save_emergency,
  delete_emergency, load_all, get_all_emergencies,
}
use free_tak_server.Emergency.Memory.{at-put_same, length-put, at-append}

-- What a client of the persistence asks for.
pub data Change {ℓ} (E : Type ℓ) : Type ℓ where
  save delete : E → Change E

-- Both names are for one dictionary, which the file holds.
pub record IsAttached (s : Store) : Type 0 where
  pub shared : s._persistence ≡ s.emergencies
  pub inside : s.emergencies < length s.memory
  pub written : s.file ≡ some (at s.emergencies s.memory)

module _ {E : Type 0} (uid : E → String) (dumps : E → String) (loads : String → Outcome E) where
  unfoldable pub change : Change E → Store → Store
  unfolding save_emergency delete_emergency
  change (save e) s = save_emergency uid dumps loads e s
  change (delete e) s = (delete_emergency uid dumps loads e s).1

  unfoldable pub changes : List (Change E) → Store → Store
  changes [] s = s
  changes (c ∷ cs) s = changes cs (change c s)

  -- The dictionary that the changes are to make.
  unfoldable pub replay : List (Change E) → Texts → Texts
  unfolding insert erase
  replay [] d = d
  replay (save e ∷ cs) d = replay cs (insert (uid e) (dumps e) d)
  replay (delete e ∷ cs) d = replay cs (erase (uid e) d)

  init-IsAttached : (file : Option Texts) → IsAttached (init file)
  unfolding init
  init-IsAttached none = record { shared = refl; inside = omega arith; written = refl }
  init-IsAttached (some d) = record { shared = refl; inside = omega arith; written = refl }

  save-IsAttached :
      (e : E) (s : Store) → IsAttached s → IsAttached (save_emergency uid dumps loads e s)
  unfolding save_emergency _update_persistence
  save-IsAttached e s h = record {
    shared = h.shared;
    inside = omega (
      arith,
      h.inside,
      length-put s.emergencies (insert (uid e) (dumps e) (at s.emergencies s.memory)) s.memory,
    );
    written = rw (h.shared) refl;
  }

  delete-IsAttached :
      (e : E) (s : Store) → IsAttached s → IsAttached ((delete_emergency uid dumps loads e s).1)
  unfolding delete_emergency _update_persistence
  delete-IsAttached e s h = elim (Bool-cases (contains (uid e) (at s.emergencies s.memory))) [
    | inr absent ↦ rw (delete_emergency, absent) h
    | inl present ↦
        rw (delete_emergency, present)
          (record {
            shared = h.shared;
            inside = omega (
              arith,
              h.inside,
              length-put s.emergencies (erase (uid e) (at s.emergencies s.memory)) s.memory,
            );
            written = rw (h.shared) refl;
          })
  ]

  -- The dictionary after one change.
  abbrev changed : Change E → Texts → Texts
  changed (save e) d = insert (uid e) (dumps e) d
  changed (delete e) d = erase (uid e) d

  erase_absent : (k : String) (d : Texts) → contains k d ≡ false → erase k d ≡ d
  unfolding erase contains lookup
  erase_absent k [] h = refl
  erase_absent k ((j, x) ∷ d) h = elim (Bool-cases (j == k)) [
    | inl same ↦ ground (arith, same, h)
    | inr other ↦
        rw (erase, other) (ap (λ r. (j, x) ∷ r) (erase_absent k d (ground (arith, other, h))))
  ]

  change-IsAttached : (c : Change E) (s : Store) → IsAttached s → IsAttached (change c s)
  unfolding change
  change-IsAttached (save e) s h = save-IsAttached e s h
  change-IsAttached (delete e) s h = delete-IsAttached e s h

  abbrev pub held : Store → Texts
  held s = at s.emergencies s.memory

  -- What `delete_emergency` leaves, in both cases.
  pub delete_absent :
      (e : E) (s : Store)
      → contains (uid e) (held s) ≡ false
      → delete_emergency uid dumps loads e s ≡ (raised key_error, s)
  unfolding delete_emergency
  delete_absent e s h = rw h refl

  pub delete_present :
      (e : E) (s : Store)
      → contains (uid e) (held s) ≡ true
      → delete_emergency uid dumps loads e s ≡ (
        returns tt,
        _update_persistence
            (record s { memory = put s.emergencies (erase (uid e) (held s)) s.memory }),
      )
  unfolding delete_emergency
  delete_present e s h = rw h refl

  held-delete :
      (e : E) (s : Store)
      → IsAttached s
      → held ((delete_emergency uid dumps loads e s).1) ≡ erase (uid e) (held s)
  unfolding _update_persistence
  held-delete e s h = elim (Bool-cases (contains (uid e) (held s))) [
    | inr absent ↦
        ap (λ (r : Outcome ⊤ × Store). held r.1) (delete_absent e s absent)
        ∙ sym (erase_absent (uid e) (held s) absent)
    | inl present ↦
        ap (λ (r : Outcome ⊤ × Store). held r.1) (delete_present e s present)
        ∙ at-put_same s.emergencies (erase (uid e) (held s)) s.memory h.inside
  ]

  held-change :
      (c : Change E) (s : Store)
      → IsAttached s
      → at (change c s).emergencies (change c s).memory ≡ changed c (at s.emergencies s.memory)
  unfolding change save_emergency delete_emergency _update_persistence
  held-change (save e) s h =
      at-put_same s.emergencies (insert (uid e) (dumps e) (at s.emergencies s.memory)) s.memory
        h.inside
  held-change (delete e) s h = held-delete e s h

  replay-changed :
      (c : Change E) (cs : List (Change E)) (d : Texts)
      → replay (c ∷ cs) d ≡ replay cs (changed c d)
  unfolding replay
  replay-changed (save e) cs d = refl
  replay-changed (delete e) cs d = refl

  changes-IsAttached : (cs : List (Change E)) (s : Store) → IsAttached s → IsAttached (changes cs s)
  unfolding changes
  changes-IsAttached [] s h = h
  changes-IsAttached (c ∷ cs) s h = changes-IsAttached cs (change c s) (change-IsAttached c s h)

  held-changes :
      (cs : List (Change E)) (s : Store)
      → IsAttached s
      → at (changes cs s).emergencies (changes cs s).memory ≡ replay cs (at s.emergencies s.memory)
  unfolding changes replay
  held-changes [] s h = refl
  held-changes (c ∷ cs) s h =
      held-changes cs (change c s) (change-IsAttached c s h)
      ∙ ap (replay cs) (held-change c s h)
      ∙ sym (replay-changed c cs (at s.emergencies s.memory))

  get_all-IsAttached :
      (s : Store)
      → IsAttached s
      → (get_all_emergencies uid dumps loads s).0
        ≡ load_all uid dumps loads (values (at s.emergencies s.memory))
  unfolding get_all_emergencies _sync_persistence
  get_all-IsAttached s h =
      rw (get_all_emergencies, _sync_persistence, h.written)
        (ap (λ d. load_all uid dumps loads (values d))
          (at-append s.emergencies s.memory (at s.emergencies s.memory ∷ []) h.inside))

  -- After any saves and deletions by a process that has not read them all, a process that starts
  -- from the file gets the emergencies that replaying them on the first file's dictionary leaves,
  -- in its order, and so does the first process.
  pub restart_restores :
      (cs : List (Change E)) (d : Texts)
      → let s = changes cs (init (some d)) in
        ((get_all_emergencies uid dumps loads (init s.file)).0
          ≡ load_all uid dumps loads (values (replay cs d)))
        × ((get_all_emergencies uid dumps loads s).0
            ≡ load_all uid dumps loads (values (replay cs d)))
  unfolding init
  restart_restores cs d =
      let s = changes cs (init (some d)) in
      let attached = changes-IsAttached cs (init (some d)) (init-IsAttached (some d)) in
      let held = held-changes cs (init (some d)) (init-IsAttached (some d)) in
      let again : (o : Option Texts)
          → o ≡ some (replay cs d)
          → (get_all_emergencies uid dumps loads (init o)).0
            ≡ load_all uid dumps loads (values (replay cs d)) =
        λ o same.
          rw same (
            get_all-IsAttached (init (some (replay cs d)))
              (init-IsAttached (some (replay cs d)))) in
      (
        again s.file (attached.written ∙ ap some held),
        get_all-IsAttached s attached ∙ ap (λ r. load_all uid dumps loads (values r)) held,
      )
