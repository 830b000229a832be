-- ===== src/Emergency/Examples.antt =====
-- The emergencies at concrete inputs.
use free_tak_server.Base.{◌≡◌, refl, ℕ, String, Bool, ltb, List, [], ◌∷◌, some, arith, returns}
use free_tak_server.Base.Dict.{insert, erase, values}
use free_tak_server.Emergency.{
  Store, init, get_all_emergencies, users, filter_by_distance, send_emergencies,
}
use free_tak_server.Emergency.Restart.{Change, save, delete, changes, replay, restart_restores}
use free_tak_server.Emergency.Detached.{later_changes_lost}
use free_tak_server.Emergency.Recipients.{sent_within_radius}

-- Events that are their own uid and their own text.
abbrev itself : String → String
itself e = e

abbrev work : List (Change String)
work = save "a" ∷ save "b" ∷ delete "a" ∷ []

restart_restores_example :
    ((get_all_emergencies itself itself returns
        (init (changes itself itself returns work (init (some []))).file)).0
      ≡ returns ("b" ∷ []))
    × ((get_all_emergencies itself itself returns
          (changes itself itself returns work (init (some [])))).0
        ≡ returns ("b" ∷ []))
unfolding replay insert erase values
restart_restores_example = restart_restores itself itself returns work []

abbrev one_saved : Store
one_saved = record {
  file = some (("a", "a") ∷ []);
  memory = (("a", "a") ∷ []) ∷ [];
  _persistence = 0;
  emergencies = 0;
}

later_changes_lost_example :
    (changes itself itself returns work
      ((get_all_emergencies itself itself returns one_saved).1)).file
    ≡ some (("a", "a") ∷ [])
later_changes_lost_example =
    later_changes_lost itself itself returns work one_saved (("a", "a") ∷ []) refl (omega arith)

abbrev nearer : ℕ → ℕ → ℕ → Bool
nearer e u radius = ltb u radius

abbrev name : ℕ → String
name u = "u"

sent_within_radius_example :
    (filter_by_distance name nearer 10 0 (5 ∷ 20 ∷ []) ≡ users ("u" ∷ []))
    × (send_emergencies name nearer 10 5 (0 ∷ 1 ∷ []) ([], []) ≡ ("u" ∷ "u" ∷ [], 0 ∷ 1 ∷ []))
sent_within_radius_example = sent_within_radius name nearer 10 0 (5 ∷ 20 ∷ []) 5 (0 ∷ 1 ∷ [])
