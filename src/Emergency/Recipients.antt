-- ===== src/Emergency/Recipients.antt =====
-- emergency_general_controller.py and emergency_sender_controller.py: who is sent an emergency.
use free_tak_server.Base.{
  ◌≡◌, refl, sym, ◌∙◌, ap, inl, inr, ℕ, String, Bool, true, List, [], ◌∷◌, ◌++◌, append-nil,
  append_assoc, map, select, if◌then◌else◌, nat_eq, Bool-cases,
}
use free_tak_server.Emergency.{
  everyone, users, validate_user_distance, filter_users, filter_by_distance, send_emergencies,
}

-- The object id of the user, once for each of a list.
abbrev pub repeat_for {ℓ} : {A : Type ℓ} → String → List A → List String
repeat_for o [] = []
repeat_for o (x ∷ xs) = o ∷ repeat_for o xs

select_cong {ℓ} :
    {A : Type ℓ} (p q : A → Bool)
    → ((x : A) → p x ≡ q x)
    → (xs : List A) → select p xs ≡ select q xs
select_cong p q same [] = refl
select_cong p q same (x ∷ xs) = rw (same x, select_cong p q same xs) refl

select_all {ℓ} :
    {A : Type ℓ} (p : A → Bool) → ((x : A) → p x ≡ true) → (xs : List A) → select p xs ≡ xs
select_all p always [] = refl
select_all p always (x ∷ xs) = rw (always x, select_all p always xs) refl

module _ {U E : Type 0} (oid : U → String) (nearer : E → U → ℕ → Bool) where
  filter_users-select :
      (radius : ℕ) (e : E) (us : List U) (recipients : List String)
      → filter_users oid nearer radius e us recipients
        ≡ recipients ++ map oid (select (validate_user_distance oid nearer radius e) us)
  unfolding filter_users
  filter_users-select radius e [] recipients = sym (append-nil recipients)
  filter_users-select radius e (u ∷ us) recipients =
      elim (Bool-cases (validate_user_distance oid nearer radius e u)) [
        | inl near ↦
            rw (filter_users, near)
              (filter_users-select radius e us (recipients ++ oid u ∷ [])
                ∙ append_assoc recipients (oid u ∷ []) _)
        | inr far ↦ rw (filter_users, far) (filter_users-select radius e us recipients)
      ]

  send_emergencies-select :
      (radius : ℕ) (u : U) (es : List E) (sent : List String × List E)
      → send_emergencies oid nearer radius u es sent ≡ (
        (sent.0)
            ++ repeat_for (oid u) (select (λ e. validate_user_distance oid nearer radius e u) es),
        (sent.1) ++ select (λ e. validate_user_distance oid nearer radius e u) es,
      )
  unfolding send_emergencies
  send_emergencies-select radius u [] sent = rw (append-nil (sent.0), append-nil (sent.1)) refl
  send_emergencies-select radius u (e ∷ es) sent =
      elim (Bool-cases (validate_user_distance oid nearer radius e u)) [
        | inl near ↦
            rw (send_emergencies, near)
              (send_emergencies-select radius u es ((sent.0) ++ oid u ∷ [], (sent.1) ++ e ∷ [])
                ∙ rw
                    (
                      append_assoc (sent.0) (oid u ∷ []) (
                          repeat_for (oid u)
                            (select (λ x. validate_user_distance oid nearer radius x u) es)),
                      append_assoc (sent.1) (e ∷ [])
                          (select (λ x. validate_user_distance oid nearer radius x u) es),
                    )
                    refl)
        | inr far ↦ rw (send_emergencies, far) (send_emergencies-select radius u es sent)
      ]

  -- A new emergency is for everyone where the radius is 0, and else for the connected users that
  -- are nearer than the radius, in their order. A user who connects is sent the emergencies that
  -- are nearer than the radius, all of them where it is 0, in their order, and is named as a
  -- recipient once for each.
  pub sent_within_radius :
      (radius : ℕ) (e : E) (connections : List U) (u : U) (emergencies : List E)
      → (filter_by_distance oid nearer radius e connections ≡ (
          if nat_eq radius 0
          then everyone
          else users (map oid (select (λ v. nearer e v radius) connections))))
        × (send_emergencies oid nearer radius u emergencies ([], []) ≡ (
            let near =
              (if nat_eq radius 0
                then emergencies
                else select (λ f. nearer f u radius) emergencies) in
            (repeat_for (oid u) near, near)))
  unfolding filter_by_distance validate_user_distance
  sent_within_radius radius e connections u emergencies = elim (Bool-cases (nat_eq radius 0)) [
    | inl zero_radius ↦ (
      rw (filter_by_distance, zero_radius) refl,
      send_emergencies-select radius u emergencies ([], [])
          ∙ ap (λ m. (repeat_for (oid u) m, m))
              (select_all (λ f. validate_user_distance oid nearer radius f u)
                  (λ f. rw zero_radius refl) emergencies
                ∙ rw zero_radius refl),
    )
    | inr some_radius ↦ (
      rw (filter_by_distance, some_radius)
          (ap users (
            filter_users-select radius e connections []
            ∙ ap (map oid) (
                select_cong (validate_user_distance oid nearer radius e) (λ v. nearer e v radius)
                  (λ v. rw some_radius refl) connections))),
      send_emergencies-select radius u emergencies ([], [])
          ∙ ap (λ m. (repeat_for (oid u) m, m))
              (select_cong (λ f. validate_user_distance oid nearer radius f u)
                  (λ f. nearer f u radius) (λ f. rw some_radius refl) emergencies
                ∙ rw some_radius refl),
    )
  ]
