-- ===== src/MainConfig/Loading/Stored.antt =====
-- MainConfig.py: which settings have a value after a stage of loading, and which never change.
use mathlib.Core.Path.{subst}
use free_tak_server.Base.{
  ◌≡◌, refl, inl, inr, String, Bool, true, false, not, ◌||◌, some, [], ◌∷◌, ◌==◌, eq_iff, arith,
  eq_refl, Bool-cases, ◌⊎◌, Exn, Option-cases, Outcome-cases, returns, raised,
}
use free_tak_server.Base.Dict.{lookup, lookup-insert, lookup-nil}
use free_tak_server.MainConfig.Values.{Value, Setting, Settings, Values, convert, entry, set}
use free_tak_server.MainConfig.Loading.{Load, preload}
use free_tak_server.MainConfig.Loading.Stages.{then_load_keeps}

-- The setting has a value.
abbrev pub IsStored : String → Values → Type 0
IsStored name values = (v : Value) × (lookup name values ≡ some v)

pub Load-cases :
    (l : Load)
    → ((vs : Values) × (l ≡ (vs, returns tt))) ⊎ ((vs : Values) × (e : Exn) × (l ≡ (vs, raised e)))
Load-cases (vs, returns tt) = inl (vs, refl)
Load-cases (vs, raised e) = inr (vs, e, refl)

-- The values of the readonly settings are those of `values₀`.
abbrev pub IsFixed : Settings → Values → Values → Type 0
IsFixed defaults values₀ values =
    (name : String) (s : Setting)
    → lookup name defaults ≡ some s
    → s.readonly ≡ true
    → lookup name values ≡ lookup name values₀

module _ (defaults : Settings) where
  pub set-IsStored :
      (name : String) (value : Value) (override_ro : Bool) (values : Values) (j : String)
      → IsStored j values
      → IsStored j ((set defaults name value override_ro values).0)
  unfolding set entry
  set-IsStored name value override_ro values j (w, has) =
      elim (Option-cases (lookup name defaults)) [
        | inl unknown ↦ rw (set, entry, unknown) (w, has)
        | inr (s, known) ↦ elim (Bool-cases (not (s.readonly) || override_ro)) [
          | inr closed ↦ rw (set, entry, known, closed) (w, has)
          | inl free ↦ elim (Outcome-cases (convert (s.type) value)) [
            | inr (e, bad) ↦ rw (set, entry, known, free, bad) (w, has)
            | inl (v, good) ↦
                rw (set, entry, known, free, good)
                  (elim (Bool-cases (name == j)) [
                    | inl same ↦ (v, ground (arith, lookup-insert name j v values))
                    | inr other ↦ (w, ground (arith, lookup-insert name j v values))
                  ])
          ]
        ]
      ]

  set_stores :
      (name : String) (value : Value) (values : Values)
      → (set defaults name value true values).1 ≡ returns tt
      → IsStored name ((set defaults name value true values).0)
  unfolding set entry
  set_stores name value values done = elim (Option-cases (lookup name defaults)) [
    | inl unknown ↦ ground (arith, unknown, done)
    | inr (s, known) ↦ elim (Outcome-cases (convert (s.type) value)) [
      | inr (e, bad) ↦ ground (arith, known, bad, done, Bool-cases (s.readonly))
      | inl (v, good) ↦ (
        v,
        ground (
          arith,
          lookup-insert name name v values,
          eq_refl name,
          known,
          good,
          Bool-cases (s.readonly),
        ),
      )
    ]
  ]

  preload-IsStored :
      (rest : Settings) (values : Values) (j : String)
      → IsStored j values
      → IsStored j ((preload defaults rest values).0)
  unfolding preload
  preload-IsStored [] values j has = has
  preload-IsStored ((name, m) ∷ rest) values j has =
      then_load_keeps {P = IsStored j} (set defaults name (m.default) true values)
        (λ after. preload defaults rest after) (set-IsStored name (m.default) true values j has)
        (λ after. preload-IsStored rest after j)

  -- The setting that was just stored.
  set-IsStored_here :
      (name : String) (value : Value) (values vs : Values)
      → set defaults name value true values ≡ (vs, returns tt)
      → IsStored name vs
  unfolding set
  set-IsStored_here name value values vs went =
      let has = set_stores name value values (ground (arith, went)) in
      (has.0, ground (arith, has.1, went))

  pub preload_stores :
      (rest : Settings) (values : Values)
      → (preload defaults rest values).1 ≡ returns tt
      → (j : String) (s : Setting) → lookup j rest ≡ some s
      → IsStored j ((preload defaults rest values).0)
  unfolding preload lookup
  preload_stores [] values done j s declared = ground (arith, lookup-nil {V = Setting} j, declared)
  preload_stores ((name, m) ∷ rest) values done j s declared =
      elim (Load-cases (set defaults name (m.default) true values)) [
        | inr (vs, e, ended) ↦ ground (arith, ended, done)
        | inl (vs, went) ↦ rw (went) (elim (Bool-cases (name == j)) [
          | inl same ↦ preload-IsStored rest vs j (
              subst (λ k. IsStored k vs) (ground (arith, eq_iff name j, same))
                (set-IsStored_here name (m.default) values vs went))
          | inr other ↦
              preload_stores rest vs (ground (arith, went, done)) j s
                (ground (arith, other, declared))
        ])
      ]

  pub set-IsFixed :
      (values₀ : Values) (name : String) (value : Value) (values : Values)
      → IsFixed defaults values₀ values
      → IsFixed defaults values₀ ((set defaults name value false values).0)
  unfolding set entry
  set-IsFixed values₀ name value values kept j t declared fixed =
      elim (Option-cases (lookup name defaults)) [
        | inl unknown ↦ rw (set, entry, unknown) (kept j t declared fixed)
        | inr (s, known) ↦ elim (Bool-cases (not (s.readonly) || false)) [
          | inr closed ↦ rw (set, entry, known, closed) (kept j t declared fixed)
          | inl free ↦ elim (Outcome-cases (convert (s.type) value)) [
            | inr (e, bad) ↦ rw (set, entry, known, free, bad) (kept j t declared fixed)
            | inl (v, good) ↦
                rw (set, entry, known, free, good)
                  (ground (
                    arith,
                    lookup-insert name j v values,
                    eq_iff name j,
                    kept j t declared fixed,
                    known,
                    declared,
                    free,
                  ))
          ]
        ]
      ]
