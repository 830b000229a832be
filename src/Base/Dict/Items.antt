-- ===== src/Base/Dict/Items.antt =====
-- Predicates on the items of a dictionary.
use Prim.Native.String.{String}
use mathlib.Core.Path.{◌≡◌, refl, subst}
use mathlib.Core.Logic.{inl, inr}
use mathlib.Core.Bool.{true, false}
use mathlib.Core.Option.{some}
use mathlib.Core.List.{[], ◌∷◌}
use native.Mathlib.Omega.{arith}
use text.Mathlib.Text.{◌==◌}
use text.Mathlib.TextEquality.{eq_iff}
use free_tak_server.Base.Tests.{if◌then◌else◌, Bool-cases}
use free_tak_server.Base.Dict.{Dict, lookup, insert, erase, contains, lookup-erase}

-- `P` holds of each key with its value.
abbrev pub AllItems {ℓ κ} : {V : Type ℓ} → (String → V → Type κ) → Dict V → Type κ
AllItems P [] = Unit
AllItems P ((k, v) ∷ d) = P k v × AllItems P d

module _ {ℓ κ} {V : Type ℓ} (P : String → V → Type κ) where
  pub insert-AllItems :
      (k : String) (v : V) (d : Dict V) → P k v → AllItems P d → AllItems P (insert k v d)
  unfolding insert
  insert-AllItems k v [] p h = (p, tt)
  insert-AllItems k v ((j, w) ∷ d) p (q, h) = elim (Bool-cases (j == k)) [
    | inl same ↦ rw (insert, same) (subst (λ x. P x v) (same_key same) p, h)
    | inr other ↦ rw (insert, other) (q, insert-AllItems k v d p h)
  ]
    where
      same_key : (j == k) ≡ true → k ≡ j
      same_key e = ground (arith, eq_iff j k)

  pub erase-AllItems : (k : String) (d : Dict V) → AllItems P d → AllItems P (erase k d)
  unfolding erase
  erase-AllItems k [] h = tt
  erase-AllItems k ((j, w) ∷ d) (q, h) = elim (Bool-cases (j == k)) [
    | inl same ↦ rw (erase, same) (erase-AllItems k d h)
    | inr other ↦ rw (erase, other) (q, erase-AllItems k d h)
  ]

  pub lookup-AllItems :
      (k : String) (v : V) (d : Dict V) → AllItems P d → lookup k d ≡ some v → P k v
  unfolding lookup
  lookup-AllItems k v [] h e = absurd (ground arith)
  lookup-AllItems k v ((j, w) ∷ d) (q, h) e = elim (Bool-cases (j == k)) [
    | inl same ↦
        subst (λ x. P x v) (ground (arith, eq_iff j k)) (subst (λ y. P j y) (ground arith) q)
    | inr other ↦ lookup-AllItems k v d h (ground arith)
  ]

pub contains-erase {ℓ} :
    {V : Type ℓ} (k j : String) (d : Dict V)
    → contains j (erase k d) ≡ (if k == j then false else contains j d)
unfolding contains
contains-erase k j d = elim (Bool-cases (k == j)) [
  | inl t ↦ rw (contains, lookup-erase k j d, t) refl
  | inr t ↦ rw (contains, lookup-erase k j d, t) refl
]
