-- ===== src/Base/Errors.antt =====
-- Python exceptions as values. `raised e` is a call that ends by raising `e`.
use mathlib.Core.Path.{◌≡◌, refl}
use mathlib.Core.Logic.{◌⊎◌, inl, inr}

pub data Exn : Type 0 where
  attribute_error key_error index_error type_error value_error os_error runtime_error system_exit :
      Exn

pub data Outcome {ℓ} (A : Type ℓ) : Type ℓ where
  returns : A → Outcome A
  raised : Exn → Outcome A

infixl 10 ◌>>=◌
abbrev pub ◌>>=◌ {ℓ κ} : {A : Type ℓ} {B : Type κ} → Outcome A → (A → Outcome B) → Outcome B
returns a >>= f = f a
raised e >>= f = raised e

pub Outcome-cases {ℓ} :
    {A : Type ℓ} (r : Outcome A) → ((a : A) × (r ≡ returns a)) ⊎ ((e : Exn) × (r ≡ raised e))
Outcome-cases (returns a) = inl (a, refl)
Outcome-cases (raised e) = inr (e, refl)

-- What a statement returns.
abbrev pub ⊤ : Type 0
⊤ = Unit
