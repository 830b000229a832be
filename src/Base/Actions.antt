-- ===== src/Base/Actions.antt =====
-- Methods that change an object and may raise: the object is passed on, also by a call that raises.
pub mod Preserving
use mathlib.Core.Bool.{Bool, true, false}
use free_tak_server.Base.Errors.{Exn, Outcome, returns, raised, ⊤}
use free_tak_server.Base.Tests.{if◌then◌else◌}

abbrev pub Action : Type 0 → Type 0 → Type 0
Action S A = S → Outcome A × S

abbrev pub pure : {S A : Type 0} → A → Action S A
pure a s = (returns a, s)

abbrev pub raise : {S A : Type 0} → Exn → Action S A
raise e s = (raised e, s)

-- What follows a call.
abbrev pub resume : {S A B : Type 0} → (A → Action S B) → Outcome A × S → Outcome B × S
resume f (returns a, s) = f a s
resume f (raised e, s) = (raised e, s)

infixl 5 ◌>>=◌ ◌>>◌
abbrev pub ◌>>=◌ : {S A B : Type 0} → Action S A → (A → Action S B) → Action S B
◌>>=◌ m f s = resume f (m s)

abbrev pub ◌>>◌ : {S B : Type 0} → Action S ⊤ → Action S B → Action S B
m >> k = m >>= λ _. k

-- An assignment.
abbrev pub change : {S : Type 0} → (S → S) → Action S ⊤
change f s = (returns tt, f s)

-- The value of a field.
abbrev pub field : {S A : Type 0} → (S → A) → Action S A
field f s = (returns (f s), s)

-- A call that raises `e` where its condition fails.
abbrev pub require : {S : Type 0} → Bool → Exn → Action S ⊤
require b e s = if b then (returns tt, s) else (raised e, s)

abbrev pub recover : {S A : Type 0} → A → Outcome A × S → Outcome A × S
recover a (returns b, s) = (returns b, s)
recover a (raised e, s) = (returns a, s)

-- `try: m` with an `except` that returns `a`: what `m` changed before it raised stays changed.
infix 1 try◌except◌
abbrev pub try◌except◌ : {S A : Type 0} → Action S A → A → Action S A
try◌except◌ m a s = recover a (m s)

-- `if b: m`
abbrev pub when : {S : Type 0} → Bool → Action S ⊤ → Action S ⊤
when b m s = if b then m s else (returns tt, s)

-- A statement whose value is not used.
abbrev pub ignore : {S A : Type 0} → Action S A → Action S ⊤
ignore m = m >>= λ _. pure tt
