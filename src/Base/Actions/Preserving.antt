-- ===== src/Base/Actions/Preserving.antt =====
-- Predicates on the object that a method keeps, whether it returns or raises.
use mathlib.Core.Bool.{Bool, true, false}
use free_tak_server.Base.Errors.{Exn, Outcome, returns, raised, ⊤}
use free_tak_server.Base.Tests.{if◌then◌else◌}
use free_tak_server.Base.Actions.{
  Action, pure, raise, resume, ◌>>=◌, ◌>>◌, field, recover, try◌except◌, when,
}

pub record Preserves {S A : Type 0} (P : S → Type 0) (m : Action S A) : Type 0 where
  pub keeps : (s : S) → P s → P (m s).1

module _ {S : Type 0} (P : S → Type 0) where
  recover-kept : {A : Type 0} (a : A) (r : Outcome A × S) → P r.1 → P (recover a r).1
  recover-kept a (returns b, s) h = h
  recover-kept a (raised e, s) h = h

module _ {S : Type 0} {P : S → Type 0} where
  pub pure-Preserves : {A : Type 0} (a : A) → Preserves P (pure a)
  pure-Preserves a = record { keeps = λ s h. h }

  pub raise-Preserves : {A : Type 0} (e : Exn) → Preserves {A = A} P (raise e)
  raise-Preserves e = record { keeps = λ s h. h }

  pub field-Preserves : {A : Type 0} (f : S → A) → Preserves P (field f)
  field-Preserves f = record { keeps = λ s h. h }

  resume-kept :
      {A B : Type 0} (k : A → Action S B) (r : Outcome A × S)
      → ((a : A) → Preserves P (k a))
      → P r.1
      → P (resume k r).1
  resume-kept k (returns a, s) f h = (f a).keeps s h
  resume-kept k (raised e, s) f h = h

  pub >>=-Preserves :
      {A B : Type 0} {m : Action S A} {k : A → Action S B}
      → Preserves P m
      → ((a : A) → Preserves P (k a))
      → Preserves P (m >>= k)
  >>=-Preserves {m = m} {k = k} f g = record { keeps = λ s h. resume-kept k (m s) g (f.keeps s h) }

  pub >>-Preserves :
      {B : Type 0} {m : Action S ⊤} {k : Action S B}
      → Preserves P m
      → Preserves P k
      → Preserves P (m >> k)
  >>-Preserves f g = >>=-Preserves f (λ _. g)

  pub try-Preserves :
      {A : Type 0} {m : Action S A} (a : A) → Preserves P m → Preserves P (try m except a)
  try-Preserves {m = m} a f = record { keeps = λ s h. recover-kept P a (m s) (f.keeps s h) }

  pub when-Preserves : {m : Action S ⊤} (b : Bool) → Preserves P m → Preserves P (when b m)
  when-Preserves true f = record { keeps = f.keeps }
  when-Preserves false f = record { keeps = λ s h. h }

  pub if-Preserves :
      {A : Type 0} {m n : Action S A} (b : Bool)
      → Preserves P m
      → Preserves P n
      → Preserves P (if b then m else n)
  if-Preserves true f g = f
  if-Preserves false f g = g

pub ruleset preserving = (
  pure-Preserves, raise-Preserves, field-Preserves, >>=-Preserves, >>-Preserves, try-Preserves,
  when-Preserves, if-Preserves,
)
