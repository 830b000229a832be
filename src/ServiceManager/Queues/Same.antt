-- ===== src/ServiceManager/Queues/Same.antt =====
-- Queues with one number are one queue.
use free_tak_server.Base.{ℕ, true, ◌≡◌, sym, ap, nat_eq, arith}
use free_tak_server.ServiceManager.Queues.{Queues}

pub nat_eq-equal : {a b : ℕ} → nat_eq a b ≡ true → a ≡ b
nat_eq-equal h = ground arith

pub same_contents :
    {D : Type 0} (p q : ℕ) (s : Queues D) → nat_eq p q ≡ true → s.contents q ≡ s.contents p
same_contents p q s t = ap s.contents (sym (nat_eq-equal t))
