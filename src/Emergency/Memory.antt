-- ===== src/Emergency/Memory.antt =====
-- The dictionaries in memory.
use free_tak_server.Base.{◌≡◌, ◌≢◌, refl, ap, ℕ, zero, suc, ◌<◌, List, [], ◌∷◌, ◌++◌, length, arith}
use free_tak_server.Emergency.{Texts, at, put}

pub at-put_same : (n : ℕ) (e : Texts) (ds : List Texts) → n < length ds → at n (put n e ds) ≡ e
at-put_same n e [] h = ground (arith, h)
at-put_same zero e (d ∷ ds) h = refl
at-put_same (suc n) e (d ∷ ds) h = at-put_same n e ds (omega (arith, h))

pub at-put_other : (n k : ℕ) (e : Texts) (ds : List Texts) → n ≢ k → at k (put n e ds) ≡ at k ds
at-put_other n k e [] h = refl
at-put_other zero zero e (d ∷ ds) h = ground (arith, h)
at-put_other zero (suc k) e (d ∷ ds) h = refl
at-put_other (suc n) zero e (d ∷ ds) h = refl
at-put_other (suc n) (suc k) e (d ∷ ds) h = at-put_other n k e ds (λ same. h (ap suc same))

pub length-put : (n : ℕ) (e : Texts) (ds : List Texts) → length (put n e ds) ≡ length ds
length-put n e [] = refl
length-put zero e (d ∷ ds) = refl
length-put (suc n) e (d ∷ ds) = ap suc (length-put n e ds)

pub at-append : (n : ℕ) (ds es : List Texts) → n < length ds → at n (ds ++ es) ≡ at n ds
at-append n [] es h = ground (arith, h)
at-append zero (d ∷ ds) es h = refl
at-append (suc n) (d ∷ ds) es h = at-append n ds es (omega (arith, h))
