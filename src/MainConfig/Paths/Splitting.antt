-- ===== src/MainConfig/Paths/Splitting.antt =====
-- Texts split at the slashes.
use Prim.Native.Char.{Char, code}
use Prim.Native.String.append.{nil, cons}
use free_tak_server.Base.{
  ◌≡◌, refl, ◌∙◌, ap, inl, inr, String, str_append, Bool, true, false, not, ◌&&◌, List, [], ◌∷◌,
  All, arith, Bool-cases,
}
use free_tak_server.MainConfig.Text.{split_at, put_first}
use free_tak_server.MainConfig.Paths.{slash}

-- `"/" not in s`
unfoldable pub slash_free : String → Bool
slash_free String.[] = true
slash_free (String.◌∷◌ c s) = not (slash (code c)) && slash_free s

pub slash_free-nil : slash_free "" ≡ true
unfolding slash_free
slash_free-nil = refl

pub glue : (c : Char) (p : String) → str_append (String.◌∷◌ c "") p ≡ String.◌∷◌ c p
glue c p = cons c "" p ∙ ap (String.◌∷◌ c) (nil p)

split_at-kept :
    (c : Char) (s : String)
    → slash (code c) ≡ false
    → split_at slash (String.◌∷◌ c s) ≡ put_first (String.◌∷◌ c "") (split_at slash s)
unfolding split_at
split_at-kept c s h = rw h refl

pub split_at-cut :
    (c : Char) (s : String)
    → slash (code c) ≡ true
    → split_at slash (String.◌∷◌ c s) ≡ "" ∷ split_at slash s
unfolding split_at
split_at-cut c s h = rw h refl

both : (a b : Bool) → (not a && b) ≡ true → (a ≡ false) × (b ≡ true)
both a b h = (ground (arith, h), ground (arith, h))

slash_free-head :
    (c : Char) (p : String) → slash_free (String.◌∷◌ c p) ≡ true → slash (code c) ≡ false
unfolding slash_free
slash_free-head c p h = (both (slash (code c)) (slash_free p) h).0

slash_free-tail : (c : Char) (p : String) → slash_free (String.◌∷◌ c p) ≡ true → slash_free p ≡ true
unfolding slash_free
slash_free-tail c p h = (both (slash (code c)) (slash_free p) h).1

slash_free-cons :
    (c : Char) (p : String)
    → slash (code c) ≡ false
    → slash_free p ≡ true
    → slash_free (String.◌∷◌ c p) ≡ true
unfolding slash_free
slash_free-cons c p h k = rw (h, k) refl

put_first-slash_free :
    (c : Char) (ps : List String)
    → slash (code c) ≡ false
    → All (λ p. slash_free p ≡ true) ps
    → All (λ p. slash_free p ≡ true) (put_first (String.◌∷◌ c "") ps)
put_first-slash_free c [] h k = (slash_free-cons c "" h slash_free-nil, tt)
put_first-slash_free c (p ∷ ps) h (q, k) = (rw (glue c p) (slash_free-cons c p h q), k)

-- The pieces of a split have no slash.
pub split_at-slash_free : (s : String) → All (λ p. slash_free p ≡ true) (split_at slash s)
unfolding split_at
split_at-slash_free String.[] = (slash_free-nil, tt)
split_at-slash_free (String.◌∷◌ c s) = elim (Bool-cases (slash (code c))) [
  | inl cut ↦ rw (split_at-cut c s cut) (slash_free-nil, split_at-slash_free s)
  | inr kept ↦
      rw (split_at-kept c s kept)
        (put_first-slash_free c (split_at slash s) kept (split_at-slash_free s))
]

pub split_at-append :
    (p rest : String)
    → slash_free p ≡ true
    → split_at slash (str_append p (str_append "/" rest)) ≡ p ∷ split_at slash rest
split_at-append String.[] rest free =
    rw (nil (str_append "/" rest), glue "/" rest, split_at-cut "/" rest refl) refl
split_at-append (String.◌∷◌ c p) rest free =
    rw
      (
        cons c p (str_append "/" rest),
        split_at-kept c (str_append p (str_append "/" rest)) (slash_free-head c p free),
        split_at-append p rest (slash_free-tail c p free),
        glue c p,
      )
      refl

pub split_at-free : (p : String) → slash_free p ≡ true → split_at slash p ≡ p ∷ []
unfolding split_at
split_at-free String.[] free = refl
split_at-free (String.◌∷◌ c p) free =
    rw
      (
        split_at-kept c p (slash_free-head c p free),
        split_at-free p (slash_free-tail c p free),
        glue c p,
      )
      refl
