-- ===== src/MainConfig/Paths/Inside.antt =====
-- MainConfig.py, `validate_and_sanitize_path`: a sanitized path goes nowhere up.
use Prim.Native.String.append.{cons}
use free_tak_server.Base.{
  ◌≡◌, refl, ◌∙◌, ap, inl, inr, ◌⊎◌, String, str_append, true, false, not, ◌&&◌, ◌||◌, List, [],
  ◌∷◌, ◌++◌, All, ◌==◌, arith, Bool-cases,
}
use free_tak_server.MainConfig.Paths.Splitting.{
  slash_free, split_at-slash_free, split_at-append, split_at-free, split_at-cut, glue,
}
use free_tak_server.MainConfig.Text.{split_at}
use free_tak_server.MainConfig.Paths.{
  names, leading, relative, slash, normal, drop_last, join, normpath, relpath, from_root, sanitized,
}

-- A component that names something inside its directory.
abbrev pub IsInside : String → Type 0
IsInside p =
    ((p == "") ≡ false) × ((p == ".") ≡ false) × ((p == "..") ≡ false) × (slash_free p ≡ true)

module _ (P : String → Type 0) where
  All-append : (xs ys : List String) → All P xs → All P ys → All P (xs ++ ys)
  All-append [] ys h k = k
  All-append (x ∷ xs) ys (p, h) k = (p, All-append xs ys h k)

  All-drop_last : (xs : List String) → All P xs → All P (drop_last xs)
  All-drop_last [] h = tt
  All-drop_last (x ∷ []) h = tt
  All-drop_last (x ∷ y ∷ ys) (p, h) = (p, All-drop_last (y ∷ ys) h)

normal-IsInside :
    (done ps : List String)
    → All IsInside done
    → All (λ p. slash_free p ≡ true) ps
    → All IsInside (normal done ps)
unfolding normal
normal-IsInside done [] h k = h
normal-IsInside done (p ∷ ps) h (free, k) = elim (Bool-cases (p == "" || p == ".")) [
  | inl skip ↦ rw (normal, skip) (normal-IsInside done ps h k)
  | inr solid ↦ elim (Bool-cases (p == "..")) [
    | inl up ↦
        rw (normal, solid, up)
          (normal-IsInside (drop_last done) ps (All-drop_last IsInside done h) k)
    | inr down ↦
        rw (normal, solid, down)
          (normal-IsInside (done ++ p ∷ []) ps
            (All-append IsInside done (p ∷ []) h
              ((ground (arith, solid), ground (arith, solid), down, free), tt))
            k)
  ]
]

split_at-join :
    (p : String) (ps : List String)
    → All IsInside (p ∷ ps)
    → split_at slash (join (p ∷ ps)) ≡ p ∷ ps
split_at-join p [] (inside, h) = split_at-free p (inside.3)
split_at-join p (q ∷ qs) (inside, h) =
    split_at-append p (join (q ∷ qs)) (inside.3) ∙ ap (λ r. p ∷ r) (split_at-join q qs h)

names-IsInside : (ps : List String) → All IsInside ps → names ps ≡ ps
unfolding names
names-IsInside [] h = refl
names-IsInside (p ∷ ps) (inside, h) = rw (names, inside.0, names-IsInside ps h) refl

names-join : (ps : List String) → All IsInside ps → names (split_at slash (join ps)) ≡ ps
unfolding split_at names
names-join [] h = refl
names-join (p ∷ ps) h = rw (split_at-join p ps h) (names-IsInside (p ∷ ps) h)

names-slash : (s : String) → names (split_at slash (str_append "/" s)) ≡ names (split_at slash s)
unfolding names
names-slash s = rw (glue "/" s, split_at-cut "/" s refl) refl

names-slashes : (s : String) → names (split_at slash (str_append "//" s)) ≡ names (split_at slash s)
unfolding names
names-slashes s = rw (cons "/" "/" s, split_at-cut "/" (str_append "/" s) refl) (names-slash s)

leading-cases : (ps : List String) → (leading ps ≡ "/") ⊎ (leading ps ≡ str_append "/" "/")
leading-cases [] = inl refl
leading-cases (a ∷ []) = inl refl
leading-cases (a ∷ b ∷ []) = inl refl
leading-cases (a ∷ b ∷ c ∷ []) = elim (Bool-cases (a == "" && b == "")) [
  | inl two ↦ inr (rw two refl)
  | inr one ↦ inl (rw one refl)
]
leading-cases (a ∷ b ∷ c ∷ d ∷ ps) = elim (Bool-cases (a == "" && b == "" && not (c == ""))) [
  | inl two ↦ inr (rw two refl)
  | inr one ↦ inl (rw one refl)
]

names-normpath : (s : String) → names (split_at slash (normpath s)) ≡ normal [] (split_at slash s)
unfolding normpath
names-normpath s =
    let inside = normal-IsInside [] (split_at slash s) tt (split_at-slash_free s) in
    let pieces = normal [] (split_at slash s) in
    elim (leading-cases (split_at slash s)) [
      | inl one ↦ rw (normpath, one) (names-slash (join pieces) ∙ names-join pieces inside)
      | inr two ↦ rw (normpath, two) (names-slashes (join pieces) ∙ names-join pieces inside)
    ]

split_at-relative :
    (ps : List String)
    → All IsInside ps
    → All (λ p. (p == "..") ≡ false) (split_at slash (relative ps))
unfolding split_at
split_at-relative [] h = (refl, tt)
split_at-relative (p ∷ ps) h = rw (split_at-join p ps h) (only (p ∷ ps) h)
  where
    only : (qs : List String) → All IsInside qs → All (λ q. (q == "..") ≡ false) qs
    only [] k = tt
    only (q ∷ qs) (inside, k) = (inside.2, only qs k)

-- The path that is checked and stored is absolute and none of its components is "..", whatever
-- the configured text is.
pub sanitized_stays :
    (s : String)
    → (rest : List String) × (split_at slash (sanitized s) ≡ "" ∷ rest)
      × All (λ p. (p == "..") ≡ false) rest
unfolding sanitized relpath
sanitized_stays s =
    let inside =
      normal-IsInside [] (split_at slash (normpath (from_root s))) tt
        (split_at-slash_free (normpath (from_root s))) in
    (
      split_at slash (relpath (normpath (from_root s))),
      rw (sanitized, glue "/" (relpath (normpath (from_root s))))
          (split_at-cut "/" (relpath (normpath (from_root s))) refl),
      rw (relpath, names-normpath (normpath (from_root s))) (split_at-relative _ inside),
    )
