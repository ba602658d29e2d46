-- ===== src/Conditions/Glob/Globs.antt =====
-- When a path matches a pattern of literals and stars.
use hp_guardian.Prelude.{
  ℕ, true, false, List, [], ◌∷◌, ◌++◌, ◌≡◌, refl, sym, subst, arith, ◌↔◌, inl, inr, ◌==◌, nat_eq,
  ==_iff, Bool-cases,
}
use mathlib.Core.List.{reverse, reverse-cons, reverse-reverse, append-nil}
use hp_guardian.Conditions.Glob.{star, path_matches}
use hp_guardian.Conditions.Glob.Cells.{ends, path_matches-ends}

-- A star takes any run of characters, `/` included; another character takes itself.
pub data Globs : List ℕ → List ℕ → Type 0 where
  empty : Globs [] []
  character : {c : ℕ} {p s : List ℕ} → (c == star) ≡ false → Globs p s → Globs (c ∷ p) (c ∷ s)
  skip : {c : ℕ} {p s : List ℕ} → (c == star) ≡ true → Globs p s → Globs (c ∷ p) s
  more : {c x : ℕ} {p s : List ℕ} → (c == star) ≡ true → Globs (c ∷ p) s → Globs (c ∷ p) (x ∷ s)

ends_sound : (p s : List ℕ) → ends p s ≡ true → Globs p s
unfolding ends
ends_sound [] [] h = empty
ends_sound [] (x ∷ s) h = cc
ends_sound (c ∷ p) [] h = skip (ground arith) (ends_sound p [] (ground arith))
ends_sound (c ∷ p) (x ∷ s) h = elim (Bool-cases (c == star)) [
  | inl w ↦ elim (Bool-cases (ends p (x ∷ s))) [
    | inl e ↦ skip w (ends_sound p (x ∷ s) e)
    | inr n ↦ more w (ends_sound (c ∷ p) s (ground arith))
  ]
  | inr l ↦
      subst (λ y. Globs (c ∷ p) (y ∷ s)) ((==_iff c x).0 (ground arith))
        (character l (ends_sound p s (ground arith)))
]

ends_complete : {p s : List ℕ} → Globs p s → ends p s ≡ true
unfolding ends
ends_complete empty = refl
ends_complete (character {c} l g) = ground (arith, ends_complete g)
ends_complete (skip {s = []} w g) = ground (arith, ends_complete g)
ends_complete (skip {s = x ∷ s} w g) = ground (arith, ends_complete g)
ends_complete (more w g) = ground (arith, ends_complete g)

Globs-append : {p s : List ℕ} (q t : List ℕ) → Globs p s → Globs q t → Globs (p ++ q) (s ++ t)
Globs-append q t empty h = h
Globs-append q t (character l g) h = character l (Globs-append q t g h)
Globs-append q t (skip w g) h = skip w (Globs-append q t g h)
Globs-append q t (more w g) h = more w (Globs-append q t g h)

one_more : {c : ℕ} (t : List ℕ) (x : ℕ) → (c == star) ≡ true → Globs (c ∷ []) (t ++ x ∷ [])
one_more [] x w = more w (skip w empty)
one_more (y ∷ t) x w = more w (one_more t x w)

-- A star at the end of a pattern takes one more character at the end of the path.
Globs-extend :
    (c x : ℕ) (q : List ℕ) {p t : List ℕ}
    → (c == star) ≡ true
    → Globs p t
    → p ≡ q ++ c ∷ []
    → Globs p (t ++ x ∷ [])
Globs-extend c x [] {p} {t} w g e = subst (λ y. Globs y (t ++ x ∷ [])) (sym e) (one_more t x w)
Globs-extend c x (d ∷ q) w empty e = cc
Globs-extend c x (d ∷ q) w (character l g) e = character l (Globs-extend c x q w g (cc))
Globs-extend c x (d ∷ q) w (skip v g) e = skip v (Globs-extend c x q w g (cc))
Globs-extend c x (d ∷ q) w (more v g) e = more v (Globs-extend c x (d ∷ q) w g e)

Globs-reverse : {p s : List ℕ} → Globs p s → Globs (reverse p) (reverse s)
Globs-reverse empty = empty
Globs-reverse (character {c} {p} {s} l g) =
    rw (reverse-cons c p, reverse-cons c s)
      (Globs-append (c ∷ []) (c ∷ []) (Globs-reverse g) (character l empty))
Globs-reverse (skip {c} {p} {s} w g) = rw (reverse-cons c p) (
    subst (Globs (reverse p ++ c ∷ [])) (append-nil (reverse s))
      (Globs-append (c ∷ []) [] (Globs-reverse g) (skip w empty)))
Globs-reverse (more {c} {x} {p} {s} w g) =
    rw (reverse-cons c p, reverse-cons x s)
      (Globs-extend c x (reverse p) w (rw (reverse-cons c p) at (Globs-reverse g)) refl)

Globs-of_reverse : (p s : List ℕ) → Globs (reverse p) (reverse s) → Globs p s
Globs-of_reverse p s g = rw (reverse-reverse p, reverse-reverse s) at (Globs-reverse g)

-- The table of `path_matches` decides whether the path matches the pattern.
pub path_matches_iff :
    (pattern path : List ℕ) → (path_matches pattern path ≡ true) ↔ Globs pattern path
path_matches_iff pattern path = rw (path_matches-ends pattern path) (
  λ h. Globs-of_reverse pattern path (ends_sound (reverse pattern) (reverse path) h),
  λ g. ends_complete (Globs-reverse g),
)
