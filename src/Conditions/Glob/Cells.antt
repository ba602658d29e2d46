-- ===== src/Conditions/Glob/Cells.antt =====
-- The rows of `path_matches`: each cell says whether the pattern read so far matches a prefix of the
-- path. Both are taken from their ends, as the loops extend them there.
use hp_guardian.Prelude.{
  ℕ, Bool, true, false, ◌&&◌, ◌||◌, List, [], ◌∷◌, ◌≡◌, refl, ap, ◌∙◌, arith, some, if◌then◌else◌,
  ◌==◌, nat_eq, length, get_elem?, replicate, Bool-cases, inl, inr,
}
use mathlib.Core.List.{reverse_aux}
use hp_guardian.Conditions.Glob.{
  star, star_cells, literal_cells, next_row, rows, first_row, path_matches,
}

-- The backward reading: `p` and `s` are reversed.
unfoldable pub ends : List ℕ → List ℕ → Bool
ends [] [] = true
ends [] (x ∷ s) = false
ends (c ∷ p) [] = if c == star then ends p [] else false
ends (c ∷ p) (x ∷ s) =
    let without = ends p (x ∷ s) in
    let longer = ends (c ∷ p) s in
    let both = ends p s in if c == star then without || longer else both && c == x

-- The cells behind the first one, `s` being the reversed part of the path before them.
abbrev later_cells : List ℕ → List ℕ → List ℕ → List Bool
later_cells p s [] = []
later_cells p s (x ∷ path) = ends p (x ∷ s) ∷ later_cells p (x ∷ s) path

-- The row of `p`: one cell for each prefix of the path.
abbrev cells : List ℕ → List ℕ → List Bool
cells p path = ends p [] ∷ later_cells p [] path

ends-star :
    (c x : ℕ) (p s : List ℕ)
    → (c == star) ≡ true
    → (ends p (x ∷ s) || ends (c ∷ p) s) ≡ ends (c ∷ p) (x ∷ s)
unfolding ends
ends-star c x p s h = ground arith

star_cells-eq :
    (c : ℕ) (p s path : List ℕ)
    → (c == star) ≡ true
    → star_cells (ends (c ∷ p) s) (later_cells p s path) ≡ later_cells (c ∷ p) s path
unfolding star_cells
star_cells-eq c p s [] h = refl
star_cells-eq c p s (x ∷ path) h =
    rw (ends-star c x p s h) (ap (λ l. ends (c ∷ p) (x ∷ s) ∷ l) (star_cells-eq c p (x ∷ s) path h))

ends-literal :
    (c x : ℕ) (p s : List ℕ) → (c == star) ≡ false → (ends p s && c == x) ≡ ends (c ∷ p) (x ∷ s)
unfolding ends
ends-literal c x p s h = ground arith

literal_cells-eq :
    (c : ℕ) (p s path : List ℕ)
    → (c == star) ≡ false
    → literal_cells c (ends p s ∷ later_cells p s path) path ≡ later_cells (c ∷ p) s path
unfolding literal_cells
literal_cells-eq c p s [] h = refl
literal_cells-eq c p s (x ∷ path) h =
    cc (ends-literal c x p s h, literal_cells-eq c p (x ∷ s) path h)

next_row-eq : (c : ℕ) (p path : List ℕ) → next_row path (cells p path) c ≡ cells (c ∷ p) path
unfolding next_row ends
next_row-eq c p path = elim (Bool-cases (c == star)) [
  | inl h ↦ ground (arith, star_cells-eq c p [] path h)
  | inr h ↦ ground (arith, literal_cells-eq c p [] path h)
]

rows-eq :
    (pattern p path : List ℕ)
    → rows path (cells p path) pattern ≡ cells (reverse_aux pattern p) path
unfolding rows
rows-eq [] p path = refl
rows-eq (c ∷ pattern) p path = rw (next_row-eq c p path) (rows-eq pattern (c ∷ p) path)

first_row-eq : (path : List ℕ) → first_row path ≡ cells [] path
unfolding ends
first_row-eq path = ap (λ l. true ∷ l) (blank path [])
  where
    blank : (path s : List ℕ) → replicate (length path) false ≡ later_cells [] s path
    blank [] s = refl
    blank (x ∷ path) s = ap (λ l. false ∷ l) (blank path (x ∷ s))

last_cell :
    (p s path : List ℕ)
    → get_elem? (ends p s ∷ later_cells p s path) (length path) ≡ some (ends p (reverse_aux path s))
last_cell p s [] = refl
last_cell p s (x ∷ path) = last_cell p (x ∷ s) path

-- The table computes the backward reading.
pub path_matches-ends :
    (pattern path : List ℕ)
    → path_matches pattern path ≡ ends (reverse_aux pattern []) (reverse_aux path [])
unfolding path_matches
path_matches-ends pattern path = rw (read_last, path_matches)
  where
    read_last :
        get_elem? (rows path (first_row path) pattern) (length path)
        ≡ some (ends (reverse_aux pattern []) (reverse_aux path []))
    read_last =
        ap (λ (r : List Bool). get_elem? (rows path r pattern) (length path)) (first_row-eq path)
        ∙ ap (λ (r : List Bool). get_elem? r (length path)) (rows-eq pattern [] path)
        ∙ last_cell (reverse_aux pattern []) [] path
