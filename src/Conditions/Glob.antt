-- ===== src/Conditions/Glob.antt =====
-- src/conditions.rs: `path_matches`, row by row over the prefixes of the path.
pub mod Cells
pub mod Globs
use hp_guardian.Prelude.{
  ℕ, Bool, true, false, ◌||◌, ◌&&◌, List, [], ◌∷◌, Option, none, some, length, get_elem?, replicate,
  if◌then◌else◌, ◌==◌, nat_eq, String, chars,
}

-- `current[index] = previous[index] || current[index - 1]`, behind the cell at the left.
unfoldable pub star_cells : Bool → List Bool → List Bool
star_cells left [] = []
star_cells left (above ∷ previous) = let here = above || left in here ∷ star_cells here previous

star_row : List Bool → List Bool
star_row [] = []
star_row (first ∷ previous) = first ∷ star_cells first previous

-- `current[index] = previous[index - 1] && pattern_character == path[index - 1]`
unfoldable pub literal_cells : ℕ → List Bool → List ℕ → List Bool
literal_cells c (before ∷ previous) (x ∷ path) = (before && c == x) ∷ literal_cells c previous path
literal_cells c [] _ = []
literal_cells c (before ∷ previous) [] = []

abbrev pub star : ℕ
star = b'*'

unfoldable pub next_row : List ℕ → List Bool → ℕ → List Bool
unfolding star_row star_cells literal_cells
next_row path previous c =
    if c == star then star_row previous else false ∷ literal_cells c previous path

unfoldable pub rows : List ℕ → List Bool → List ℕ → List Bool
unfolding next_row
rows path previous [] = previous
rows path previous (c ∷ pattern) = rows path (next_row path previous c) pattern

abbrev pub first_row : List ℕ → List Bool
first_row path = true ∷ replicate (length path) false

-- `previous[path.len()]`: the last cell of the last row.
unfoldable pub path_matches : List ℕ → List ℕ → Bool
unfolding rows
path_matches pattern path = elim (get_elem? (rows path (first_row path) pattern) (length path)) [
  | none ↦ false
  | some result ↦ result
]
