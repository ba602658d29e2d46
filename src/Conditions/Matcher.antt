-- ===== src/Conditions/Matcher.antt =====
-- src/conditions.rs: the matcher of parsed patterns, with its table of results.
pub mod Matches
pub mod Table
pub mod Search
use hp_guardian.Prelude.{
  ℕ, zero, suc, ◌+◌, Bool, true, false, not, ◌||◌, List, [], ◌∷◌, Option, none, some, length,
  get_elem?, replicate, if◌then◌else◌, Result, ok, err, chars, String, drop,
}
use hp_guardian.Conditions.Pattern.{Token, token_matches, ArgsPattern, parse_args_pattern}

-- `memo[token_index][character_index]`: the result, if it is known.
abbrev pub Memo : Type 0
Memo = List (List (Option Bool))

-- `none` is an index out of bounds, at which the source panics.
unfoldable pub read : Memo → ℕ → ℕ → Option (Option Bool)
read memo i j = elim (get_elem? memo i) [ none ↦ none | some row ↦ get_elem? row j ]

write_row : List (Option Bool) → ℕ → Bool → List (Option Bool)
write_row [] j b = []
write_row (x ∷ xs) zero b = some b ∷ xs
write_row (x ∷ xs) (suc j) b = x ∷ write_row xs j b

-- A write follows a read at the same index, so it is in bounds where the read was.
unfoldable pub write : Memo → ℕ → ℕ → Bool → Memo
unfolding write_row
write [] i j b = []
write (row ∷ rows) zero j b = write_row row j b ∷ rows
write (row ∷ rows) (suc i) j b = row ∷ write rows i j b

abbrev pub Run : Type 0
Run = Option (Bool × Memo)

-- A known result is returned; another is computed and stored.
unfoldable pub recall : Memo → ℕ → ℕ → Run → Run
recall memo i j body = elim (read memo i j) [
  | none ↦ none
  | some (some known) ↦ some (known, memo)
  | some none ↦ elim body [ none ↦ none | some (result, m) ↦ some (result, write m i j result) ]
]

-- `first || second`, where the second call has the table that the first one left.
unfoldable pub or_else : Run → (Memo → Run) → Run
or_else first second = elim first [
  | none ↦ none
  | some (found, m) ↦ elim found [ true ↦ some (true, m) | false ↦ second m ]
]

abbrev pub is_empty : List ℕ → Bool
is_empty [] = true
is_empty (c ∷ cs) = false

-- `matches_from` at the tokens and the characters from the two indices on.
unfoldable pub matches_from : Bool → List Token → List ℕ → ℕ → ℕ → Memo → Run
matches_from end [] cs i j memo =
    let body = some (not end || is_empty cs, memo) in recall memo i j body
matches_from end (t ∷ ts) [] i j memo =
    let skip = matches_from end ts [] (i + 1) j memo in
    let body = if t.repeated then or_else skip (λ m. some (false, m)) else some (false, memo) in
    recall memo i j body
matches_from end (t ∷ ts) (c ∷ cs) i j memo =
    let skip = matches_from end ts (c ∷ cs) (i + 1) j memo in
    let take = λ (m : Memo). matches_from end (t ∷ ts) cs i (j + 1) m in
    let next = matches_from end ts cs (i + 1) (j + 1) memo in
    let body =
      if t.repeated
      then or_else skip (λ m. if token_matches t c then take m else some (false, m))
      else if token_matches t c
      then next
      else some (false, memo) in
    recall memo i j body

-- `vec![vec![None; characters.len() + 1]; pattern.tokens.len() + 1]`
abbrev pub fresh_memo : List Token → List ℕ → Memo
fresh_memo ts cs = replicate (length ts + 1) (replicate (length cs + 1) none)

unfoldable pub matches_at : ArgsPattern → List ℕ → ℕ → Option Bool
unfolding matches_from
matches_at p characters start =
    elim (matches_from p.end_anchored p.tokens (drop start characters) 0 start
      (fresh_memo p.tokens characters)) [ none ↦ none | some (result, memo) ↦ some result ]

-- A run never panics (Conditions/Matcher/Search.antt), so the first case is not reached.
abbrev pub answer : Option Bool → Bool
answer none = false
answer (some result) = result

-- `(start..start + n).any(..)`
unfoldable pub any_start : ArgsPattern → List ℕ → ℕ → ℕ → Bool
any_start p characters start zero = false
any_start p characters start (suc n) =
    answer (matches_at p characters start) || any_start p characters (start + 1) n

-- The part of `args_match` behind the parser.
unfoldable pub occurs : ArgsPattern → List ℕ → Bool
occurs p characters =
    if p.start_anchored
    then answer (matches_at p characters 0)
    else any_start p characters 0 (length characters + 1)

unfoldable pub args_match : String → String → Bool
args_match text pattern = elim (parse_args_pattern pattern) [
  | err reason ↦ false
  | ok p ↦ occurs p (chars text)
]
