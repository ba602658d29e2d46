-- ===== src/Audit/Tails/Lines.antt =====
-- Lines and the bytes that they are printed to.
use hp_guardian.Prelude.{
  ℕ, suc, ◌+◌, false, List, [], ◌∷◌, ◌++◌, ◌≡◌, refl, sym, ap, ◌∙◌, ◌⊎◌, inl, inr, arith, ◌==◌,
  ==_iff, nat_eq, All, length, length-append, Bool-cases,
}
use mathlib.Core.Path.{ap₂}
use hp_guardian.Audit.Disk.{take_bytes}
use hp_guardian.Audit.Tails.{drop_bytes, complete_end, cons_first, split}

abbrev pub IsLine : List ℕ → Type 0
IsLine [] = Unit
IsLine (b ∷ bytes) = ((b == 10) ≡ false) × IsLine bytes

-- Lines with a newline behind each, and with a newline between them.
abbrev pub print_lines : List (List ℕ) → List ℕ
print_lines [] = []
print_lines (line ∷ lines) = line ++ 10 ∷ print_lines lines

abbrev pub join_lines : List (List ℕ) → List ℕ
join_lines [] = []
join_lines (line ∷ []) = line
join_lines (line ∷ next ∷ lines) = line ++ 10 ∷ join_lines (next ∷ lines)

abbrev pub IsSome : List (List ℕ) → Type 0
IsSome [] = ⊥
IsSome (line ∷ lines) = Unit

pub append_assoc : (xs ys zs : List ℕ) → (xs ++ ys) ++ zs ≡ xs ++ (ys ++ zs)
append_assoc [] ys zs = refl
append_assoc (x ∷ xs) ys zs = ap (λ l. x ∷ l) (append_assoc xs ys zs)

pub print_lines-join :
    (lines : List (List ℕ)) (tail : List ℕ)
    → IsSome lines
    → print_lines lines ++ tail ≡ join_lines lines ++ 10 ∷ tail
print_lines-join [] tail h = elim h [ ]
print_lines-join (line ∷ []) tail h = append_assoc line (10 ∷ []) tail
print_lines-join (line ∷ next ∷ lines) tail h =
    append_assoc line (10 ∷ print_lines (next ∷ lines)) tail
    ∙ ap (λ l. line ++ 10 ∷ l) (print_lines-join (next ∷ lines) tail tt)
    ∙ sym (append_assoc line (10 ∷ join_lines (next ∷ lines)) (10 ∷ tail))

length_middle :
    (xs : List ℕ) (y : ℕ) (ys : List ℕ) → length (xs ++ y ∷ ys) ≡ length xs + suc (length ys)
length_middle xs y ys = length-append xs (y ∷ ys)

pub length-print_lines :
    (lines : List (List ℕ))
    → IsSome lines
    → length (print_lines lines) ≡ suc (length (join_lines lines))
length-print_lines [] h = elim h [ ]
length-print_lines (line ∷ []) h = omega (arith, length_middle line 10 [])
length-print_lines (line ∷ next ∷ lines) h = omega (
  arith,
  length_middle line 10 (print_lines (next ∷ lines)),
  length_middle line 10 (join_lines (next ∷ lines)),
  length-print_lines (next ∷ lines) tt,
)

pub split-IsSome : (bytes : List ℕ) → IsSome (split bytes)
split-IsSome [] = tt
split-IsSome (b ∷ bytes) = ground (arith, split-IsSome bytes)

pub split-All : (bytes : List ℕ) → All IsLine (split bytes)
split-All [] = (tt, tt)
split-All (b ∷ bytes) = ground (arith, split-All bytes)

join-cons_first :
    (b : ℕ) (lines : List (List ℕ))
    → IsSome lines
    → join_lines (cons_first b lines) ≡ b ∷ join_lines lines
join-cons_first b [] h = elim h [ ]
join-cons_first b (line ∷ []) h = refl
join-cons_first b (line ∷ next ∷ lines) h = refl

join-newline :
    (lines : List (List ℕ)) → IsSome lines → join_lines ([] ∷ lines) ≡ 10 ∷ join_lines lines
join-newline [] h = elim h [ ]
join-newline (line ∷ lines) h = refl

pub join-split : (bytes : List ℕ) → join_lines (split bytes) ≡ bytes
join-split [] = refl
join-split (b ∷ bytes) = elim (Bool-cases (b == 10)) [
  | inl newline ↦ rw newline (
      join-newline (split bytes) (split-IsSome bytes)
      ∙ ap₂ (λ x l. x ∷ l) (sym ((==_iff b 10).0 newline)) (join-split bytes))
  | inr other ↦
      rw other
        (join-cons_first b (split bytes) (split-IsSome bytes) ∙ ap (λ l. b ∷ l) (join-split bytes))
]

split-line : (line : List ℕ) → IsLine line → split line ≡ line ∷ []
split-line [] h = refl
split-line (b ∷ line) h = rw (h.0, split-line line h.1) refl

split-append : (line rest : List ℕ) → IsLine line → split (line ++ 10 ∷ rest) ≡ line ∷ split rest
split-append [] rest h = refl
split-append (b ∷ line) rest h = rw (h.0, split-append line rest h.1) refl

pub split-join :
    (lines : List (List ℕ)) → IsSome lines → All IsLine lines → split (join_lines lines) ≡ lines
split-join [] s _ = elim s [ ]
split-join (line ∷ []) s (h, hs) = split-line line h
split-join (line ∷ next ∷ lines) s (h, hs) =
    split-append line (join_lines (next ∷ lines)) h
    ∙ ap (λ l. line ∷ l) (split-join (next ∷ lines) tt hs)

pub complete_end-line : (tail : List ℕ) → IsLine tail → complete_end tail ≡ 0
complete_end-line [] h = refl
complete_end-line (b ∷ tail) h = rw (complete_end-line tail h.1, h.0) refl

pub complete_end-append :
    (body tail : List ℕ) → IsLine tail → complete_end (body ++ 10 ∷ tail) ≡ suc (length body)
complete_end-append [] tail h = rw (complete_end-line tail h) refl
complete_end-append (b ∷ body) tail h = ground (arith, complete_end-append body tail h)

-- Where the last newline is.
abbrev pub Ending : List ℕ → Type 0
Ending bytes = IsLine bytes ⊎ ((body tail : List ℕ) × (bytes ≡ body ++ 10 ∷ tail) × IsLine tail)

pub last_newline : (bytes : List ℕ) → Ending bytes
last_newline [] = inl tt
last_newline (b ∷ bytes) = elim (last_newline bytes) [
  | inl line ↦ elim (Bool-cases (b == 10)) [
    | inl newline ↦ inr ([], bytes, ap (λ x. x ∷ bytes) ((==_iff b 10).0 newline), line)
    | inr other ↦ inl (other, line)
  ]
  | inr (body, tail, e, line) ↦ inr (b ∷ body, tail, ap (λ l. b ∷ l) e, line)
]

pub take_bytes-append : (xs ys : List ℕ) → take_bytes (length xs) (xs ++ ys) ≡ xs
take_bytes-append [] ys = refl
take_bytes-append (x ∷ xs) ys = ap (λ l. x ∷ l) (take_bytes-append xs ys)

pub drop_bytes-append :
    (xs : List ℕ) (y : ℕ) (ys : List ℕ) → drop_bytes (suc (length xs)) (xs ++ y ∷ ys) ≡ ys
drop_bytes-append [] y ys = refl
drop_bytes-append (x ∷ xs) y ys = drop_bytes-append xs y ys
