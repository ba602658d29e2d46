-- ===== src/Audit/Tails.antt =====
-- src/audit.rs: the lines of an audit file, and the test of the bytes behind the last newline.
pub mod Lines
pub mod Recovers
use hp_guardian.Prelude.{
  ℕ, zero, suc, ◌+◌, ◌-◌, Bool, true, false, not, Option, none, some, List, [], ◌∷◌, if◌then◌else◌,
  ◌==◌, nat_eq, Result, ok, err,
}
use hp_guardian.Audit.Disk.{AuditError, corrupt, take_bytes}
use hp_guardian.Audit.Rotation.{Codec}
use hp_guardian.Audit.Records.{AuditRecord}

-- What is used of the JSON library: the coders, the reader of a value, which tells whether the value
-- is an object, and the test for UTF-8.
pub record Json : Type 0 where
  pub codec : Codec
  pub encode : AuditRecord → Option (List ℕ)
  pub is_object : List ℕ → Option Bool
  pub is_utf8 : List ℕ → Bool

abbrev pub drop_bytes : ℕ → List ℕ → List ℕ
drop_bytes zero bytes = bytes
drop_bytes (suc n) [] = []
drop_bytes (suc n) (b ∷ bytes) = drop_bytes n bytes

-- `rposition` of a newline, plus one, or 0.
abbrev pub complete_end : List ℕ → ℕ
complete_end [] = 0
complete_end (b ∷ bytes) =
    let rest = complete_end bytes in if rest == 0 then (if b == 10 then 1 else 0) else rest + 1

abbrev pub cons_first : ℕ → List (List ℕ) → List (List ℕ)
cons_first b [] = (b ∷ []) ∷ []
cons_first b (line ∷ lines) = (b ∷ line) ∷ lines

-- `split` at the newlines: no bytes are one empty line.
abbrev pub split : List ℕ → List (List ℕ)
split [] = [] ∷ []
split (b ∷ bytes) = let rest = split bytes in if b == 10 then [] ∷ rest else cons_first b rest

-- The body of the loop of `recover_tail`.
abbrev pub check_line : Json → List ℕ → Result AuditError (Unit {0})
check_line json [] = err corrupt
check_line json (b ∷ line) = elim (json.is_object (b ∷ line)) [
  | none ↦ err corrupt
  | some object ↦ if object then ok tt else err corrupt
]

abbrev pub check_lines : Json → List (List ℕ) → Result AuditError (Unit {0})
check_lines json [] = ok tt
check_lines json (line ∷ lines) = elim (check_line json line) [
  | ok good ↦ check_lines json lines
  | err e ↦ err e
]

-- What the lines that end and the bytes behind them ask for: `some n` is a truncation.
abbrev pub tail_answer : Json → List (List ℕ) → List ℕ → ℕ → Result AuditError (Option ℕ)
tail_answer json lines tail n = elim (check_lines json lines) [
  | err e ↦ err e
  | ok good ↦ elim tail [
    | [] ↦ ok none
    | b ∷ rest ↦
        if not (json.is_utf8 (b ∷ rest))
        then err corrupt
        else elim (json.is_object (b ∷ rest)) [ none ↦ ok (some n) | some object ↦ err corrupt ]
  ]
]

unfoldable pub tail_of : Json → List ℕ → Result AuditError (Option ℕ)
tail_of json content =
    let n = complete_end content in
    tail_answer json (split (if n == 0 then [] else take_bytes (n - 1) content))
      (drop_bytes n content) n
