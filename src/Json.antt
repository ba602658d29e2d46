-- ===== src/Json.antt =====
-- What is used of the values of `serde_json`, by src/adapter.rs and src/simulator.rs.
use hp_guardian.Prelude.{ℕ, String, Bool, Option, none, some, List, [], ◌∷◌}
use hp_guardian.Prelude.Map.{Map}
use hp_guardian.Parser.{ℤ}

-- The reader of texts, and the views of a value. An object is a map from its keys.
pub record JsonValues : Type 1 where
  pub Value : Type 0
  pub from_str : String → Option Value
  pub is_null : Value → Bool
  pub as_str : Value → Option String
  pub as_i64 : Value → Option ℤ
  pub as_u64 : Value → Option ℕ
  pub as_array : Value → Option (List Value)
  pub as_object : Value → Option (Map String Value)

-- `Option::and_then`
abbrev pub and_then : {A B : Type 0} → Option A → (A → Option B) → Option B
and_then none f = none
and_then (some a) f = f a

-- `map` with an optional result, and `collect` to an `Option`.
abbrev pub collect : {A B : Type 0} → (A → Option B) → List A → Option (List B)
collect f [] = some []
collect f (x ∷ xs) =
    let rest = collect f xs in and_then (f x) (λ y. and_then rest (λ ys. some (y ∷ ys)))

-- What a reader of values returns beside a value: a rejection, or the panic of an `expect`.
pub data Fault (E : Type 0) : Type 0 where
  rejected : E → Fault E
  panicked : Fault E
