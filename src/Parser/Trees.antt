-- ===== src/Parser/Trees.antt =====
-- Depth and size of a condition tree, and what its leaves must be.
use hp_guardian.Prelude.{ℕ, ◌+◌, ◌<◌, ◌≡◌, nat_eq, string_eq, option_eq, ok}
use Prim.Native.Nat.{max}
use hp_guardian.Models.{Condition, Conditions, nil, cons, leaves, TimeWindow}
use hp_guardian.Conditions.Meaning.{Each}
use hp_guardian.Conditions.Pattern.{validate_args_match}

unfoldable mutual
  pub depth : Condition → ℕ
  depth (leaves a p w) = 1
  depth (Condition.all cs) = depths cs + 1
  depth (Condition.any cs) = depths cs + 1
  depth (Condition.not c) = depth c + 1

  pub depths : Conditions → ℕ
  depths nil = 0
  depths (cons c cs) = max (depth c) (depths cs)

unfoldable mutual
  pub size : Condition → ℕ
  size (leaves a p w) = 1
  size (Condition.all cs) = sizes cs + 1
  size (Condition.any cs) = sizes cs + 1
  size (Condition.not c) = size c + 1

  pub sizes : Conditions → ℕ
  sizes nil = 0
  sizes (cons c cs) = size c + sizes cs

-- The patterns of the tree parse, and its windows are not empty.
unfoldable mutual
  pub IsValid : Condition → Type 0
  IsValid (leaves a p w) =
      Each a (λ pattern. validate_args_match pattern ≡ ok tt)
      × Each w (λ (window : TimeWindow). window.start < window.end)
  IsValid (Condition.all cs) = AreValid cs
  IsValid (Condition.any cs) = AreValid cs
  IsValid (Condition.not c) = IsValid c

  pub AreValid : Conditions → Type 0
  AreValid nil = Unit
  AreValid (cons c cs) = IsValid c × AreValid cs
