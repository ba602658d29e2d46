-- ===== src/Prelude/Lists.antt =====
-- Lists measured and indexed by native numbers, under the library's names, and Boolean selections.
use Prim.Native.Nat.{ℕ, zero, suc, ◌+◌, ◌≤◌}
use mathlib.Core.Path.{◌≡◌, refl}
use mathlib.Core.Logic.{◌⊎◌}
use mathlib.Core.Bool.{Bool, true, false, ◌&&◌, ◌||◌}
use mathlib.Core.Option.{Option, none, some}
use mathlib.Core.List.{List, [], ◌∷◌, ◌++◌}
use native.Mathlib.Omega.{arith}
use hp_guardian.Prelude.Tests.{if◌then◌else◌}

module _ {ℓ} {A : Type ℓ} where
  abbrev pub length : List A → ℕ
  length [] = 0
  length (x ∷ xs) = suc (length xs)

  abbrev pub get_elem? : List A → ℕ → Option A
  get_elem? [] i = none
  get_elem? (x ∷ xs) zero = some x
  get_elem? (x ∷ xs) (suc i) = get_elem? xs i

  abbrev pub replicate : ℕ → A → List A
  replicate zero a = []
  replicate (suc n) a = a ∷ replicate n a

  -- The elements that pass a test, in order.
  abbrev pub select : (A → Bool) → List A → List A
  select f [] = []
  select f (x ∷ xs) = let rest = select f xs in if f x then x ∷ rest else rest

  abbrev pub any : List A → (A → Bool) → Bool
  any [] f = false
  any (x ∷ xs) f = f x || any xs f

  abbrev pub all : List A → (A → Bool) → Bool
  all [] f = true
  all (x ∷ xs) f = f x && all xs f

  pub length-append : (xs ys : List A) → length (xs ++ ys) ≡ length xs + length ys
  length-append [] ys = omega arith
  length-append (x ∷ xs) ys = omega (arith, length-append xs ys)

  pub length-select : (f : A → Bool) (xs : List A) → length (select f xs) ≤ length xs
  length-select f [] = omega arith
  length-select f (x ∷ xs) = ground (arith, length-select f xs)

  pub select-append :
      (f : A → Bool) (xs ys : List A) → select f (xs ++ ys) ≡ select f xs ++ select f ys
  select-append f [] ys = refl
  select-append f (x ∷ xs) ys = ground (arith, select-append f xs ys)

-- Predicates on all the elements of a list, and on one of them.
abbrev pub All {ℓ κ} : {A : Type ℓ} → (A → Type κ) → List A → Type κ
All P [] = Unit
All P (head ∷ tail) = P head × All P tail

abbrev pub Any {ℓ} : {A : Type ℓ} → (A → Type 0) → List A → Type 0
Any P [] = ⊥
Any P (x ∷ xs) = P x ⊎ Any P xs

module _ {ℓ} {A : Type ℓ} where
  abbrev pub drop : ℕ → List A → List A
  drop zero xs = xs
  drop (suc n) [] = []
  drop (suc n) (x ∷ xs) = drop n xs
