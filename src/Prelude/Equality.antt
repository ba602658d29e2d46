-- ===== src/Prelude/Equality.antt =====
-- Equality tests as an interface, with the instances that the program compares keys by.
use Prim.Native.Nat.{ℕ}
use Prim.Native.String.{String}
use mathlib.Core.Path.{◌≡◌, refl}
use mathlib.Core.Logic.{◌↔◌}
use mathlib.Core.Bool.{Bool, true, false}
use mathlib.Core.Option.{Option, none, some}
use mathlib.Core.List.{List, [], ◌∷◌}
use text.Mathlib.Text.{◌==◌ as str_eq}
use text.Mathlib.TextEquality.{eq_iff}
use native.Mathlib.Omega.{arith}
use mathlib.Core.Bool.{◌&&◌}
use hp_guardian.Prelude.Tests.{eqb, eqb_iff}

pub record Eq {ℓ} (A : Type ℓ) : Type ℓ where
  pub beq : A → A → Bool
  pub beq_iff : (x y : A) → (beq x y ≡ true) ↔ (x ≡ y)

infix 50 ◌==◌
abbrev pub ◌==◌ {ℓ} : {A : Type ℓ} ⦃e : Eq A⦄ → A → A → Bool
◌==◌ ⦃e⦄ x y = e.beq x y

pub ==_iff {ℓ} : {A : Type ℓ} ⦃e : Eq A⦄ (a b : A) → ((a == b) ≡ true) ↔ (a ≡ b)
==_iff ⦃e⦄ = e.beq_iff

pub ==_refl {ℓ} : {A : Type ℓ} ⦃e : Eq A⦄ (a : A) → (a == a) ≡ true
==_refl ⦃e⦄ a = (e.beq_iff a a).1 refl

instance abbrev pub nat_eq : Eq ℕ
nat_eq = record { beq = eqb; beq_iff = eqb_iff }

instance abbrev pub string_eq : Eq String
string_eq = record { beq = str_eq; beq_iff = eq_iff }

abbrev pub beq_option {ℓ} : {A : Type ℓ} ⦃e : Eq A⦄ → Option A → Option A → Bool
beq_option none none = true
beq_option (some a) (some b) = a == b
beq_option _ _ = false

pub beq_option_iff {ℓ} :
    {A : Type ℓ} ⦃e : Eq A⦄ (a b : Option A) → (beq_option a b ≡ true) ↔ (a ≡ b)
beq_option_iff none none = (λ h. refl, λ h. refl)
beq_option_iff none (some b) = ground arith
beq_option_iff (some a) none = ground arith
beq_option_iff (some a) (some b) = ground (arith, ==_iff a b)

instance abbrev pub option_eq {ℓ} : {A : Type ℓ} ⦃e : Eq A⦄ → Eq (Option A)
option_eq = record { beq = beq_option; beq_iff = beq_option_iff }

abbrev pub beq_list {ℓ} : {A : Type ℓ} ⦃e : Eq A⦄ → List A → List A → Bool
beq_list [] [] = true
beq_list (a ∷ as') (b ∷ bs) = a == b && beq_list as' bs
beq_list _ _ = false

pub beq_list_iff {ℓ} :
    {A : Type ℓ} ⦃e : Eq A⦄ (xs ys : List A) → (beq_list xs ys ≡ true) ↔ (xs ≡ ys)
beq_list_iff [] [] = (λ h. refl, λ h. refl)
beq_list_iff [] (y ∷ ys) = ground arith
beq_list_iff (x ∷ xs) [] = ground arith
beq_list_iff (x ∷ xs) (y ∷ ys) = ground (arith, ==_iff x y, beq_list_iff xs ys)

instance abbrev pub list_eq {ℓ} : {A : Type ℓ} ⦃e : Eq A⦄ → Eq (List A)
list_eq = record { beq = beq_list; beq_iff = beq_list_iff }
