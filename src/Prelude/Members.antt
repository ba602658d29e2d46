-- ===== src/Prelude/Members.antt =====
-- Members of a list, by the library's families, against the Boolean tests of this library.
use mathlib.Core.Path.{◌≡◌, refl, subst, sym}
use mathlib.Core.Logic.{∥∥₁_elim, inl, inr}
use mathlib.Core.Bool.{Bool, true}
use mathlib.Core.List.{List, [], ◌∷◌, Mem, Memᴰ}
use mathlib.Core.List.Memᴰ.{head, tail}
use native.Mathlib.Omega.{arith}
use hp_guardian.Prelude.Tests.{Bool-cases}
use hp_guardian.Prelude.Lists.{select, any, all, All}

pub Bool-prop : (a b : Bool) → IsProp (a ≡ b)
Bool-prop a b = hlevel

module _ {ℓ} {A : Type ℓ} (f : A → Bool) where
  pub any-of_mem : {a : A} {l : List A} → Memᴰ a l → f a ≡ true → any l f ≡ true
  any-of_mem (head e) h = rw (← e, h)
  any-of_mem (tail m) h = ground (arith, any-of_mem m h)

  pub mem-of_any : (l : List A) → any l f ≡ true → (a : A) × Memᴰ a l × (f a ≡ true)
  mem-of_any [] h = absurd (ground arith)
  mem-of_any (x ∷ xs) h = elim (Bool-cases (f x)) [
    | inl e ↦ (x, head refl, e)
    | inr e ↦ let (a, m, t) = mem-of_any xs (ground arith) in (a, tail m, t)
  ]

  pub all-of_mem : {a : A} {l : List A} → all l f ≡ true → Memᴰ a l → f a ≡ true
  all-of_mem h (head e) = rw e (ground arith)
  all-of_mem h (tail m) = all-of_mem (ground arith) m

  pub mem-select : {a : A} {l : List A} → Memᴰ a l → f a ≡ true → Memᴰ a (select f l)
  mem-select {a} (head {x} {xs} e) h = rw (← e, h) (head refl)
  mem-select {a} (tail {x} {xs} m) h = elim (Bool-cases (f x)) [
    | inl t ↦ rw t (tail (mem-select m h))
    | inr t ↦ rw t (mem-select m h)
  ]

  pub mem-of_mem-select : {a : A} (l : List A) → Memᴰ a (select f l) → Memᴰ a l × (f a ≡ true)
  mem-of_mem-select [] m = elim m [ ]
  mem-of_mem-select {a} (x ∷ xs) m = elim (Bool-cases (f x)) [
    | inl t ↦ elim (rw t at m) [
      | head e ↦ (head e, rw e t)
      | tail n ↦ let (k, h) = mem-of_mem-select xs n in (tail k, h)
    ]
    | inr t ↦ let (k, h) = mem-of_mem-select xs (rw t at m) in (tail k, h)
  ]

  -- A test on the members does not see their order or how often they stand in the list.
  pub any-Mem : (l l' : List A) → ((a : A) → Mem a l → Mem a l') → any l f ≡ true → any l' f ≡ true
  any-Mem l l' sub h =
      let (a, m, t) = mem-of_any l h in
      ∥∥₁_elim (sub a ∣ m ∣₁) (Bool-prop _ _) (λ n. any-of_mem n t)

  pub select-Mem :
      (l l' : List A)
      → ((a : A) → Mem a l → Mem a l')
      → (a : A) → Mem a (select f l)
      → Mem a (select f l')
  select-Mem l l' sub a m = ∥∥₁_elim m squash₁ λ d.
      let (k, h) = mem-of_mem-select l d in
      ∥∥₁_elim (sub a ∣ k ∣₁) squash₁ (λ n. ∣ mem-select n h ∣₁)

module _ {ℓ κ} {A : Type ℓ} (P : A → Type κ) where
  pub All-mem : {a : A} {l : List A} → Memᴰ a l → All P l → P a
  All-mem (head e) h = subst P (sym e) h.0
  All-mem (tail m) h = All-mem m h.1

  pub All-of_mem : (l : List A) → ((a : A) → Memᴰ a l → P a) → All P l
  All-of_mem [] h = tt
  All-of_mem (x ∷ xs) h = (h x (head refl), All-of_mem xs (λ a m. h a (tail m)))
