-- ===== src/Prelude/Results.antt =====
-- `Result<A, E>` and the `?` operator, and `Option` with the same blocks.
use mathlib.Core.Path.{◌≡◌, refl}
use mathlib.Core.Option.{Option, none, some}
use mathlib.Core.Bool.{Bool, true, false}
use mathlib.Core.Logic.{◌⊎◌, inl, inr}
use native.Mathlib.Omega.{arith}
use hp_guardian.Prelude.Tests.{if◌then◌else◌}

pub data Result {ℓ} (E A : Type ℓ) : Type ℓ where
  ok : A → Result E A
  err : E → Result E A

-- `?` on a `Result`.
infixl 5 ◌>>=◌
abbrev pub ◌>>=◌ {ℓ} : {E A B : Type ℓ} → Result E A → (A → Result E B) → Result E B
ok a >>= f = f a
err e >>= f = err e

module _ {ℓ} {E A : Type ℓ} where
  -- `Option::ok_or`
  abbrev pub ok_or : Option A → E → Result E A
  ok_or none e = err e
  ok_or (some a) e = ok a

  -- `Result::map_err`
  abbrev pub map_err : {F : Type ℓ} → (E → F) → Result E A → Result F A
  map_err f (ok a) = ok a
  map_err f (err e) = err (f e)

  pub >>=-eq-ok :
      {B : Type ℓ} (first : Result E A) (next : A → Result E B) {out : B}
      → (first >>= next) ≡ ok out
      → (mid : A) × (first ≡ ok mid) × (next mid ≡ ok out)
  >>=-eq-ok (err e) next done = cc
  >>=-eq-ok (ok mid) next done = (mid, refl, done)

  pub ok_or-eq-ok : (o : Option A) (e : E) {a : A} → ok_or o e ≡ ok a → o ≡ some a
  ok_or-eq-ok o e h = ground arith

  pub Result-cases : (r : Result E A) → ((a : A) × (r ≡ ok a)) ⊎ ((e : E) × (r ≡ err e))
  Result-cases (ok a) = inl (a, refl)
  Result-cases (err e) = inr (e, refl)

  pub ok-injective : {a b : A} → ◌≡◌ {A = Result E A} (ok a) (ok b) → a ≡ b
  ok-injective h = cc

  -- What a test chose when the whole is a value.
  pub if-eq-ok :
      (b : Bool) (r s : Result E A) {a : A}
      → (if b then r else s) ≡ ok a
      → ((b ≡ true) × (r ≡ ok a)) ⊎ ((b ≡ false) × (s ≡ ok a))
  if-eq-ok true r s h = inl (refl, h)
  if-eq-ok false r s h = inr (refl, h)

  -- A test that refuses when it holds.
  pub refuse-eq-ok :
      (b : Bool) (e : E) (r : Result E A) {a : A}
      → (if b then err e else r) ≡ ok a
      → (b ≡ false) × (r ≡ ok a)
  refuse-eq-ok true e r h = cc
  refuse-eq-ok false e r h = (refl, h)

  -- A test that refuses when it fails.
  pub accept-eq-ok :
      (b : Bool) (e : E) (r : Result E A) {a : A}
      → (if b then r else err e) ≡ ok a
      → (b ≡ true) × (r ≡ ok a)
  accept-eq-ok true e r h = (refl, h)
  accept-eq-ok false e r h = cc

  pub map_err-eq-ok :
      {F : Type ℓ} (f : E → F) (r : Result E A) {a : A} → map_err f r ≡ ok a → r ≡ ok a
  map_err-eq-ok f (ok x) h = cc
  map_err-eq-ok f (err e) h = cc
