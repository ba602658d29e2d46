-- ===== src/Prelude/Map.antt =====
-- `BTreeMap` as an association list. `insert` keeps the keys distinct. The program uses lookups,
-- sizes and tests on all the entries, and nothing that depends on the order of the keys.
use Prim.Native.Nat.{◌+◌}
use mathlib.Core.Path.{◌≡◌, refl}
use mathlib.Core.Bool.{Bool, true, false}
use mathlib.Core.Option.{Option, none, some}
use mathlib.Core.List.{List, [], ◌∷◌}
use native.Mathlib.Omega.{arith}
use mathlib.Core.Logic.{inl, inr}
use hp_guardian.Prelude.Tests.{if◌then◌else◌, Bool-cases}
use hp_guardian.Prelude.Lists.{length, select}
use hp_guardian.Prelude.Equality.{Eq, ◌==◌, ==_iff}

abbrev pub Map {ℓ} : Type ℓ → Type ℓ → Type ℓ
Map K V = List (K × V)

module _ {ℓ} {K V : Type ℓ} ⦃e : Eq K⦄ where
  unfoldable pub get : Map K V → K → Option V
  get [] k = none
  get ((j, v) ∷ m) k = if j == k then some v else get m k

  unfoldable pub insert : Map K V → K → V → Map K V
  insert [] k v = (k, v) ∷ []
  insert ((j, w) ∷ m) k v = if j == k then (k, v) ∷ m else (j, w) ∷ insert m k v

  unfoldable pub contains_key : Map K V → K → Bool
  contains_key [] k = false
  contains_key ((j, v) ∷ m) k = if j == k then true else contains_key m k

  -- The keys are distinct.
  abbrev pub IsMap : Map K V → Type ℓ
  IsMap [] = Unit
  IsMap ((k, v) ∷ m) = (contains_key m k ≡ false) × IsMap m

  pub get-insert :
      (m : Map K V) (k j : K) (v : V) → get (insert m k v) j ≡ (if k == j then some v else get m j)
  unfolding get insert
  get-insert [] k j v = refl
  get-insert ((i, w) ∷ m) k j v =
      ground (arith, get-insert m k j v, ==_iff i k, ==_iff i j, ==_iff k j)

  pub get-insert_same : (m : Map K V) (k : K) (v : V) → get (insert m k v) k ≡ some v
  unfolding get insert
  get-insert_same [] k v = ground (arith, ==_iff k k)
  get-insert_same ((i, w) ∷ m) k v = ground (arith, get-insert_same m k v, ==_iff i k, ==_iff k k)

  pub contains_key-insert :
      (m : Map K V) (k j : K) (v : V)
      → contains_key (insert m k v) j ≡ (if k == j then true else contains_key m j)
  unfolding contains_key insert
  contains_key-insert [] k j v = refl
  contains_key-insert ((i, w) ∷ m) k j v =
      ground (arith, contains_key-insert m k j v, ==_iff i k, ==_iff i j, ==_iff k j)

  pub get-contains_key : (m : Map K V) (k : K) → contains_key m k ≡ false → get m k ≡ none
  unfolding get contains_key
  get-contains_key [] k h = refl
  get-contains_key ((j, v) ∷ m) k h = ground (arith, get-contains_key m k)

  pub contains_key-get : (m : Map K V) (k : K) (v : V) → get m k ≡ some v → contains_key m k ≡ true
  unfolding get contains_key
  contains_key-get [] k v h = ground arith
  contains_key-get ((j, w) ∷ m) k v h = ground (arith, contains_key-get m k v)

  -- A key that is there has a value.
  pub contains_key-some :
      (m : Map K V) (k : K) → contains_key m k ≡ true → (v : V) × (get m k ≡ some v)
  unfolding get contains_key
  contains_key-some [] k h = ground arith
  contains_key-some ((j, w) ∷ m) k h = elim (Bool-cases (j == k)) [
    | inl same ↦ (w, rw (get, same) refl)
    | inr distinct ↦ rw (get, distinct) (contains_key-some m k (ground (arith, h, distinct)))
  ]

  pub insert-IsMap : (m : Map K V) (k : K) (v : V) → IsMap m → IsMap (insert m k v)
  unfolding insert contains_key
  insert-IsMap [] k v h = (refl, tt)
  insert-IsMap ((j, w) ∷ m) k v h =
      ground (arith, insert-IsMap m k v h.1, ==_iff j k, ==_iff k j, contains_key-insert m k j v)

  pub length-insert :
      (m : Map K V) (k : K) (v : V)
      → length (insert m k v) ≡ (if contains_key m k then length m else length m + 1)
  unfolding insert contains_key
  length-insert [] k v = refl
  length-insert ((j, w) ∷ m) k v = ground (arith, length-insert m k v)

  pub contains_key-select :
      (f : K × V → Bool) (m : Map K V) (k : K)
      → contains_key m k ≡ false
      → contains_key (select f m) k ≡ false
  unfolding contains_key
  contains_key-select f [] k h = refl
  contains_key-select f ((j, w) ∷ m) k h = ground (arith, contains_key-select f m k)

  pub select-IsMap : (f : K × V → Bool) (m : Map K V) → IsMap m → IsMap (select f m)
  select-IsMap f [] h = tt
  select-IsMap f ((k, v) ∷ m) h =
      ground (arith, select-IsMap f m h.1, contains_key-select f m k h.0)

  -- What passes the test stays at its key, and nothing else does.
  pub get-select :
      (f : K × V → Bool) (m : Map K V) (k : K)
      → IsMap m
      → get (select f m) k
        ≡ elim (get m k) [ none ↦ none | some v ↦ if f (k, v) then some v else none ]
  unfolding get
  get-select f [] k h = refl
  get-select f ((j, w) ∷ m) k h =
      ground (arith, get-select f m k h.1, ==_iff j k, get-contains_key m j h.0)

  pub contains_key-none : (m : Map K V) (k : K) → get m k ≡ none → contains_key m k ≡ false
  unfolding get contains_key
  contains_key-none [] k h = refl
  contains_key-none ((j, v) ∷ m) k h = ground (arith, contains_key-none m k)

  unfoldable pub remove : Map K V → K → Map K V
  remove [] k = []
  remove ((j, v) ∷ m) k = let rest = remove m k in if j == k then rest else (j, v) ∷ rest

  pub get-remove : (m : Map K V) (k j : K) → get (remove m k) j ≡ (if k == j then none else get m j)
  unfolding get remove
  get-remove [] k j = ground arith
  get-remove ((i, w) ∷ m) k j = ground (arith, get-remove m k j, ==_iff i k, ==_iff i j, ==_iff k j)
