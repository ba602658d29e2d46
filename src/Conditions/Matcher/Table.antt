-- ===== src/Conditions/Matcher/Table.antt =====
-- The table of results: a run over it returns the result of the recursion without it, and stays in
-- the table's bounds.
use hp_guardian.Prelude.{
  ℕ, zero, suc, ◌+◌, ◌≤◌, ◌<◌, Bool, true, false, ◌&&◌, ◌||◌, List, [], ◌∷◌, ◌≡◌, ◌≢◌, refl, ap,
  ◌∙◌, inl, inr, arith, Option, none, some, if◌then◌else◌, Bool-cases, Option-cases, eqb, length,
  get_elem?, replicate, drop,
}
use hp_guardian.Conditions.Pattern.{Token, token_matches}
use hp_guardian.Conditions.Matcher.{
  Memo, Run, read, write, write_row, recall, or_else, matches_from, fresh_memo,
}
use hp_guardian.Conditions.Matcher.Matches.{plain}

get_elem?-write_row :
    (row : List (Option Bool)) (j k : ℕ) (b : Bool) (o : Option Bool)
    → get_elem? row j ≡ some o
    → get_elem? (write_row row j b) k ≡ (if eqb j k then some (some b) else get_elem? row k)
unfolding write_row
get_elem?-write_row [] j k b o h = cc
get_elem?-write_row (x ∷ xs) zero zero b o h = ground arith
get_elem?-write_row (x ∷ xs) zero (suc k) b o h = ground arith
get_elem?-write_row (x ∷ xs) (suc j) zero b o h = ground arith
get_elem?-write_row (x ∷ xs) (suc j) (suc k) b o h =
    ground (arith, get_elem?-write_row xs j k b o h)

-- A write shows at its own index and nowhere else.
read-write :
    (m : Memo) (i j i' j' : ℕ) (b : Bool) (o : Option Bool)
    → read m i j ≡ some o
    → read (write m i j b) i' j' ≡ (if eqb i i' && eqb j j' then some (some b) else read m i' j')
unfolding read write
read-write [] i j i' j' b o h = cc
read-write (row ∷ rows) zero j zero j' b o h = ground (arith, get_elem?-write_row row j j' b o h)
read-write (row ∷ rows) zero j (suc i') j' b o h = ground arith
read-write (row ∷ rows) (suc i) j zero j' b o h = ground arith
read-write (row ∷ rows) (suc i) j (suc i') j' b o h =
    ground (arith, read-write rows i j i' j' b o h)

get_elem?-replicate {ℓ} :
    {A : Type ℓ} (n i : ℕ) (a : A) → i < n → get_elem? (replicate n a) i ≡ some a
get_elem?-replicate zero i a h = elim h [ ]
get_elem?-replicate (suc n) zero a h = refl
get_elem?-replicate (suc n) (suc i) a h = get_elem?-replicate n i a (omega arith)

fresh-bounds : (n k i j : ℕ) → i < n → j < k → read (replicate n (replicate k none)) i j ≡ some none
unfolding read
fresh-bounds n k i j hi hj = ground (
  arith,
  get_elem?-replicate {0} {A = List (Option Bool)} n i (replicate k none) hi,
  get_elem?-replicate {0} {A = Option Bool} k j none hj,
)

unknown_row : (k j : ℕ) (r : Bool) → get_elem? (replicate k none) j ≢ some (some r)
unknown_row zero j r h = cc
unknown_row (suc k) zero r h = cc
unknown_row (suc k) (suc j) r h = unknown_row k j r h

fresh-unknown : (n k i j : ℕ) (r : Bool) → read (replicate n (replicate k none)) i j ≢ some (some r)
unfolding read
fresh-unknown zero k i j r h = cc
fresh-unknown (suc n) k zero j r h = unknown_row k j r h
fresh-unknown (suc n) k (suc i) j r h = fresh-unknown n k i j r h

module _ {ℓ} {A : Type ℓ} where
  drop-suc :
      (i : ℕ) (l xs : List A) (x : A)
      → drop i l ≡ x ∷ xs
      → (drop (i + 1) l ≡ xs) × (i + 1 ≤ length l)
  drop-suc zero [] xs x h = ground arith
  drop-suc (suc i) [] xs x h = ground arith
  drop-suc zero (y ∷ ys) xs x h = (ground arith, omega arith)
  drop-suc (suc i) (y ∷ ys) xs x h = ground (arith, drop-suc i ys xs x h)

  drop-le : (i : ℕ) (l xs : List A) (x : A) → drop i l ≡ x ∷ xs → i ≤ length l
  drop-le i l xs x h = omega (arith, (drop-suc i l xs x h).1)

  pub drop_all : (l : List A) → drop (length l) l ≡ []
  drop_all [] = refl
  drop_all (x ∷ xs) = drop_all xs

module _ (end : Bool) (T : List Token) (C : List ℕ) where
  -- Every index up to the two lengths is in bounds, and every known result is right.
  pub record IsRight (m : Memo) : Type 0 where
    pub bounds : (i j : ℕ) → i ≤ length T → j ≤ length C → (o : Option Bool) × (read m i j ≡ some o)
    pub right :
        (i j : ℕ) (r : Bool) → read m i j ≡ some (some r) → r ≡ plain end (drop i T) (drop j C)

  -- The run ends, with the result of the recursion without the table.
  abbrev Returns : Bool → Run → Type 0
  Returns b run = (m : Memo) × (run ≡ some (b, m)) × IsRight m

  fresh-IsRight : IsRight (fresh_memo T C)
  fresh-IsRight = record {
    bounds = λ i j hi hj.
        (none, fresh-bounds (length T + 1) (length C + 1) i j (omega arith) (omega arith));
    right = λ i j r h. absurd (fresh-unknown (length T + 1) (length C + 1) i j r h);
  }

  write-IsRight :
      (m : Memo) (i j : ℕ) (b : Bool) (o : Option Bool)
      → read m i j ≡ some o
      → b ≡ plain end (drop i T) (drop j C)
      → IsRight m
      → IsRight (write m i j b)
  write-IsRight m i j b o here correct ok = record {
    bounds = λ i' j' hi hj.
        let (o', there) = ok.bounds i' j' hi hj in
        elim (Bool-cases (eqb i i' && eqb j j')) [
          | inl hit ↦ (some b, rw (read-write m i j i' j' b o here, hit))
          | inr miss ↦ (o', rw (read-write m i j i' j' b o here, miss) there)
        ];
    right = λ i' j' r h. elim (Bool-cases (eqb i i' && eqb j j')) [
      | inl hit ↦
          let same_i : i ≡ i' = ground arith in
          let same_j : j ≡ j' = ground arith in
          let same_r : r ≡ b = cc (rw (read-write m i j i' j' b o here, hit) at h) in
          rw (← same_i, ← same_j, same_r) correct
      | inr miss ↦ ok.right i' j' r (rw (read-write m i j i' j' b o here, miss) at h)
    ];
  }

  recall-Returns :
      (m : Memo) (i j : ℕ) (b : Bool) (body : Run)
      → i ≤ length T
      → j ≤ length C
      → b ≡ plain end (drop i T) (drop j C)
      → IsRight m
      → Returns b body
      → Returns b (recall m i j body)
  unfolding recall
  recall-Returns m i j b body hi hj correct ok (m', e, ok') =
      let (o, here) = ok.bounds i j hi hj in
      let (o', there) = ok'.bounds i j hi hj in
      elim (Option-cases o) [
        | inl unknown ↦ (
          write m' i j b,
          ground (arith, here, unknown, e),
          write-IsRight m' i j b o' there correct ok',
        )
        | inr (known, k) ↦ (m, ground (arith, here, k, ok.right i j known (here ∙ ap some k)), ok)
      ]

  or_else-Returns :
      (a b : Bool) (first : Run) (second : Memo → Run)
      → Returns a first
      → ((m : Memo) → IsRight m → Returns b (second m))
      → Returns (a || b) (or_else first second)
  unfolding or_else
  or_else-Returns true b first second (m, e, ok) next = (m, rw e, ok)
  or_else-Returns false b first second (m, e, ok) next =
      let (m', e', ok') = next m ok in (m', rw (e, e'), ok')

  Returns-eq : (a : Bool) {b : Bool} {run : Run} → a ≡ b → Returns a run → Returns b run
  Returns-eq a {run} e (m, p, ok) = (m, p ∙ ap (λ (x : Bool). some (x, m)) e, ok)

  if-Returns :
      (b : Bool) (x y : Bool) (run run' : Run)
      → (b ≡ true → Returns x run)
      → (b ≡ false → Returns y run')
      → Returns (if b then x else y) (if b then run else run')
  if-Returns true x y run run' f g = f refl
  if-Returns false x y run run' f g = g refl

  stop : (m : Memo) → IsRight m → Returns false (some (false, m))
  stop m ok = (m, refl, ok)

  matches_from-Returns :
      (ts : List Token) (cs : List ℕ) (i j : ℕ) (m : Memo)
      → drop i T ≡ ts
      → drop j C ≡ cs
      → i ≤ length T
      → j ≤ length C
      → IsRight m
      → Returns (plain end ts cs) (matches_from end ts cs i j m)
  unfolding matches_from
  matches_from-Returns [] cs i j m et ec hi hj ok =
      recall-Returns m i j _ _ hi hj (rw (et, ec)) ok (m, unfold plain in refl, ok)
  matches_from-Returns (t ∷ ts) [] i j m et ec hi hj ok =
      let (et', hi') = drop-suc i T ts t et in
      let skip = matches_from-Returns ts [] (i + 1) j m et' ec hi' hj ok in
      recall-Returns m i j _ _ hi hj (rw (et, ec)) ok (
        Returns-eq (if t.repeated then plain end ts [] || false else false)
          (unfold plain in ground arith)
          (if-Returns t.repeated (plain end ts [] || false) false _ _
            (λ r. or_else-Returns (plain end ts []) false _ _ skip (λ m' ok'. stop m' ok'))
            (λ r. stop m ok)))
  matches_from-Returns (t ∷ ts) (c ∷ cs) i j m et ec hi hj ok =
      let (et', hi') = drop-suc i T ts t et in
      let (ec', hj') = drop-suc j C cs c ec in
      let skip = matches_from-Returns ts (c ∷ cs) (i + 1) j m et' ec hi' hj ok in
      let take = λ (m' : Memo) (ok' : IsRight m').
        matches_from-Returns (t ∷ ts) cs i (j + 1) m' et ec' hi hj' ok' in
      let next = matches_from-Returns ts cs (i + 1) (j + 1) m et' ec' hi' hj' ok in
      recall-Returns m i j _ _ hi hj (rw (et, ec)) ok (
        Returns-eq
          (if t.repeated
            then plain end ts (c ∷ cs)
              || (if token_matches t c then plain end (t ∷ ts) cs else false)
            else if token_matches t c
            then plain end ts cs
            else false)
          (unfold plain in ground arith)
          (if-Returns t.repeated
            (plain end ts (c ∷ cs) || (if token_matches t c then plain end (t ∷ ts) cs else false))
            (if token_matches t c then plain end ts cs else false) _ _
            (λ r. or_else-Returns _ _ _ _ skip (λ m' ok'.
              if-Returns (token_matches t c) _ _ _ _ (λ h. take m' ok') (λ h. stop m' ok')))
            (λ r. if-Returns (token_matches t c) _ _ _ _ (λ h. next) (λ h. stop m ok))))

-- A run from a fresh table never panics, and returns the result of the recursion without a table.
pub fresh-Returns :
    (end : Bool) (T : List Token) (C : List ℕ) (j : ℕ)
    → j ≤ length C
    → Returns end T C (plain end T (drop j C)) (matches_from end T (drop j C) 0 j (fresh_memo T C))
fresh-Returns end T C j h =
    matches_from-Returns end T C T (drop j C) 0 j (fresh_memo T C) refl refl (omega arith) h
      (fresh-IsRight end T C)
