-- ===== src/Audit/Rotation/Indices.antt =====
-- The list of the backups that are there, as `rotate_current` makes it and `recover_manifest` checks it.
use hp_guardian.Prelude.{
  String, ℕ, zero, suc, ◌+◌, ◌≤◌, ◌<◌, true, false, ◌||◌, List, [], ◌∷◌, ◌≡◌, refl, sym, ap, ◌∙◌,
  arith, any, if◌then◌else◌, ltb, ◌==◌, ==_iff, nat_eq, list_eq, string_eq, ok,
}
use hp_guardian.Audit.Rotation.{
  contains, insert_sorted, sort, dedup, is_known, is_transaction_id, check_manifest, Codec,
}
use hp_guardian.Audit.Rotation.Layouts.{Plan}
use hp_guardian.Audit.Rotation.Staging.{manifest_of}

-- The listed indices from `j` on, `n` of them looked at.
unfoldable pub present_in : List ℕ → ℕ → ℕ → List ℕ
present_in backups j zero = []
present_in backups j (suc n) =
    let rest = present_in backups (j + 1) n in if contains backups j then j ∷ rest else rest

-- The transaction has an id that a manifest may have, backups are kept, and the plan lists its
-- backups in order.
pub record IsSound (plan : Plan) : Type 0 where
  pub named : is_transaction_id plan.transaction ≡ true
  pub kept : 1 ≤ plan.count
  pub listed : plan.backups ≡ present_in plan.backups 1 plan.count

in_range :
    (b : List ℕ) (c n j : ℕ)
    → 1 ≤ j
    → j + n ≤ suc c
    → any (present_in b j n) (λ i. i == 0 || ltb c i) ≡ false
unfolding present_in
in_range b c zero j pos le = refl
in_range b c (suc n) j pos le =
    ground (arith, in_range b c n (j + 1) (omega arith) (omega (arith, le)))

insert_sorted-present_in :
    (b : List ℕ) (n j x : ℕ) → x < j → insert_sorted x (present_in b j n) ≡ x ∷ present_in b j n
unfolding present_in
insert_sorted-present_in b zero j x lt = refl
insert_sorted-present_in b (suc n) j x lt =
    ground (arith, insert_sorted-present_in b n (j + 1) x (omega (arith, lt)))

sort-present_in : (b : List ℕ) (n j : ℕ) → sort (present_in b j n) ≡ present_in b j n
unfolding present_in sort
sort-present_in b zero j = refl
sort-present_in b (suc n) j =
    ground
      (arith, sort-present_in b n (j + 1), insert_sorted-present_in b n (j + 1) j (omega arith))

dedup-cons :
    (b : List ℕ) (n j x : ℕ) → x < j → dedup (x ∷ present_in b j n) ≡ x ∷ dedup (present_in b j n)
unfolding present_in dedup
dedup-cons b zero j x lt = refl
dedup-cons b (suc n) j x lt = ground (arith, dedup-cons b n (j + 1) x (omega (arith, lt)))

dedup-present_in : (b : List ℕ) (n j : ℕ) → dedup (present_in b j n) ≡ present_in b j n
unfolding present_in
dedup-present_in b zero j = unfold dedup in refl
dedup-present_in b (suc n) j =
    ground (arith, dedup-present_in b n (j + 1), dedup-cons b n (j + 1) j (omega arith))

module _ (codec : Codec) (now : ℕ) (plan : Plan) (s : IsSound plan) where
  ordered : dedup (sort plan.backups) ≡ plan.backups
  ordered =
      ap (λ l. dedup (sort l)) s.listed
      ∙ ap dedup (sort-present_in plan.backups plan.count 1)
      ∙ dedup-present_in plan.backups plan.count 1
      ∙ sym s.listed

  within : any plan.backups (λ i. i == 0 || ltb plan.count i) ≡ false
  within =
      ap (λ l. any l (λ i. i == 0 || ltb plan.count i)) s.listed
      ∙ in_range plan.backups plan.count plan.count 1 (omega arith) (omega arith)

  known :
      (phase : String)
      → (phase == "staging" || phase == "installing") ≡ true
      → is_known (manifest_of plan phase) ≡ true
  unfolding is_known
  known phase right = ground (arith, s.named, s.kept, right, within)

  -- The manifest of a sound plan passes the checks.
  pub check_manifest-ok :
      (phase : String)
      → (phase == "staging" || phase == "installing") ≡ true
      → check_manifest codec now (manifest_of plan phase) ≡ ok tt
  unfolding check_manifest
  check_manifest-ok phase right =
      rw (known phase right)
        (ground (arith, ordered, ==_iff (dedup (sort plan.backups)) plan.backups))
