-- ===== src/Conditions/Matcher/Search.antt =====
-- `args_match` against the meaning of patterns.
use hp_guardian.Prelude.{
  ℕ, zero, suc, ◌+◌, ◌≤◌, ◌<◌, Bool, true, false, List, [], ◌∷◌, ◌++◌, ◌≡◌, refl, sym, ap, inl, inr,
  ◌↔◌, arith, some, Bool-cases, if_true, if_false, subst, ok-injective, length, drop, String, chars,
  Result, ok, err, length-append,
}
use hp_guardian.Conditions.Pattern.{ArgsPattern, Reason, parse_args_pattern}
use hp_guardian.Conditions.Matcher.{matches_at, answer, any_start, occurs, args_match}
use hp_guardian.Conditions.Matcher.Matches.{Matches, plain, plain_iff}
use hp_guardian.Conditions.Matcher.Table.{fresh-Returns}

-- The pattern occurs in the text: at its start, if the pattern is anchored there.
pub record Occurs (p : ArgsPattern) (text : List ℕ) : Type 0 where
  pub before : List ℕ
  pub rest : List ℕ
  pub split : text ≡ before ++ rest
  pub anchored : p.start_anchored ≡ true → before ≡ []
  pub matches : Matches p.end_anchored p.tokens rest

-- A run from any start within the text returns without a panic, and says whether the tokens match
-- the text from there.
pub matches_at_iff :
    (p : ArgsPattern) (text : List ℕ) (start : ℕ)
    → start ≤ length text
    → (b : Bool) × (matches_at p text start ≡ some b)
      × ((b ≡ true) ↔ Matches p.end_anchored p.tokens (drop start text))
unfolding matches_at
matches_at_iff p text start h =
    let (m, e, ok') = fresh-Returns p.end_anchored p.tokens text start h in
    (
      plain p.end_anchored p.tokens (drop start text),
      rw (e, matches_at),
      plain_iff p.end_anchored p.tokens (drop start text),
    )

answer_iff :
    (p : ArgsPattern) (text : List ℕ) (start : ℕ)
    → start ≤ length text
    → (answer (matches_at p text start) ≡ true) ↔ Matches p.end_anchored p.tokens (drop start text)
answer_iff p text start h = let (b, e, iff) = matches_at_iff p text start h in rw e iff

any_start_sound :
    (p : ArgsPattern) (text : List ℕ) (start n : ℕ)
    → any_start p text start n ≡ true
    → (k : ℕ) × (k < start + n) × (answer (matches_at p text k) ≡ true)
unfolding any_start
any_start_sound p text start zero h = absurd (ground arith)
any_start_sound p text start (suc n) h = elim (Bool-cases (answer (matches_at p text start))) [
  | inl here ↦ (start, omega arith, here)
  | inr not_here ↦
      let (k, lt, there) = any_start_sound p text (start + 1) n (ground arith) in
      (k, omega arith, there)
]

any_start_complete :
    (p : ArgsPattern) (text : List ℕ) (start n k : ℕ)
    → start ≤ k
    → k < start + n
    → answer (matches_at p text k) ≡ true
    → any_start p text start n ≡ true
unfolding any_start
any_start_complete p text start zero k le lt h = absurd (omega arith)
any_start_complete p text start (suc n) k le lt h = ground (
  arith,
  any_start_complete p text (start + 1) n k,
  ap (λ j. answer (matches_at p text j)) {x = start} {y = k},
)

module _ {ℓ} {A : Type ℓ} where
  prefix_of_drop : (k : ℕ) (l : List A) → (before : List A) × (l ≡ before ++ drop k l)
  prefix_of_drop zero l = ([], refl)
  prefix_of_drop (suc k) [] = ([], refl)
  prefix_of_drop (suc k) (x ∷ xs) =
      let (before, e) = prefix_of_drop k xs in (x ∷ before, ap (λ l. x ∷ l) e)

  drop-append : (before rest : List A) → drop (length before) (before ++ rest) ≡ rest
  drop-append [] rest = refl
  drop-append (x ∷ before) rest = drop-append before rest

Occurs-at :
    (p : ArgsPattern) (text : List ℕ) (k : ℕ)
    → p.start_anchored ≡ false
    → Matches p.end_anchored p.tokens (drop k text)
    → Occurs p text
Occurs-at p text k free m =
    let (before, e) = prefix_of_drop k text in
    record {
      before = before;
      rest = drop k text;
      split = e;
      anchored = λ a. cc (a, free);
      matches = m;
    }

occurs_iff : (p : ArgsPattern) (text : List ℕ) → (occurs p text ≡ true) ↔ Occurs p text
unfolding occurs
occurs_iff p text = elim (Bool-cases p.start_anchored) [
  | inl anchored ↦ rw (if_true {b = p.start_anchored} (answer (matches_at p text 0)) _ anchored) (
    λ h. record {
      before = [];
      rest = text;
      split = refl;
      anchored = λ a. refl;
      matches = (answer_iff p text 0 (omega arith)).0 h;
    },
    λ o. (answer_iff p text 0 (omega arith)).1 (at_start o anchored),
  )
  | inr free ↦ rw (if_false {b = p.start_anchored} _ (any_start p text 0 (length text + 1)) free) (
    λ h.
        let (k, lt, here) = any_start_sound p text 0 (length text + 1) h in
        Occurs-at p text k free ((answer_iff p text k (omega arith)).0 here),
    λ o.
        any_start_complete p text 0 (length text + 1) (length o.before) (omega arith) (in_text o)
          ((answer_iff p text (length o.before) (omega (arith, in_text o))).1 (at_split o)),
  )
]
  where
    at_start : Occurs p text → p.start_anchored ≡ true → Matches p.end_anchored p.tokens text
    at_start o a = rw (o.split, o.anchored a) o.matches

    in_text : (o : Occurs p text) → length o.before < 0 + (length text + 1)
    in_text o = omega (arith, ap length o.split, length-append o.before o.rest)

    at_split : (o : Occurs p text) → Matches p.end_anchored p.tokens (drop (length o.before) text)
    at_split o = rw (o.split, drop-append) o.matches

-- `args_match` holds exactly where the pattern is accepted by the parser and occurs in the text: no
-- wrong answer, no missed match, and no match for a pattern that the parser refuses.
pub args_match_iff :
    (text pattern : String)
    → (args_match text pattern ≡ true)
      ↔ ((p : ArgsPattern) × (parse_args_pattern pattern ≡ ok p) × Occurs p (chars text))
unfolding args_match
args_match_iff text pattern = by_cases (parse_args_pattern pattern)
  where
    by_cases :
        (r : Result Reason ArgsPattern)
        → ((elim r [ err reason ↦ false | ok p ↦ occurs p (chars text) ]) ≡ true)
          ↔ ((p : ArgsPattern) × (r ≡ ok p) × Occurs p (chars text))
    by_cases (err reason) = (λ h. cc, λ (p, e, o). cc)
    by_cases (ok p) = (
      λ h. (p, refl, (occurs_iff p (chars text)).0 h),
      λ (q, e, o).
          (occurs_iff p (chars text)).1
            (subst (λ x. Occurs x (chars text)) (sym (ok-injective e)) o),
    )
