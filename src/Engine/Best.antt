-- ===== src/Engine/Best.antt =====
-- The loop of `resolve_call_with_selected_rule_at` that picks the best rule.
use hp_guardian.Prelude.{
  ℕ, ◌+◌, ◌*◌, ◌≤◌, ◌<◌, Bool, true, false, List, [], ◌∷◌, ◌++◌, ◌≡◌, refl, sym, ap, ◌∙◌, subst,
  ◌⊎◌, inl, inr, ◌↔◌, arith, if◌then◌else◌, ltb, All,
}
use mathlib.Core.List.{Memᴰ}
use mathlib.Core.List.Memᴰ
use hp_guardian.Prelude.Members.{All-mem}
use mathlib.Core.List.Memᴰ.{head}
use hp_guardian.Models.{Action, Rule}
use hp_guardian.Engine.{rule_specificity, action_priority, better, best_of}

-- `r` comes before `s`: more target fields, or as many and an action of higher priority.
abbrev pub Beats : Rule → Rule → Type 0
Beats r s =
    (rule_specificity s < rule_specificity r)
    ⊎ ((rule_specificity r ≡ rule_specificity s)
        × (action_priority s.action < action_priority r.action))

-- The order as one number: priorities are below 7.
pub rank : Rule → ℕ
rank r = 7 * rule_specificity r + action_priority r.action

priority_bounds : (a : Action) → (1 ≤ action_priority a) × (action_priority a < 7)
priority_bounds a = ground arith

pub Beats-iff : (r s : Rule) → Beats r s ↔ (rank s < rank r)
unfolding rank
Beats-iff r s = (
  λ h. elim h [
    | inl more ↦ omega (arith, priority_bounds r.action, priority_bounds s.action)
    | inr tie ↦ omega (arith, tie.0, tie.1)
  ],
  λ h. grind (arith, priority_bounds r.action, priority_bounds s.action),
)

pub better-rank : (r s : Rule) → better r s ≡ ltb (rank s) (rank r)
unfolding rank better
better-rank r s = ground (arith, priority_bounds r.action, priority_bounds s.action)

pub same_rank-same_action : (r s : Rule) → rank r ≡ rank s → r.action ≡ s.action
unfolding rank
same_rank-same_action r s h =
    same_priority r.action s.action
      (omega (arith, priority_bounds r.action, priority_bounds s.action))
  where
    same_priority : (a b : Action) → action_priority a ≡ action_priority b → a ≡ b
    same_priority a b e = ground arith

-- The first of the best rules: it beats all before it, and none after it beats it.
pub record IsFirstBest (best : Rule) (rules : List Rule) : Type 0 where
  pub before : List Rule
  pub after : List Rule
  pub split : rules ≡ before ++ best ∷ after
  pub beats_before : All (λ r. Beats best r) before
  pub unbeaten_after : All (λ r. ¬ Beats r best) after

-- Either the loop keeps the rule that it starts from, or it ends on the first best of the rest.
abbrev Found : Rule → Rule → List Rule → Type 0
Found best first rest =
    ((best ≡ first) × All (λ r. ¬ Beats r first) rest) ⊎ (IsFirstBest best rest × Beats best first)

extend_before :
    {best : Rule} {rest : List Rule} (x : Rule)
    → Beats best x
    → IsFirstBest best rest
    → IsFirstBest best (x ∷ rest)
extend_before x b f = record {
  before = x ∷ f.before;
  after = f.after;
  split = ap (λ l. x ∷ l) f.split;
  beats_before = (b, f.beats_before);
  unbeaten_after = f.unbeaten_after;
}

Found-better :
    (best first x : Rule) (rest : List Rule)
    → Beats x first
    → Found best x rest
    → Found best first (x ∷ rest)
Found-better best first x rest b (inl (e, unbeaten)) = rw e (
    inr (
      record {
        before = [];
        after = rest;
        split = refl;
        beats_before = tt;
        unbeaten_after = unbeaten;
      },
      b,
    ))
Found-better best first x rest b (inr (f, c)) = inr (
  extend_before x c f,
  (Beats-iff best first).1 (omega (arith, (Beats-iff x first).0 b, (Beats-iff best x).0 c)),
)

Found-kept :
    (best first x : Rule) (rest : List Rule)
    → ¬ Beats x first
    → Found best first rest
    → Found best first (x ∷ rest)
Found-kept best first x rest n (inl (e, unbeaten)) = inl (e, (n, unbeaten))
Found-kept best first x rest n (inr (f, c)) = inr (
  extend_before x ((Beats-iff best x).1 (grind (arith, Beats-iff x first, Beats-iff best first))) f,
  c,
)

Found-round :
    (first x : Rule) (rest : List Rule) (b : Bool)
    → better x first ≡ b
    → Found (best_of x rest) x rest
    → Found (best_of first rest) first rest
    → Found (best_of (if b then x else first) rest) first (x ∷ rest)
Found-round first x rest true e won kept =
    Found-better _ first x rest ((Beats-iff x first).1 (ground (arith, better-rank x first))) won
Found-round first x rest false e won kept =
    Found-kept _ first x rest (λ b. ground (arith, better-rank x first, (Beats-iff x first).0 b))
      kept

best_of-Found : (first : Rule) (rest : List Rule) → Found (best_of first rest) first rest
unfolding best_of
best_of-Found first [] = inl (refl, tt)
best_of-Found first (x ∷ rest) =
    Found-round first x rest (better x first) refl (best_of-Found x rest) (best_of-Found first rest)

-- The loop ends on the first of the best rules.
pub best_of-IsFirstBest :
    (first : Rule) (rest : List Rule) → IsFirstBest (best_of first rest) (first ∷ rest)
best_of-IsFirstBest first rest = elim (best_of-Found first rest) [
  | inl (e, unbeaten) ↦ record {
    before = [];
    after = rest;
    split = ap (λ r. r ∷ rest) (sym e);
    beats_before = tt;
    unbeaten_after = rw e unbeaten;
  }
  | inr (f, c) ↦ extend_before first c f
]

pub IsFirstBest-mem : {best : Rule} {rules : List Rule} → IsFirstBest best rules → Memᴰ best rules
IsFirstBest-mem {best} f = rw f.split (Memᴰ.append_right f.before (head refl))

-- No rule has a higher rank.
pub IsFirstBest-rank :
    {best : Rule} {rules : List Rule}
    → IsFirstBest best rules
    → (r : Rule) → Memᴰ r rules
    → rank r ≤ rank best
IsFirstBest-rank {best} f r m = elim (Memᴰ.append_cases f.before (rw f.split at m)) [
  | inl b ↦ omega (arith, (Beats-iff best r).0 (All-mem (λ s. Beats best s) b f.beats_before))
  | inr a ↦ elim (Memᴰ.cases_cons a) [
    | inl e ↦ rw e (omega arith)
    | inr l ↦ grind (arith, All-mem (λ s. ¬ Beats s best) l f.unbeaten_after, Beats-iff r best)
  ]
]

-- A rule that beats all before it cannot stand behind an unbeaten one.
not_behind :
    (best other : Rule) (before after : List Rule) {rest : List Rule}
    → rest ≡ before ++ other ∷ after
    → All (λ r. ¬ Beats r best) rest
    → ¬ Beats other best
not_behind best other before after e unbeaten =
    let m = Memᴰ.append_right {a = other} before (head {xs = after} refl) in
    All-mem (λ r. ¬ Beats r best) {a = other} (rw e m) unbeaten

split_unique :
    {best other : Rule} (before after before' after' : List Rule)
    → before ++ best ∷ after ≡ before' ++ other ∷ after'
    → All (λ r. Beats best r) before
    → All (λ r. ¬ Beats r best) after
    → All (λ r. Beats other r) before'
    → All (λ r. ¬ Beats r other) after'
    → best ≡ other
split_unique [] after [] after' e b u b' u' = cc
split_unique {best} {other} [] after (y ∷ before') after' e b u b' u' =
    let y_best : y ≡ best = cc in
    let tails : after ≡ before' ++ other ∷ after' = cc in
    absurd (not_behind best other before' after' tails u (subst (Beats other) y_best b'.0))
split_unique {best} {other} (x ∷ before) after [] after' e b u b' u' =
    let x_other : x ≡ other = cc in
    let tails : after' ≡ before ++ best ∷ after = cc in
    absurd (not_behind other best before after tails u' (subst (Beats best) x_other b.0))
split_unique (x ∷ before) after (y ∷ before') after' e b u b' u' =
    split_unique before after before' after' (cc) b.1 u b'.1 u'

-- There is only one first best rule.
pub IsFirstBest-unique :
    {best other : Rule} (rules : List Rule)
    → IsFirstBest best rules
    → IsFirstBest other rules
    → best ≡ other
IsFirstBest-unique rules f g =
    split_unique f.before f.after g.before g.after (sym f.split ∙ g.split) f.beats_before
      f.unbeaten_after g.beats_before g.unbeaten_after
