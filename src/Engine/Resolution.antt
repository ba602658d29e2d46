-- ===== src/Engine/Resolution.antt =====
-- What `resolve_call_with_selected_rule_at` promises, with no loop in it: the three outcomes.
use hp_guardian.Prelude.{
  ℕ, true, Option, none, some, List, [], ◌∷◌, map, ◌≡◌, refl, sym, ap, ◌∙◌, subst, inl, inr, ◌↔◌,
  ◌≢◌, arith, any, Bool-cases,
}
use mathlib.Core.List.{Memᴰ}
use mathlib.Core.List.Memᴰ
use hp_guardian.Prelude.Members.{any-of_mem, mem-of_any}
use hp_guardian.Models.{Action, deny, beq_action_iff, Rule, Decision, PolicyCall, Instant}
use hp_guardian.Engine.{
  Engine, matching, is_deny, best_of, resolve_matching, resolve_call_with_selected_rule_at,
}
use hp_guardian.Engine.Best.{IsFirstBest, best_of-IsFirstBest, IsFirstBest-mem, IsFirstBest-unique}

abbrev pub indices : List Rule → List ℕ
indices = map (λ rule. rule.rule_index)

-- `rules` are the applicable rules in declaration order.
pub data Outcome (default_action : Action) (rules : List Rule) (d : Decision) (selected : Option ℕ)
    : Type 0 where
  -- No rule applies.
  unmatched :
      rules ≡ []
      → d.action ≡ default_action
      → selected ≡ none
      → Outcome default_action rules d selected
  -- A deny rule applies.
  denied :
      (r : Rule)
      → Memᴰ r rules
      → r.action ≡ deny
      → d.action ≡ deny
      → selected ≡ none
      → Outcome default_action rules d selected
  -- The first best rule is chosen.
  chosen :
      (best : Rule)
      → IsFirstBest best rules
      → ((r : Rule) → Memᴰ r rules → r.action ≢ deny)
      → d.action ≡ best.action
      → selected ≡ some best.rule_index
      → Outcome default_action rules d selected

-- The whole contract of a resolution.
pub record Resolves (e : Engine) (call : PolicyCall) (now : Instant) (d : Decision)
    (selected : Option ℕ) : Type 0 where
  pub recorded : d.matched_rules ≡ indices (matching e call now)
  pub outcome : Outcome e.default_action (matching e call now) d selected

deny_of : (r : Rule) → is_deny r ≡ true → r.action ≡ deny
deny_of r h = (beq_action_iff r.action deny).0 h

resolve_matching-recorded :
    (a : Action) (rules : List Rule) → (resolve_matching a rules).0.matched_rules ≡ indices rules
unfolding resolve_matching
resolve_matching-recorded a [] = refl
resolve_matching-recorded a (first ∷ rest) = ground arith

resolve_matching-Outcome :
    (a : Action) (rules : List Rule)
    → Outcome a rules (resolve_matching a rules).0 (resolve_matching a rules).1
unfolding resolve_matching
resolve_matching-Outcome a [] = unmatched refl refl refl
resolve_matching-Outcome a (first ∷ rest) = elim (Bool-cases (any (first ∷ rest) is_deny)) [
  | inl some_deny ↦
      let (r, m, t) = mem-of_any is_deny (first ∷ rest) some_deny in
      denied r m (deny_of r t) (ground arith) (ground arith)
  | inr no_deny ↦
      chosen (best_of first rest) (best_of-IsFirstBest first rest)
        (λ r m e. cc (no_deny, any-of_mem is_deny m ((beq_action_iff r.action deny).1 e)))
        (ground arith) (ground arith)
]

-- The three outcomes exclude one another, and each fixes the action and the selected rule.
Outcome-unique :
    (a : Action) (rules : List Rule) {d d' : Decision} {s s' : Option ℕ}
    → Outcome a rules d s
    → Outcome a rules d' s'
    → (d.action ≡ d'.action) × (s ≡ s')
Outcome-unique a rules (unmatched e p q) (unmatched e' p' q') = (cc, cc)
Outcome-unique a rules (unmatched e p q) (denied r m h p' q') =
    absurd (Memᴰ.not-nil (subst (Memᴰ r) e m))
Outcome-unique a rules (unmatched e p q) (chosen b f n p' q') =
    absurd (Memᴰ.not-nil (subst (Memᴰ b) e (IsFirstBest-mem f)))
Outcome-unique a rules (denied r m h p q) (unmatched e p' q') =
    absurd (Memᴰ.not-nil (subst (Memᴰ r) e m))
Outcome-unique a rules (denied r m h p q) (denied r' m' h' p' q') = (cc, cc)
Outcome-unique a rules (denied r m h p q) (chosen b f n p' q') = absurd (n r m h)
Outcome-unique a rules (chosen b f n p q) (unmatched e p' q') =
    absurd (Memᴰ.not-nil (subst (Memᴰ b) e (IsFirstBest-mem f)))
Outcome-unique a rules (chosen b f n p q) (denied r m h p' q') = absurd (n r m h)
Outcome-unique a rules (chosen b f n p q) (chosen b' f' n' p' q') =
    let same = IsFirstBest-unique rules f f' in (cc same, cc same)

-- The resolution of a call is exactly what the contract says: all applicable rules are recorded in
-- declaration order; with none the default action applies; a deny wins; otherwise the first of the
-- rules with the most target fields, and among those of the highest action priority, is selected.
pub resolve_call_iff :
    (e : Engine) (call : PolicyCall) (now : Instant) (d : Decision) (selected : Option ℕ)
    → (resolve_call_with_selected_rule_at e call now ≡ (d, selected))
      ↔ Resolves e call now d selected
unfolding resolve_call_with_selected_rule_at
resolve_call_iff e call now d selected = (
  λ p. record {
    recorded =
        ap (λ (q : Decision × Option ℕ). q.0.matched_rules) (sym p)
        ∙ resolve_matching-recorded e.default_action _;
    outcome =
        subst (λ (q : Decision × Option ℕ). Outcome e.default_action (matching e call now) q.0 q.1)
          p (resolve_matching-Outcome e.default_action _);
  },
  λ r.
      let (same_action, same_rule) =
        Outcome-unique _ _ (resolve_matching-Outcome e.default_action (matching e call now))
          r.outcome in
      let same_record =
        resolve_matching-recorded e.default_action (matching e call now) ∙ sym r.recorded in
      λ i. (record { action = same_action i; matched_rules = same_record i }, same_rule i),
)
