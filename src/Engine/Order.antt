-- ===== src/Engine/Order.antt =====
-- What the order, the repetition and the indices of the rules can change, and what more rules can.
use hp_guardian.Prelude.{
  Bool, true, false, if◌then◌else◌, none, ◌||◌, List, [], ◌∷◌, map, select, nat_eq, ◌≡◌, refl, sym,
  ◌∙◌, ap, inl, inr, ◌↔◌, ◌≢◌, arith, any, Bool-cases, Bool-ext, ◌≤◌,
}
use mathlib.Core.List.{Mem, Memᴰ}
use mathlib.Core.List.Memᴰ
use mathlib.Core.Logic.{∥∥₁_elim}
use native.Mathlib.Bridge.{le_prop}
use hp_guardian.Prelude.Members.{any-of_mem, any-Mem, select-Mem}
use hp_guardian.Models.{
  Action, deny, beq_action_iff, action_eq, Rule, PolicyCall, Decision, Instant,
}
use hp_guardian.Engine.{
  Engine, better, applies, matching, is_deny, resolve_matching, best_of,
  resolve_call_with_selected_rule_at, resolve_call_at,
}
use hp_guardian.Prelude.Map.{get}
use hp_guardian.Engine.Limited.{resolve_call_at-cases}
use hp_guardian.Engine.Best.{
  rank, same_rank-same_action, best_of-IsFirstBest, IsFirstBest-mem, IsFirstBest-rank,
}

abbrev pub unnumbered : Rule → Rule
unnumbered r = record r { rule_index = 0 }

-- The same members, in any order and as often as they like.
abbrev pub SameMembers : List Rule → List Rule → Type 0
SameMembers l l' = (r : Rule) → Mem r l ↔ Mem r l'

-- The same rules but for their indices, in any order and as often as they like.
abbrev pub SameRules : List Rule → List Rule → Type 0
SameRules l l' = SameMembers (map unnumbered l) (map unnumbered l')

action_of : Action → List Rule → Action
unfolding resolve_matching
action_of a rules = (resolve_matching a rules).0.action

best_rank-le :
    (first : Rule) (rest : List Rule) (first' : Rule) (rest' : List Rule)
    → SameMembers (first ∷ rest) (first' ∷ rest')
    → rank (best_of first rest) ≤ rank (best_of first' rest')
best_rank-le first rest first' rest' same =
    let f = best_of-IsFirstBest first rest in
    let f' = best_of-IsFirstBest first' rest' in
    ∥∥₁_elim ((same _).0 ∣ IsFirstBest-mem f ∣₁) le_prop (λ m. IsFirstBest-rank f' _ m)

SameMembers-sym : {l l' : List Rule} → SameMembers l l' → SameMembers l' l
SameMembers-sym same r = ((same r).1, (same r).0)

best_action-eq :
    (first : Rule) (rest : List Rule) (first' : Rule) (rest' : List Rule)
    → SameMembers (first ∷ rest) (first' ∷ rest')
    → (best_of first rest).action ≡ (best_of first' rest').action
best_action-eq first rest first' rest' same =
    same_rank-same_action (best_of first rest) (best_of first' rest') (
      omega (
        arith,
        best_rank-le first rest first' rest' same,
        best_rank-le first' rest' first rest (SameMembers-sym same),
      ))

not-Mem-nil : {r : Rule} → ¬ Mem r []
not-Mem-nil m = ∥∥₁_elim m (λ x. absurd x) (λ d. Memᴰ.not-nil d)

action_of-SameMembers :
    (a : Action) (l l' : List Rule) → SameMembers l l' → action_of a l ≡ action_of a l'
unfolding action_of
action_of-SameMembers a [] [] same = refl
action_of-SameMembers a [] (r ∷ rest) same = absurd (not-Mem-nil ((same r).1 ∣ Memᴰ.head refl ∣₁))
action_of-SameMembers a (r ∷ rest) [] same = absurd (not-Mem-nil ((same r).0 ∣ Memᴰ.head refl ∣₁))
action_of-SameMembers a (r ∷ rest) (r' ∷ rest') same = ground (
  arith,
  Bool-ext (any (r ∷ rest) is_deny) (any (r' ∷ rest') is_deny)
      (any-Mem is_deny _ _ (λ x. (same x).0)) (any-Mem is_deny _ _ (λ x. (same x).1)),
  best_action-eq r rest r' rest' same,
)

applies-unnumbered :
    (call : PolicyCall) (now : Instant) (r : Rule)
    → applies call now (unnumbered r) ≡ applies call now r
unfolding applies
applies-unnumbered call now r = refl

select-unnumbered :
    (call : PolicyCall) (now : Instant) (l : List Rule)
    → select (applies call now) (map unnumbered l) ≡ map unnumbered (select (applies call now) l)
select-unnumbered call now [] = refl
select-unnumbered call now (r ∷ l) =
    let rest = select-unnumbered call now l in
    let same = applies-unnumbered call now r in
    elim (Bool-cases (applies call now r)) [
      | inl used ↦ rw (same, used) (ap (λ m. unnumbered r ∷ m) rest)
      | inr unused ↦ rw (same, unused) rest
    ]

pick-unnumbered :
    (b : Bool) (r s : Rule)
    → (if b then unnumbered r else unnumbered s) ≡ unnumbered (if b then r else s)
pick-unnumbered true r s = refl
pick-unnumbered false r s = refl

best_of-unnumbered :
    (best : Rule) (l : List Rule)
    → best_of (unnumbered best) (map unnumbered l) ≡ unnumbered (best_of best l)
unfolding best_of better
best_of-unnumbered best [] = refl
best_of-unnumbered best (r ∷ l) =
    ap (λ x. best_of x (map unnumbered l)) (pick-unnumbered (better r best) r best)
    ∙ best_of-unnumbered (if better r best then r else best) l

any-unnumbered : (l : List Rule) → any (map unnumbered l) is_deny ≡ any l is_deny
any-unnumbered [] = refl
any-unnumbered (r ∷ l) = ap (λ b. is_deny r || b) (any-unnumbered l)

-- The index of a rule has no part in the action.
action_of-unnumbered : (a : Action) (l : List Rule) → action_of a (map unnumbered l) ≡ action_of a l
unfolding action_of
action_of-unnumbered a [] = refl
action_of-unnumbered a (r ∷ l) =
    ground (arith, any-unnumbered (r ∷ l), ap (λ (x : Rule). x.action) (best_of-unnumbered r l))

matching-action :
    (e : Engine) (call : PolicyCall) (now : Instant)
    → (resolve_call_with_selected_rule_at e call now).0.action
      ≡ action_of e.default_action (select (applies call now) (map unnumbered e.rules))
unfolding resolve_call_with_selected_rule_at action_of
matching-action e call now =
    let numbered = action_of-unnumbered e.default_action (matching e call now) in
    sym (ap (action_of e.default_action) (select-unnumbered call now e.rules) ∙ numbered)

-- The static decisions of two engines with one default action have the same action where each rule
-- of either is among the rules of the other but for its index: the order, the repetition
-- and the indices of the rules have no part in it.
pub SameRules-same_action :
    (e e' : Engine) (call : PolicyCall) (now : Instant)
    → e.default_action ≡ e'.default_action
    → SameRules e.rules e'.rules
    → (resolve_call_with_selected_rule_at e call now).0.action
      ≡ (resolve_call_with_selected_rule_at e' call now).0.action
SameRules-same_action e e' call now defaults same =
    let l = map unnumbered e.rules in
    let l' = map unnumbered e'.rules in
    matching-action e call now
    ∙ ap (λ a. action_of a (select (applies call now) l)) defaults
    ∙ action_of-SameMembers e'.default_action _ _ (λ r. (
      select-Mem (applies call now) l l' (λ x. (same x).0) r,
      select-Mem (applies call now) l' l (λ x. (same x).1) r,
    ))
    ∙ sym (matching-action e' call now)

unlimited :
    (e : Engine) (call : PolicyCall) (now : Instant)
    → e.rate_limits ≡ []
    → resolve_call_at e call now ≡ (resolve_call_with_selected_rule_at e call now).0
unfolding get
unlimited e call now free = elim (resolve_call_at-cases e call now) [
  | inl ((index, limit, g), throttles, kept) ↦
      let nothing : get e.rate_limits index ≡ none = ap (λ m. get m index) free in
      cc (nothing, g.is_limit)
  | inr (ungoverned, same) ↦ same
]

-- Two engines without rate limits and with one default action decide on the same action where
-- each rule of either is among the rules of the other but for its index.
pub SameRules-same_decision :
    (e e' : Engine) (call : PolicyCall) (now : Instant)
    → e.rate_limits ≡ []
    → e'.rate_limits ≡ []
    → e.default_action ≡ e'.default_action
    → SameRules e.rules e'.rules
    → (resolve_call_at e call now).action ≡ (resolve_call_at e' call now).action
SameRules-same_decision e e' call now free free' defaults same =
    ap (λ (d : Decision). d.action) (unlimited e call now free)
    ∙ SameRules-same_action e e' call now defaults same
    ∙ sym (ap (λ (d : Decision). d.action) (unlimited e' call now free'))

denied-any :
    (a : Action) (l : List Rule)
    → l ≢ []
    → (resolve_matching a l).0.action ≡ deny
    → any l is_deny ≡ true
unfolding resolve_matching
denied-any a [] ne h = absurd (ne refl)
denied-any a (r ∷ rest) ne h =
    let best_denies = λ (e : (best_of r rest).action ≡ deny).
      any-of_mem is_deny (IsFirstBest-mem (best_of-IsFirstBest r rest))
        ((beq_action_iff _ deny).1 e) in
    ground (arith, best_denies)

any-denied :
    (a : Action) (l : List Rule) → any l is_deny ≡ true → (resolve_matching a l).0.action ≡ deny
unfolding resolve_matching
any-denied a [] h = cc
any-denied a (r ∷ rest) h = ground arith

-- Where an engine matches some rule and denies a call, an engine that has all its rules and any
-- further ones, in any order and with any default action, denies the call too.
pub deny_stays :
    (e e' : Engine) (call : PolicyCall) (now : Instant)
    → ((r : Rule) → Mem r e.rules → Mem r e'.rules)
    → (resolve_call_with_selected_rule_at e call now).0.matched_rules ≢ []
    → (resolve_call_with_selected_rule_at e call now).0.action ≡ deny
    → (resolve_call_with_selected_rule_at e' call now).0.action ≡ deny
unfolding resolve_call_with_selected_rule_at
deny_stays e e' call now more hit denied = any-denied e'.default_action (matching e' call now) (
    any-Mem is_deny (matching e call now) (matching e' call now)
      (select-Mem (applies call now) _ _ more)
      (denied-any e.default_action (matching e call now) matched denied))
  where
    matched : matching e call now ≢ []
    matched empty = hit (
        unfold resolve_matching in
        ap (λ l. (resolve_matching e.default_action l).0.matched_rules) empty)
