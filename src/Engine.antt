-- ===== src/Engine.antt =====
-- src/engine.rs: the resolution of a call against the rules of a policy.
-- `version` is the `i64` of the source as the number that the parsers put there (1 or 2).
pub mod Best
pub mod Resolution
pub mod Order
pub mod Limited
use hp_guardian.Prelude.{
  ℕ, ◌+◌, String, Bool, true, false, ◌&&◌, ◌||◌, Option, none, some, List, [], ◌∷◌, map, length,
  select, any, if◌then◌else◌, ltb, ◌==◌, nat_eq,
}
use hp_guardian.Prelude.Map.{Map, contains_key}
use hp_guardian.Models.{
  Action, allow, deny, throttle, log, require_approval, redirect, action_eq, Rule, RateLimit,
  PolicyCall, Decision, Instant,
}
use hp_guardian.Matching.{rule_matches_rule}
use hp_guardian.Conditions.{evaluate_at}

abbrev pub rule_specificity : Rule → ℕ
rule_specificity rule = length rule.target

abbrev pub action_priority : Action → ℕ
action_priority deny = 6
action_priority require_approval = 5
action_priority throttle = 4
action_priority redirect = 3
action_priority allow = 2
action_priority log = 1

pub record Engine : Type 0 where
  pub rules : List Rule
  pub rate_limits : Map ℕ RateLimit
  pub version : ℕ
  pub default_action : Action

abbrev pub with_version : List Rule → Action → ℕ → Map ℕ RateLimit → Engine
with_version rules default_action version rate_limits = record {
  rules = rules;
  rate_limits = rate_limits;
  version = version;
  default_action = default_action;
}

abbrev pub with_default_action : List Rule → Action → Engine
with_default_action rules default_action = with_version rules default_action 1 []

abbrev pub new : List Rule → Engine
new rules = with_default_action rules allow

unfoldable pub applies : PolicyCall → Instant → Rule → Bool
unfolding rule_matches_rule evaluate_at
applies call now rule = rule_matches_rule rule call && evaluate_at rule call now

-- `matching`: the rules that apply, in declaration order.
abbrev pub matching : Engine → PolicyCall → Instant → List Rule
matching e call now = select (applies call now) e.rules

abbrev pub is_deny : Rule → Bool
is_deny rule = rule.action == deny

-- The test under which the loop replaces the best rule.
unfoldable pub better : Rule → Rule → Bool
better candidate best =
    ltb (rule_specificity best) (rule_specificity candidate)
    || (rule_specificity candidate == rule_specificity best
        && ltb (action_priority best.action) (action_priority candidate.action))

unfoldable pub best_of : Rule → List Rule → Rule
best_of best [] = best
best_of best (rule ∷ rest) = best_of (if better rule best then rule else best) rest

unfoldable pub resolve_matching : Action → List Rule → Decision × Option ℕ
unfolding best_of better
resolve_matching default_action [] = (record { action = default_action; matched_rules = [] }, none)
resolve_matching default_action (first ∷ rest) =
    let matched_rules = map (λ (rule : Rule). rule.rule_index) (first ∷ rest) in
    let best = best_of first rest in
    if any (first ∷ rest) is_deny
    then (record { action = deny; matched_rules = matched_rules }, none)
    else (record { action = best.action; matched_rules = matched_rules }, some best.rule_index)

unfoldable pub resolve_call_with_selected_rule_at :
    Engine → PolicyCall → Instant → Decision × Option ℕ
unfolding resolve_matching applies
resolve_call_with_selected_rule_at e call now =
    resolve_matching e.default_action (matching e call now)

pub is_rate_limited : Engine → Option ℕ → Bool
is_rate_limited e none = false
is_rate_limited e (some index) = contains_key e.rate_limits index

-- The `Engine` alone has no quota store: what a rate limit governs is throttled.
unfoldable pub resolve_call_at : Engine → PolicyCall → Instant → Decision
unfolding resolve_call_with_selected_rule_at is_rate_limited
resolve_call_at e call now =
    let (decision, selected_rule) = resolve_call_with_selected_rule_at e call now in
    if is_rate_limited e selected_rule && decision.action == allow
    then record { action = throttle; matched_rules = decision.matched_rules }
    else decision
