-- ===== src/Conditions.antt =====
-- src/conditions.rs: the condition tree of a rule, evaluated on a call at an instant.
pub mod Pattern
pub mod Matcher
pub mod Glob
pub mod Meaning
use hp_guardian.Prelude.{
  String, Bool, true, false, ◌&&◌, ◌||◌, Option, none, some, List, ltb, leb, any, chars, join,
}
use hp_guardian.Prelude
use hp_guardian.Models.{
  Condition, Conditions, nil, cons, leaves, Instant, TimeWindow, PolicyCall, Rule,
}
use Matcher.{args_match}
use Glob.{path_matches}

-- `Option::is_none_or`
abbrev pub is_none_or {ℓ} : {A : Type ℓ} → Option A → (A → Bool) → Bool
is_none_or none f = true
is_none_or (some a) f = f a

unfoldable pub args_hold : PolicyCall → String → Bool
unfolding join
args_hold call pattern = args_match (join " " call.args) pattern

unfoldable pub path_holds : PolicyCall → String → Bool
path_holds call pattern = any call.args (λ argument. path_matches (chars pattern) (chars argument))

abbrev pub in_window : Instant → TimeWindow → Bool
in_window now window = leb window.start now && ltb now window.end

unfoldable mutual
  unfolding args_hold path_holds

  pub evaluate_condition : Condition → PolicyCall → Instant → Bool
  evaluate_condition (leaves args_pattern path_pattern time_window) call now =
      is_none_or args_pattern (args_hold call)
      && is_none_or path_pattern (path_holds call)
      && is_none_or time_window (in_window now)
  evaluate_condition (Condition.all children) call now = evaluate_all children call now
  evaluate_condition (Condition.any children) call now = evaluate_any children call now
  evaluate_condition (Condition.not child) call now =
      Prelude.not (evaluate_condition child call now)

  pub evaluate_all : Conditions → PolicyCall → Instant → Bool
  evaluate_all nil call now = true
  evaluate_all (cons child rest) call now =
      evaluate_condition child call now && evaluate_all rest call now

  pub evaluate_any : Conditions → PolicyCall → Instant → Bool
  evaluate_any nil call now = false
  evaluate_any (cons child rest) call now =
      evaluate_condition child call now || evaluate_any rest call now

unfoldable pub evaluate_at : Rule → PolicyCall → Instant → Bool
unfolding evaluate_condition
evaluate_at rule call now = evaluate_condition rule.condition call now
