-- ===== src/Tests.antt =====
-- A policy, its calls and a store with concrete values, on which the theorems are applied.
mod Quota
mod Policies
mod Rotations
mod Logs
mod Boundaries
mod Traces
use hp_guardian.Prelude.{
  map, ℕ, ◌+◌, ◌≤◌, ◌<◌, ◌-◌, ◌%◌, Bool, true, false, Option, none, some, List, [], ◌∷◌, ◌≡◌, refl,
  ◌≢◌, ◌↔◌, ◌⊎◌, inl, inr, arith, All, length, drop, String, chars, ok, ◌==◌, nat_eq, if◌then◌else◌,
  ◌&&◌, ◌||◌, not, leb,
}
use mathlib.Core.List.{Mem, Memᴰ}
use mathlib.Core.List.Memᴰ.{head, tail}
use mathlib.Core.Logic.{∥∥₁_map}
use hp_guardian.Prelude.Map.{get, contains_key, IsMap}
use hp_guardian.Models.{
  Action, allow, deny, throttle, log, Rule, RateLimit, PolicyCall, default_call, Decision,
  Condition, Conditions, leaves, nil, cons, default_condition, TimeWindow,
}
use hp_guardian.Matching.{rule_matches_rule, target_matches, entry_matches, agrees}
use hp_guardian.Matching.Target.{Agrees, rule_matches_rule_iff}
use hp_guardian.Conditions.{evaluate_at}
use hp_guardian.Conditions.Meaning.{Holds, evaluate_at_iff}
use hp_guardian.Conditions.Pattern.{
  ArgsPattern, Token, literal, any, parse_args_pattern, parse_characters, plain, token_matches,
  is_unsupported, add_character, repeat_last, is_escapable,
}
use hp_guardian.Conditions.Pattern.Print.{print_pattern, parse-print_pattern}
use hp_guardian.Conditions.Pattern.Printable.{parse_characters-print_pattern}
use hp_guardian.Conditions.Matcher.{
  args_match, matches_at, occurs, any_start, recall, read, or_else, write,
}
use hp_guardian.Conditions.Matcher.Matches.{Matches}
use hp_guardian.Conditions.Matcher.Search.{Occurs, args_match_iff, matches_at_iff}
use hp_guardian.Conditions.Glob.{path_matches}
use hp_guardian.Conditions.Glob.Globs.{Globs, path_matches_iff}
use hp_guardian.Engine.{
  Engine, with_version, resolve_call_with_selected_rule_at, resolve_call_at, is_rate_limited,
  matching, applies,
}
use hp_guardian.Engine.Resolution.{Resolves, resolve_call_iff}
use hp_guardian.Engine.Order.{
  unnumbered, SameRules, SameRules-same_action, SameRules-same_decision, deny_stays,
}
use hp_guardian.Engine.Limited.{Governed, resolve_call_at-cases}

abbrev read_call : PolicyCall
read_call = record default_call {
  agent = some "bot";
  tool = some "read";
  args = "ls" ∷ "/tmp/a" ∷ [];
}

abbrev allow_read : Rule
allow_read = record {
  action = allow;
  target = ("tool", "read") ∷ [];
  condition = default_condition;
  rule_index = 0;
}

abbrev deny_tmp : Rule
deny_tmp = record {
  action = deny;
  target = ("agent", "bot") ∷ [];
  condition = leaves (some "ls .*tmp") (some "/tmp/*") (some (record { start = 3; end = 9 }));
  rule_index = 1;
}

-- The same rule in another place.
abbrev deny_last : Rule
deny_last = record deny_tmp { rule_index = 2 }

abbrev two_calls : RateLimit
two_calls = record { max_calls = 2; window_seconds = 10 }

abbrev limited_engine : Engine
limited_engine = with_version (allow_read ∷ deny_tmp ∷ []) log 2 ((0, two_calls) ∷ [])

abbrev turned_engine : Engine
turned_engine = with_version (deny_tmp ∷ allow_read ∷ deny_last ∷ []) log 2 []

abbrev unlimited_engine : Engine
unlimited_engine = with_version (allow_read ∷ deny_tmp ∷ []) log 2 []

abbrev deny_only : Engine
deny_only = with_version (deny_tmp ∷ []) allow 1 []

abbrev both : Decision
both = record { action = deny; matched_rules = 0 ∷ 1 ∷ [] }

turned :
    {r : Rule}
    → Memᴰ r (map unnumbered (allow_read ∷ deny_tmp ∷ []))
    → Memᴰ r (map unnumbered (deny_tmp ∷ allow_read ∷ deny_last ∷ []))
turned (head e) = tail (head e)
turned (tail m) = tail (tail m)

unturned :
    {r : Rule}
    → Memᴰ r (map unnumbered (deny_tmp ∷ allow_read ∷ deny_last ∷ []))
    → Memᴰ r (map unnumbered (allow_read ∷ deny_tmp ∷ []))
unturned (head e) = tail (head e)
unturned (tail (head e)) = head e
unturned (tail (tail m)) = tail m

swap_rules : SameRules (allow_read ∷ deny_tmp ∷ []) (deny_tmp ∷ allow_read ∷ deny_last ∷ [])
swap_rules r = (λ m. ∥∥₁_map m turned, λ m. ∥∥₁_map m unturned)

one_in_two : (r : Rule) → Mem r (deny_tmp ∷ []) → Mem r (allow_read ∷ deny_tmp ∷ [])
one_in_two r m = ∥∥₁_map m (λ d. tail d)

tmp_matched :
    (resolve_call_with_selected_rule_at deny_only read_call 5)
    ≡ (record { action = deny; matched_rules = 1 ∷ [] }, none)
unfolding resolve_call_with_selected_rule_at target_matches entry_matches agrees args_match
    parse_args_pattern occurs any_start matches_at recall read token_matches or_else write
    path_matches
tmp_matched = refl

deny_stays_example : (resolve_call_with_selected_rule_at limited_engine read_call 5).0.action ≡ deny
deny_stays_example =
    deny_stays deny_only limited_engine read_call 5 one_in_two (rw tmp_matched (λ e. cc e))
      (rw tmp_matched refl)

resolve_call_iff_example :
    (resolve_call_with_selected_rule_at limited_engine read_call 5 ≡ (both, none))
    ↔ Resolves limited_engine read_call 5 both none
resolve_call_iff_example = resolve_call_iff limited_engine read_call 5 both none

SameRules-same_action_example :
    (resolve_call_with_selected_rule_at limited_engine read_call 5).0.action
    ≡ (resolve_call_with_selected_rule_at turned_engine read_call 5).0.action
SameRules-same_action_example =
    SameRules-same_action limited_engine turned_engine read_call 5 refl swap_rules

SameRules-same_decision_example :
    (resolve_call_at unlimited_engine read_call 5).action
    ≡ (resolve_call_at turned_engine read_call 5).action
SameRules-same_decision_example =
    SameRules-same_decision unlimited_engine turned_engine read_call 5 refl refl refl swap_rules

evaluate_at_iff_example :
    (evaluate_at deny_tmp read_call 5 ≡ true) ↔ Holds deny_tmp.condition read_call 5
evaluate_at_iff_example = evaluate_at_iff deny_tmp read_call 5

args_match_iff_example :
    (args_match "ls /tmp" "s .*p$" ≡ true)
    ↔ ((p : ArgsPattern) × (parse_args_pattern "s .*p$" ≡ ok p) × Occurs p (chars "ls /tmp"))
args_match_iff_example = args_match_iff "ls /tmp" "s .*p$"

rule_matches_rule_iff_example :
    (rule_matches_rule allow_read read_call ≡ true)
    ↔ All (λ (key, value). Agrees read_call key value) allow_read.target
rule_matches_rule_iff_example = rule_matches_rule_iff allow_read read_call

path_matches_iff_example :
    (path_matches (chars "/tmp/*") (chars "/tmp/a") ≡ true)
    ↔ Globs (chars "/tmp/*") (chars "/tmp/a")
path_matches_iff_example = path_matches_iff (chars "/tmp/*") (chars "/tmp/a")

abbrev anchored : ArgsPattern
anchored = record {
  start_anchored = true;
  end_anchored = true;
  tokens = record { kind = literal b'*'; repeated = true } ∷ plain any ∷ [];
}

parse-print_pattern_example : parse_characters (print_pattern anchored) ≡ ok anchored
parse-print_pattern_example =
    parse-print_pattern anchored (unfold is_unsupported in (refl, (tt, tt)))

anchored_text : parse_characters (chars "^\\**.$") ≡ ok anchored
unfolding parse_characters add_character repeat_last is_escapable
anchored_text = refl

parse_characters-print_pattern_example : parse_characters (print_pattern anchored) ≡ ok anchored
parse_characters-print_pattern_example =
    parse_characters-print_pattern (chars "^\\**.$") anchored anchored_text

matches_at_iff_example :
    (b : Bool) × (matches_at anchored (chars "*x") 0 ≡ some b)
    × ((b ≡ true) ↔ Matches true anchored.tokens (drop 0 (chars "*x")))
matches_at_iff_example = matches_at_iff anchored (chars "*x") 0 (omega arith)

resolve_call_at-cases_example :
    let (d, selected) = resolve_call_with_selected_rule_at limited_engine read_call 5 in
    let result = resolve_call_at limited_engine read_call 5 in
    (Governed limited_engine d selected
      × (result.action ≡ throttle)
      × (result.matched_rules ≡ d.matched_rules))
    ⊎ ((¬ Governed limited_engine d selected) × (result ≡ d))
resolve_call_at-cases_example = resolve_call_at-cases limited_engine read_call 5
