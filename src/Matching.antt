-- ===== src/Matching.antt =====
-- src/matching.rs: whether the target of a rule fits a call.
pub mod Target
use hp_guardian.Prelude.{
  String, Bool, true, false, Option, none, some, List, [], ◌∷◌, if◌then◌else◌, ◌==◌, strip_prefix,
  string_eq, option_eq,
}
use hp_guardian.Prelude.Map.{Map, get}
use hp_guardian.Models.{PolicyCall, Rule}

-- A field of the call that is missing, or differs from the rule's value, makes the rule not match.
unfoldable pub agrees : Option String → String → Bool
agrees none value = false
agrees (some field) value = field == value

unfoldable pub agrees_context : Option String → PolicyCall → String → Bool
agrees_context none call value = false
agrees_context (some context_key) call value = get call.context context_key == some value

-- The body of the loop: false where the source returns false.
unfoldable pub entry_matches : PolicyCall → String → String → Bool
entry_matches call key value =
    if key == "agent"
    then agrees call.agent value
    else if key == "tool"
    then agrees call.tool value
    else if key == "user"
    then agrees call.user value
    else agrees_context (strip_prefix "context." key) call value

unfoldable pub target_matches : PolicyCall → Map String String → Bool
target_matches call [] = true
target_matches call ((key, value) ∷ target) =
    if entry_matches call key value then target_matches call target else false

unfoldable pub rule_matches_rule : Rule → PolicyCall → Bool
rule_matches_rule rule call = target_matches call rule.target
