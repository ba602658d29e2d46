-- ===== src/Tests/Policies.antt =====
-- The parser on two small documents, with a YAML library of a few kinds of values.
use hp_guardian.Prelude.{
  ℕ, ◌≤◌, String, Option, none, some, List, [], ◌∷◌, ◌≡◌, refl, Result, ok, err, ◌==◌, string_eq,
  if◌then◌else◌,
}
use hp_guardian.Prelude.Map.{get, insert}
use hp_guardian.Models.{allow, deny, Condition, leaves, default_condition}
use hp_guardian.Engine.{Engine, with_version}
use hp_guardian.Audit.Store.{reload}
use hp_guardian.Audit.Store.Boundary.{Reloaded, reload-Reloaded}
use hp_guardian.Tests.Boundaries.{list_log, list_store}
use hp_guardian.Parser.{Yaml, ℤ, pos, parse_action, is_ambiguous_yaml_scalar}
use hp_guardian.Parser.Conditions.{Formats, parse_conditions, leaf_field}
use hp_guardian.Parser.Rules.{
  Loading, add_rules, add_rule, make_rule, add_id, check_limited, push_rule, parse_rate_limit,
  limit_fields,
}
use hp_guardian.Parser.Targets.{parse_target, add_enclosing, add_enclosing_target}
use hp_guardian.Parser.Policy.{
  add_agents, add_agent, add_tools, add_tool, parse, parse_rate_limited, declared_version,
}
use hp_guardian.Parser.Bounds.{parse_conditions-bounds}
use hp_guardian.Parser.Trees.{depth, size, IsValid}
use hp_guardian.Parser.WellFormed.{WellFormed}
use hp_guardian.Parser.Versions.{parse-version_1, parse_rate_limited-version_2}

mutual
  data Document : Type 0 where
    text : String → Document
    number : ℕ → Document
    sequence : Documents → Document
    fields : Entries → Document

  data Documents : Type 0 where
    nil : Documents
    cons : Document → Documents → Documents

  data Entries : Type 0 where
    done : Entries
    entry : String → Document → Entries → Entries

abbrev items : Documents → List Document
items nil = []
items (cons d ds) = d ∷ items ds

abbrev pairs : Entries → List (Document × Document)
pairs done = []
pairs (entry name d es) = (text name, d) ∷ pairs es

abbrev text_of : Document → Option String
text_of (text s) = some s
text_of _ = none

abbrev number_of : Document → Option ℕ
number_of (number n) = some n
number_of _ = none

abbrev integer_of : Document → Option ℤ
integer_of (number n) = some (pos n)
integer_of _ = none

abbrev items_of : Document → Option (List Document)
items_of (sequence ds) = some (items ds)
items_of _ = none

abbrev pairs_of : Document → Option (List (Document × Document))
pairs_of (fields es) = some (pairs es)
pairs_of _ = none

abbrev limited_rule : Document
limited_rule = fields (
    entry "action" (text "allow") (
      entry "rate_limit"
        (fields (entry "max_calls" (number 2) (entry "window_seconds" (number 10) done))) done))

abbrev guarded_rule : Document
guarded_rule = fields (
    entry "action" (text "deny") (
      entry "condition"
        (fields (entry "not" (fields (entry "path_pattern" (text "/tmp/*") done)) done)) done))

abbrev under_agent : Document → Document
under_agent rules = fields (
    entry "bot"
      (fields (entry "tools" (fields (entry "read" (fields (entry "rules" rules done)) done)) done))
      done)

abbrev first_policy : Document
first_policy =
    fields (entry "version" (number 1) (entry "rules" (sequence (cons guarded_rule nil)) done))

abbrev second_policy : Document
second_policy = fields (
    entry "version" (number 2)
      (entry "agents" (under_agent (sequence (cons limited_rule nil))) done))

abbrev read_document : String → Result String Document
read_document name =
    if name == "first"
    then ok first_policy
    else if name == "second"
    then ok second_policy
    else err "no document"

abbrev small_yaml : Yaml
small_yaml = record {
  Value = Document;
  from_str = read_document;
  as_str = text_of;
  as_i64 = integer_of;
  as_u64 = number_of;
  as_sequence = items_of;
  as_mapping = pairs_of;
  to_string = text_of;
  i64_text = λ z. "another version";
}

abbrev no_formats : Formats
no_formats = record { parse_from_rfc3339 = λ s. none; character_text = λ c. "?" }

abbrev first_engine : Engine
first_engine =
    with_version
      (record {
        action = deny;
        target = [];
        condition = Condition.not (leaves none (some "/tmp/*") none);
        rule_index = 0;
      }
        ∷ [])
      allow 1 []

abbrev second_engine : Engine
second_engine =
    with_version
      (record {
        action = allow;
        target = ("agent", "bot") ∷ ("tool", "read") ∷ [];
        condition = default_condition;
        rule_index = 0;
      }
        ∷ [])
      allow 2 ((0, record { max_calls = 2; window_seconds = 10 }) ∷ [])

parse_first : parse small_yaml no_formats "first" ≡ ok first_engine
unfolding parse add_rules add_rule make_rule add_id parse_action check_limited parse_target
    add_enclosing add_enclosing_target parse_conditions leaf_field is_ambiguous_yaml_scalar
    push_rule parse_rate_limit limit_fields get insert
parse_first = refl

parse_second : parse_rate_limited small_yaml no_formats "second" ≡ ok second_engine
unfolding parse_rate_limited add_agents add_agent add_tools add_tool add_rules add_rule make_rule
    add_id parse_action check_limited parse_target add_enclosing add_enclosing_target
    parse_conditions leaf_field is_ambiguous_yaml_scalar push_rule parse_rate_limit limit_fields get
    insert
parse_second = refl

parse-version_1_example :
    (policy : Document) × (read_document "first" ≡ ok policy)
    × (declared_version small_yaml no_formats policy ≡ ok (pos 1))
    × (first_engine.version ≡ 1)
    × (first_engine.rate_limits ≡ [])
    × ((n : ℕ) × WellFormed first_engine.rules first_engine.rate_limits n)
parse-version_1_example = parse-version_1 small_yaml no_formats "first" first_engine parse_first

parse_rate_limited-version_2_example :
    (policy : Document) × (read_document "second" ≡ ok policy)
    × (declared_version small_yaml no_formats policy ≡ ok (pos 2))
    × (second_engine.version ≡ 2)
    × ((n : ℕ) × WellFormed second_engine.rules second_engine.rate_limits n)
parse_rate_limited-version_2_example =
    parse_rate_limited-version_2 small_yaml no_formats "second" second_engine parse_second

abbrev negated : Condition
negated = Condition.not (leaves none (some "/tmp/*") none)

abbrev negated_document : Document
negated_document = fields (entry "not" (fields (entry "path_pattern" (text "/tmp/*") done)) done)

parse_negated : parse_conditions small_yaml no_formats (some negated_document) ≡ ok negated
unfolding parse_conditions leaf_field is_ambiguous_yaml_scalar
parse_negated = refl

parse_conditions-bounds_example : (depth negated ≤ 32) × (size negated ≤ 128) × IsValid negated
parse_conditions-bounds_example =
    parse_conditions-bounds small_yaml no_formats (some negated_document) negated parse_negated

abbrev loaded_second : Loading
loaded_second = record {
  rules = second_engine.rules;
  rule_ids = [];
  index = 1;
  rate_limits = second_engine.rate_limits;
}

abbrev bot_agents : Document
bot_agents = under_agent (sequence (cons limited_rule nil))

reload-Reloaded_example :
    Reloaded list_log small_yaml no_formats
      (λ text. 7 ∷ [])
      5
      "first"
      list_store
      (reload list_log small_yaml no_formats (λ text. 7 ∷ []) 5 "first" list_store)
reload-Reloaded_example =
    reload-Reloaded list_log small_yaml no_formats (λ text. 7 ∷ []) 5 "first" list_store
