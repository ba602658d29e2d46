-- ===== src/Parser/Rules.antt =====
-- src/parser.rs: rules, their targets and their rate limits.
use hp_guardian.Prelude.{
  ℕ, ◌+◌, String, Bool, ◌&&◌, not, Option, none, some, List, [], ◌∷◌, ◌++◌, length, if◌then◌else◌,
  leb, any, ◌==◌, nat_eq, string_eq, Result, ok, err, ◌>>=◌, ok_or, ◌⧺◌,
}
use hp_guardian.Prelude.Map.{Map, insert}
use hp_guardian.Models.{
  Action, allow, action_eq, PolicyError, invalid_action, invalid_field, Rule, RateLimit, Condition,
}
use hp_guardian.Parser.{
  Yaml, mapping, field_name, value_description, is_ambiguous_yaml_scalar, parse_action,
}
use hp_guardian.Parser.Conditions.{Formats, parse_conditions}
use hp_guardian.Parser.Targets.{Target, add_enclosing, parse_target}

-- The four values that the parser changes while it reads: `rules`, `rule_ids`, `index` and
-- `rate_limits`.
pub record Loading : Type 0 where
  pub rules : List Rule
  pub rule_ids : List String
  pub index : ℕ
  pub rate_limits : Map ℕ RateLimit

abbrev pub in_limits : ℕ → Bool
in_limits n = leb 1 n && leb n 86400

abbrev pub checked_limit : Option ℕ × Option ℕ → Result PolicyError RateLimit
checked_limit (some max_calls, some window_seconds) =
    if in_limits max_calls && in_limits window_seconds
    then ok (record { max_calls = max_calls; window_seconds = window_seconds })
    else err (invalid_field "rate_limit values must be positive integers at most 86400")
checked_limit _ = err (invalid_field "rate_limit values must be positive integers at most 86400")

-- `rule_ids.insert`: an id that is there already is refused.
unfoldable pub add_id : Option String → List String → Result PolicyError (List String)
add_id none ids = ok ids
add_id (some id) ids =
    if any ids (λ other. other == id)
    then err (invalid_field ("duplicate rule id: " ⧺ id))
    else ok (id ∷ ids)

-- The last step of `add_rule`.
unfoldable pub push_rule : Loading → Action → Target → Condition → Option RateLimit → Loading
push_rule l action target condition rate_limit = record {
  rules =
      l.rules
      ++ record { action = action; target = target; condition = condition; rule_index = l.index }
        ∷ [];
  rule_ids = l.rule_ids;
  index = l.index + 1;
  rate_limits = elim rate_limit [
    | none ↦ l.rate_limits
    | some limit ↦ insert l.rate_limits l.index limit
  ];
}

-- A rate limit stands on an allow rule only.
unfoldable pub check_limited : Option RateLimit → Action → Result PolicyError (Unit {0})
check_limited none action = ok tt
check_limited (some limit) action =
    if action == allow
    then ok tt
    else err (invalid_field "rate_limit is permitted only on an allow rule")

module _ (yaml : Yaml) (formats : Formats) where
  abbrev Fields : Type 0
  Fields = List (yaml.Value × yaml.Value)

  -- The fields of a rule that its loop has seen.
  pub record RuleFields : Type 0 where
    pub action : Option String
    pub target : Option yaml.Value
    pub condition : Option yaml.Value
    pub id : Option String
    pub rate_limit : Option RateLimit

  abbrev pub no_fields : RuleFields
  no_fields = record {
    action = none;
    target = none;
    condition = none;
    id = none;
    rate_limit = none;
  }

  unfoldable pub limit_fields :
      List (yaml.Value × yaml.Value)
      → Option ℕ
      → Option ℕ
      → Result PolicyError (Option ℕ × Option ℕ)
  limit_fields [] max_calls window_seconds = ok (max_calls, window_seconds)
  limit_fields ((field, value) ∷ fields) max_calls window_seconds =
      let with_max = limit_fields fields (yaml.as_u64 value) window_seconds in
      let with_window = limit_fields fields max_calls (yaml.as_u64 value) in
      do
        name ← field_name yaml field "rate_limit"
        (if name == "max_calls"
            then with_max
            else if name == "window_seconds"
            then with_window
            else err (invalid_field ("rate_limit." ⧺ name)))

  unfoldable pub parse_rate_limit : yaml.Value → Result PolicyError RateLimit
  parse_rate_limit value = do
    fields ← mapping yaml value "rate_limit"
    (if not (length fields == 2)
        then err (invalid_field "rate_limit requires max_calls and window_seconds")
        else do found ← limit_fields fields none none; checked_limit found)

  unfoldable pub rule_field :
      Bool → String → yaml.Value → RuleFields → Result PolicyError RuleFields
  rule_field allow_rate_limit name value seen =
      if name == "action"
      then (do
        action ← ok_or (yaml.as_str value) (invalid_action (value_description yaml value))
        ok (record seen { action = some action }))
      else if name == "target"
      then ok (record seen { target = some value })
      else if name == "condition"
      then ok (record seen { condition = some value })
      else if name == "id"
      then (do
        id ← ok_or (yaml.as_str value) (invalid_field "rule.id")
        (if is_ambiguous_yaml_scalar id
            then err (invalid_field "rule.id must not be an ambiguous YAML scalar")
            else ok (record seen { id = some id })))
      else if name == "rate_limit" && allow_rate_limit
      then (do limit ← parse_rate_limit value; ok (record seen { rate_limit = some limit }))
      else err (invalid_field ("rule." ⧺ name))

  unfoldable pub rule_fields :
      Bool → List (yaml.Value × yaml.Value) → RuleFields → Result PolicyError RuleFields
  rule_fields allow_rate_limit [] seen = ok seen
  rule_fields allow_rate_limit ((field, value) ∷ fields) seen =
      let rest = λ (s : RuleFields). rule_fields allow_rate_limit fields s in
      do
        name ← field_name yaml field "rule"
        seen' ← rule_field allow_rate_limit name value seen
        rest seen'

  -- The part of `add_rule` behind the loop over its fields.
  unfoldable pub make_rule : RuleFields → Target → Loading → Result PolicyError Loading
  make_rule seen enclosing_target l = do
    action_text ← ok_or seen.action (invalid_action "missing rule.action")
    ids ← add_id seen.id l.rule_ids
    action ← parse_action action_text
    permitted ← check_limited seen.rate_limit action
    own ← parse_target yaml seen.target
    target ← add_enclosing own enclosing_target
    condition ← parse_conditions yaml formats seen.condition
    ok (push_rule (record l { rule_ids = ids }) action target condition seen.rate_limit)

  unfoldable pub add_rule : Bool → yaml.Value → Target → Loading → Result PolicyError Loading
  unfolding rule_fields rule_field
  add_rule allow_rate_limit value enclosing_target l = do
    fields ← mapping yaml value "rule"
    seen ← rule_fields allow_rate_limit fields no_fields
    make_rule seen enclosing_target l

  unfoldable pub add_entries :
      Bool → List yaml.Value → Target → Loading → Result PolicyError Loading
  add_entries allow_rate_limit [] enclosing_target l = ok l
  add_entries allow_rate_limit (entry ∷ entries) enclosing_target l =
      let rest = λ (l' : Loading). add_entries allow_rate_limit entries enclosing_target l' in
      do l' ← add_rule allow_rate_limit entry enclosing_target l; rest l'

  unfoldable pub add_rules : Bool → yaml.Value → Target → Loading → Result PolicyError Loading
  unfolding add_entries
  add_rules allow_rate_limit value enclosing_target l = do
    entries ← ok_or (yaml.as_sequence value) (invalid_field "rules must be a sequence")
    add_entries allow_rate_limit entries enclosing_target l
