-- ===== src/Parser/Conditions.antt =====
-- src/parser.rs: condition trees and their leaves.
use hp_guardian.Prelude.{
  ℕ, zero, suc, ◌+◌, String, Bool, false, ◌||◌, not, Option, none, some, List, [], ◌∷◌, length,
  if◌then◌else◌, ltb, ◌==◌, nat_eq, string_eq, option_eq, Result, ok, err, ◌>>=◌, ok_or, map_err,
  chars,
}
use hp_guardian.Models.{
  PolicyError, invalid_condition, invalid_regex, Condition, Conditions, nil, cons, leaves,
  default_condition, TimeWindow, Instant,
}
use hp_guardian.Conditions.Pattern.{reason_text, validate_args_match}
use hp_guardian.Parser.{Yaml, mapping, field_name, is_ambiguous_yaml_scalar}

-- What the parser uses of the date library, and the text of a character.
pub record Formats : Type 0 where
  pub parse_from_rfc3339 : String → Option Instant
  pub character_text : ℕ → String

abbrev pub max_condition_depth : ℕ
max_condition_depth = 32

abbrev pub max_condition_nodes : ℕ
max_condition_nodes = 128

ends_with_z : List ℕ → Bool
ends_with_z [] = false
ends_with_z (c ∷ []) = c == b'Z'
ends_with_z (c ∷ d ∷ cs) = ends_with_z (d ∷ cs)

-- The leaves that the loop over the fields of a condition has seen.
pub record Leaves : Type 0 where
  pub args_match : Option String
  pub path_pattern : Option String
  pub time_window : Option TimeWindow

abbrev pub no_leaves : Leaves
no_leaves = record { args_match = none; path_pattern = none; time_window = none }

abbrev pub bad_window : PolicyError
bad_window = invalid_condition "time_window"

abbrev pub bad_condition : PolicyError
bad_condition = invalid_condition "condition"

-- A tree and the nodes counted so far.
abbrev pub Counted : Type 0 → Type 0
Counted A = Result PolicyError (A × ℕ)

module _ (yaml : Yaml) (formats : Formats) where
  unfoldable pub parse_utc_timestamp : String → Result PolicyError Instant
  unfolding ends_with_z
  parse_utc_timestamp timestamp =
      if not (ends_with_z (chars timestamp))
      then err bad_window
      else ok_or (formats.parse_from_rfc3339 timestamp) bad_window

  -- The loop over the two fields: `start` and `end` so far.
  unfoldable pub window_fields :
      List (yaml.Value × yaml.Value)
      → Option Instant
      → Option Instant
      → Result PolicyError (Option Instant × Option Instant)
  window_fields [] start end = ok (start, end)
  window_fields ((field, value) ∷ fields) start end =
      let with_start = λ (t : Instant). window_fields fields (some t) end in
      let with_end = λ (t : Instant). window_fields fields start (some t) in
      do
        name ← map_err (λ e. bad_window) (field_name yaml field "time_window")
        timestamp ← ok_or (yaml.as_str value) bad_window
        (if name == "start"
            then (do t ← parse_utc_timestamp timestamp; with_start t)
            else if name == "end"
            then (do t ← parse_utc_timestamp timestamp; with_end t)
            else err bad_window)

  abbrev pub ordered_window : Option Instant × Option Instant → Result PolicyError TimeWindow
  ordered_window (some start, some end) =
      if ltb start end then ok (record { start = start; end = end }) else err bad_window
  ordered_window _ = err bad_window

  unfoldable pub parse_time_window : yaml.Value → Result PolicyError TimeWindow
  parse_time_window value = do
    fields ← map_err (λ e. bad_window) (mapping yaml value "time_window")
    (if not (length fields == 2)
        then err bad_window
        else do found ← window_fields fields none none; ordered_window found)

  abbrev pub validate_pattern : String → Result PolicyError (Unit {0})
  validate_pattern pattern =
      map_err (λ reason. invalid_regex pattern (reason_text formats.character_text reason))
        (validate_args_match pattern)

  -- A text that no YAML reader takes for another scalar.
  abbrev pub plain_text : String → yaml.Value → Result PolicyError String
  plain_text key value = do
    text ← ok_or (yaml.as_str value) (invalid_condition key)
    if is_ambiguous_yaml_scalar text then err (invalid_condition key) else ok text

  -- One field of a condition without a boolean operator.
  unfoldable pub leaf_field : String → yaml.Value → Leaves → Result PolicyError Leaves
  leaf_field key value seen =
      if key == "args_match"
      then (do
        pattern ← plain_text key value
        valid ← validate_pattern pattern
        ok (record seen { args_match = some pattern }))
      else if key == "path_pattern"
      then (do pattern ← plain_text key value; ok (record seen { path_pattern = some pattern }))
      else if key == "time_window"
      then (do window ← parse_time_window value; ok (record seen { time_window = some window }))
      else err (invalid_condition key)

  unfoldable pub leaf_fields : List (yaml.Value × yaml.Value) → Leaves → Result PolicyError Leaves
  leaf_fields [] seen = ok seen
  leaf_fields ((field, value) ∷ fields) seen =
      let rest = λ (l : Leaves). leaf_fields fields l in
      do
        key ← map_err (λ e. bad_condition) (field_name yaml field "condition")
        seen' ← leaf_field key value seen
        rest seen'

  abbrev pub is_operator : Option String → Bool
  is_operator name = name == some "all" || name == some "any" || name == some "not"

  -- The first key that is a boolean operator.
  abbrev pub boolean_operator : List (yaml.Value × yaml.Value) → Option String
  boolean_operator [] = none
  boolean_operator ((key, value) ∷ fields) =
      if is_operator (yaml.as_str key) then yaml.as_str key else boolean_operator fields

  -- The children of `all` and `any`, with the parser of one child.
  unfoldable pub parse_children :
      (yaml.Value → ℕ → Counted Condition) → List yaml.Value → ℕ → Counted Conditions
  parse_children child [] nodes = ok (nil, nodes)
  parse_children child (value ∷ values) nodes =
      let rest = λ (n : ℕ). parse_children child values n in
      do (first, n) ← child value nodes; (others, n') ← rest n; ok (cons first others, n')

  unfoldable pub parse_operator :
      (yaml.Value → ℕ → Counted Condition)
      → String
      → List (yaml.Value × yaml.Value)
      → ℕ
      → Counted Condition
  unfolding parse_children
  parse_operator child operator ((key, value) ∷ []) nodes =
      if operator == "not" then (do (c, n) ← child value nodes; ok (Condition.not c, n)) else (do
        values ← ok_or (yaml.as_sequence value) (invalid_condition operator)
        (children, n) ← parse_children child values nodes
        ok (if operator == "all" then Condition.all children else Condition.any children, n))
  parse_operator child operator fields nodes = err (invalid_condition operator)

  -- A node, with the parser of its children.
  unfoldable pub parse_node :
      (yaml.Value → ℕ → Counted Condition) → yaml.Value → ℕ → Counted Condition
  unfolding parse_operator leaf_fields
  parse_node child condition nodes =
      if ltb max_condition_nodes (nodes + 1)
      then err (invalid_condition "condition tree exceeds 128 nodes")
      else do
        fields ← map_err (λ e. bad_condition) (mapping yaml condition "condition")
        elim (boolean_operator fields) [
          | some operator ↦ parse_operator child operator fields (nodes + 1)
          | none ↦ do
            seen ← leaf_fields fields no_leaves
            ok (leaves seen.args_match seen.path_pattern seen.time_window, nodes + 1)
        ]

  -- `levels` is `MAX_CONDITION_DEPTH + 1 - depth`, the levels that are left.
  unfoldable pub parse_condition : ℕ → yaml.Value → ℕ → Counted Condition
  unfolding parse_node
  parse_condition zero condition nodes =
      err (invalid_condition "condition nesting exceeds 32 levels")
  parse_condition (suc levels) condition nodes = parse_node (parse_condition levels) condition nodes

  unfoldable pub parse_conditions : Option yaml.Value → Result PolicyError Condition
  unfolding parse_condition
  parse_conditions none = ok default_condition
  parse_conditions (some condition) = do
    (tree, nodes) ← parse_condition max_condition_depth condition 0
    ok tree
