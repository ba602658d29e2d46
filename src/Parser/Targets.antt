-- ===== src/Parser/Targets.antt =====
-- src/parser.rs: the target of a rule, its own and the enclosing one.
use hp_guardian.Prelude.{
  String, ◌||◌, Option, none, some, List, [], ◌∷◌, if◌then◌else◌, ◌==◌, nat_eq, string_eq, Result,
  ok, err, ◌>>=◌, ok_or, map_err, ◌⧺◌,
}
use hp_guardian.Prelude.Map.{Map, get, insert}
use hp_guardian.Models.{action_eq, PolicyError, invalid_target, conflicting_target}
use hp_guardian.Parser.{Yaml, mapping, field_name, is_ambiguous_yaml_scalar}

abbrev pub Target : Type 0
Target = Map String String

-- One entry of the enclosing target.
unfoldable pub add_enclosing_target : Target → String → String → Result PolicyError Target
add_enclosing_target target key enclosing_value = elim (get target key) [
  | none ↦ ok (insert target key enclosing_value)
  | some value ↦
      if value == enclosing_value
      then ok (insert target key enclosing_value)
      else err (conflicting_target key)
]

unfoldable pub add_enclosing : Target → Target → Result PolicyError Target
add_enclosing target [] = ok target
add_enclosing target ((key, value) ∷ enclosing) = do
  target' ← add_enclosing_target target key value
  add_enclosing target' enclosing

module _ (yaml : Yaml) where
  abbrev pub bad_target : PolicyError
  bad_target = invalid_target "target"

  -- A text of a target, with the name under which it is refused.
  abbrev pub target_text : String → yaml.Value → Result PolicyError String
  target_text name value = do
    text ← ok_or (yaml.as_str value) (invalid_target name)
    if is_ambiguous_yaml_scalar text then err (invalid_target name) else ok text

  unfoldable pub context_fields :
      List (yaml.Value × yaml.Value) → Target → Result PolicyError Target
  context_fields [] parsed = ok parsed
  context_fields ((field, value) ∷ fields) parsed =
      let rest = λ (t : Target). context_fields fields t in
      do
        key ← map_err (λ e. invalid_target "context") (field_name yaml field "target.context")
        text ← target_text ("context." ⧺ key) value
        rest (insert parsed ("context." ⧺ key) text)

  unfoldable pub target_field : String → yaml.Value → Target → Result PolicyError Target
  unfolding context_fields
  target_field key value parsed =
      if key == "agent" || key == "tool" || key == "user"
      then (do text ← target_text key value; ok (insert parsed key text))
      else if key == "context"
      then (do
        context ← map_err (λ e. invalid_target "context") (mapping yaml value "target.context")
        context_fields context parsed)
      else err (invalid_target key)

  unfoldable pub target_fields : List (yaml.Value × yaml.Value) → Target → Result PolicyError Target
  target_fields [] parsed = ok parsed
  target_fields ((field, value) ∷ fields) parsed =
      let rest = λ (t : Target). target_fields fields t in
      do
        key ← map_err (λ e. bad_target) (field_name yaml field "target")
        parsed' ← target_field key value parsed
        rest parsed'

  unfoldable pub parse_target : Option yaml.Value → Result PolicyError Target
  unfolding target_fields target_field
  parse_target none = ok []
  parse_target (some target) = do
    fields ← map_err (λ e. bad_target) (mapping yaml target "target")
    target_fields fields []
