-- ===== src/Parser/Policy.antt =====
-- src/parser.rs: whole policies, their versions, defaults and agents.
use hp_guardian.Prelude.{
  ℕ, String, Bool, true, false, Option, none, some, List, [], ◌∷◌, if◌then◌else◌, ◌==◌, nat_eq,
  string_eq, option_eq, Result, ok, err, ◌>>=◌, ok_or, map_err, ◌⧺◌,
}
use hp_guardian.Models.{
  Action, allow, PolicyError, invalid_yaml, unsupported_version, invalid_action, invalid_field,
}
use hp_guardian.Engine.{Engine, with_version}
use hp_guardian.Parser.{
  Yaml, ℤ, pos, negsuc, mapping, field_name, value_description, parse_action, find_field,
}
use hp_guardian.Parser.Conditions.{Formats}
use hp_guardian.Parser.Rules.{Loading, add_rules}

-- The empty values before the loop over the fields of a policy.
abbrev pub nothing_loaded : Loading
nothing_loaded = record { rules = []; rule_ids = []; index = 0; rate_limits = [] }

module _ (yaml : Yaml) (formats : Formats) where
  unfoldable pub declared_version : yaml.Value → Result PolicyError ℤ
  declared_version policy = do
    fields ← mapping yaml policy "policy"
    version_value ← ok_or (find_field yaml "version" fields) (unsupported_version none)
    ok_or (yaml.as_i64 version_value) (unsupported_version (yaml.as_str version_value))

  unfoldable pub global_fields : List (yaml.Value × yaml.Value) → Action → Result PolicyError Action
  global_fields [] default_action = ok default_action
  global_fields ((field, value) ∷ fields) default_action =
      let rest = λ (a : Action). global_fields fields a in
      do
        name ← field_name yaml field "global"
        (if name == "default_action"
            then (do
              text ← ok_or (yaml.as_str value) (invalid_action (value_description yaml value))
              action ← parse_action text
              rest action)
            else err (invalid_field ("global." ⧺ name)))

  unfoldable pub parse_global : yaml.Value → Result PolicyError Action
  unfolding global_fields
  parse_global value = do fields ← mapping yaml value "global"; global_fields fields allow

  -- The loop that looks for the one field that is permitted, and keeps the last.
  unfoldable pub only_field :
      String
      → String
      → String
      → List (yaml.Value × yaml.Value)
      → Option yaml.Value
      → Result PolicyError (Option yaml.Value)
  only_field scope path wanted [] found = ok found
  only_field scope path wanted ((field, value) ∷ fields) found =
      let rest = λ (f : Option yaml.Value). only_field scope path wanted fields f in
      do
        name ← field_name yaml field scope
        if name == wanted then rest (some value) else err (invalid_field (path ⧺ "." ⧺ name))

  -- One tool of an agent.
  unfoldable pub add_tool :
      Bool → String → yaml.Value → yaml.Value → Loading → Result PolicyError Loading
  unfolding only_field
  add_tool allow_rate_limit agent_name tool tool_value l = do
    tool_name ← field_name yaml tool "tool"
    tool_fields ← mapping yaml tool_value "tool configuration"
    let path = "agents." ⧺ agent_name ⧺ ".tools." ⧺ tool_name
    found ← only_field "tool configuration" path "rules" tool_fields none
    tool_rules ← ok_or found (invalid_field (path ⧺ ".rules"))
    add_rules yaml formats allow_rate_limit tool_rules
        (("agent", agent_name) ∷ ("tool", tool_name) ∷ []) l

  unfoldable pub add_tools :
      Bool → String → List (yaml.Value × yaml.Value) → Loading → Result PolicyError Loading
  add_tools allow_rate_limit agent_name [] l = ok l
  add_tools allow_rate_limit agent_name ((tool, tool_value) ∷ tools) l =
      let rest = λ (l' : Loading). add_tools allow_rate_limit agent_name tools l' in
      do l' ← add_tool allow_rate_limit agent_name tool tool_value l; rest l'

  unfoldable pub add_agent : Bool → yaml.Value → yaml.Value → Loading → Result PolicyError Loading
  unfolding only_field
  add_agent allow_rate_limit agent agent_value l = do
    agent_name ← field_name yaml agent "agent"
    agent_fields ← mapping yaml agent_value "agent configuration"
    found ← only_field "agent configuration" ("agents." ⧺ agent_name) "tools" agent_fields none
    tools ← ok_or found (invalid_field ("agents." ⧺ agent_name ⧺ ".tools"))
    entries ← mapping yaml tools "tools"
    add_tools allow_rate_limit agent_name entries l

  unfoldable pub add_agent_entries :
      Bool → List (yaml.Value × yaml.Value) → Loading → Result PolicyError Loading
  add_agent_entries allow_rate_limit [] l = ok l
  add_agent_entries allow_rate_limit ((agent, agent_value) ∷ agents) l =
      let rest = λ (l' : Loading). add_agent_entries allow_rate_limit agents l' in
      do l' ← add_agent allow_rate_limit agent agent_value l; rest l'

  unfoldable pub add_agents : Bool → yaml.Value → Loading → Result PolicyError Loading
  unfolding add_agent_entries
  add_agents allow_rate_limit agents l = do
    entries ← mapping yaml agents "agents"
    add_agent_entries allow_rate_limit entries l

  -- One top-level field: it changes the default action or what is loaded.
  unfoldable pub policy_field :
      Bool → String → yaml.Value → Action × Loading → Result PolicyError (Action × Loading)
  policy_field allow_rate_limit field value (default_action, l) =
      if field == "version"
      then ok (default_action, l)
      else if field == "global"
      then (do action ← parse_global value; ok (action, l))
      else if field == "rules"
      then (do l' ← add_rules yaml formats allow_rate_limit value [] l; ok (default_action, l'))
      else if field == "agents"
      then (do l' ← add_agents allow_rate_limit value l; ok (default_action, l'))
      else err (invalid_field field)

  unfoldable pub policy_fields :
      Bool
      → List (yaml.Value × yaml.Value)
      → Action × Loading
      → Result PolicyError (Action × Loading)
  policy_fields allow_rate_limit [] seen = ok seen
  policy_fields allow_rate_limit ((field, value) ∷ fields) seen =
      let rest = λ (s : Action × Loading). policy_fields allow_rate_limit fields s in
      do
        name ← field_name yaml field "top-level"
        seen' ← policy_field allow_rate_limit name value seen
        rest seen'

  unfoldable pub parse_version : yaml.Value → ℕ → Bool → Result PolicyError Engine
  unfolding policy_fields policy_field
  parse_version policy version allow_rate_limit = do
    fields ← mapping yaml policy "policy"
    (default_action, l) ← policy_fields allow_rate_limit fields (allow, nothing_loaded)
    ok (with_version l.rules default_action version l.rate_limits)

  -- The `match` on the declared version: the entry point reads one version only.
  unfoldable pub parse_as : ℕ → Bool → ℤ → yaml.Value → Result PolicyError Engine
  unfolding parse_version
  parse_as version allow_rate_limit (pos v) policy =
      if v == version
      then parse_version policy version allow_rate_limit
      else err (unsupported_version (some (yaml.i64_text (pos v))))
  parse_as version allow_rate_limit (negsuc v) policy =
      err (unsupported_version (some (yaml.i64_text (negsuc v))))

  unfoldable pub parse_declared : ℕ → Bool → String → Result PolicyError Engine
  unfolding declared_version parse_as
  parse_declared version allow_rate_limit yaml_str = do
    policy ← map_err invalid_yaml (yaml.from_str yaml_str)
    declared ← declared_version policy
    parse_as version allow_rate_limit declared policy

  unfoldable pub parse : String → Result PolicyError Engine
  unfolding parse_declared
  parse yaml_str = parse_declared 1 false yaml_str

  unfoldable pub parse_rate_limited : String → Result PolicyError Engine
  unfolding parse_declared
  parse_rate_limited yaml_str = parse_declared 2 true yaml_str
