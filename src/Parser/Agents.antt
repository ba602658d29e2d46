-- ===== src/Parser/Agents.antt =====
-- The rules under `agents`: each keeps to the agent and the tool under which it is declared.
use hp_guardian.Prelude.{String, Bool, some, List, ◌≡◌, string_eq, ok}
use mathlib.Core.List.{Memᴰ}
use hp_guardian.Prelude.Map.{get}
use hp_guardian.Models.{Rule}
use hp_guardian.Parser.{Yaml, mapping, field_name}
use hp_guardian.Parser.Conditions.{Formats}

module _ (yaml : Yaml) (formats : Formats) (allowed : Bool) where
  abbrev Entries : Type 0
  Entries = List (yaml.Value × yaml.Value)

  -- The target has the agent, and the tool that is the key of one of the entries.
  pub record UnderTool (agent_name : String) (tools : Entries) (r : Rule) : Type 0 where
    pub tool : yaml.Value
    pub tool_value : yaml.Value
    pub is_tool : Memᴰ (tool, tool_value) tools
    pub tool_name : String
    pub named : field_name yaml tool "tool" ≡ ok tool_name
    pub agent_said : get r.target "agent" ≡ some agent_name
    pub tool_said : get r.target "tool" ≡ some tool_name

  -- The same for the agent that is the key of one of the entries, and a key of its `tools`.
  pub record UnderAgent (agents : Entries) (r : Rule) : Type 0 where
    pub agent : yaml.Value
    pub agent_value : yaml.Value
    pub is_agent : Memᴰ (agent, agent_value) agents
    pub agent_name : String
    pub named : field_name yaml agent "agent" ≡ ok agent_name
    pub fields : Entries
    pub has_fields : mapping yaml agent_value "agent configuration" ≡ ok fields
    pub tools_field : yaml.Value
    pub tools_value : yaml.Value
    pub has_tools : Memᴰ (tools_field, tools_value) fields
    pub is_tools_field : field_name yaml tools_field "agent configuration" ≡ ok "tools"
    pub tools : Entries
    pub has_entries : mapping yaml tools_value "tools" ≡ ok tools
    pub under_tool : UnderTool agent_name tools r
