-- ===== src/Models.antt =====
-- src/models.rs: actions, rules, conditions, calls, decisions, and the errors of policy loading.
-- An instant (`DateTime<Utc>`) is its distance from the earliest representable instant.
use hp_guardian.Prelude.{
  ℕ, String, Bool, true, false, ◌≡◌, ◌↔◌, Option, none, some, ◌⧺◌, List, [], arith, Eq,
}
use hp_guardian.Prelude.Map.{Map}

pub data Action : Type 0 where
  allow deny throttle log require_approval redirect : Action

unfoldable pub as_str : Action → String
as_str allow = "allow"
as_str deny = "deny"
as_str throttle = "throttle"
as_str log = "log"
as_str require_approval = "require_approval"
as_str redirect = "redirect"

-- The derived `PartialEq`.
abbrev pub beq_action : Action → Action → Bool
beq_action allow allow = true
beq_action deny deny = true
beq_action throttle throttle = true
beq_action log log = true
beq_action require_approval require_approval = true
beq_action redirect redirect = true
beq_action _ _ = false

pub beq_action_iff : (a b : Action) → (beq_action a b ≡ true) ↔ (a ≡ b)
beq_action_iff a b = ground arith

instance abbrev pub action_eq : Eq Action
action_eq = record { beq = beq_action; beq_iff = beq_action_iff }

-- `invalid_yaml` holds the text of the YAML library's error.
pub data PolicyError : Type 0 where
  invalid_yaml : String → PolicyError
  unsupported_version : Option String → PolicyError
  invalid_action : String → PolicyError
  invalid_condition : String → PolicyError
  invalid_target : String → PolicyError
  invalid_field : String → PolicyError
  conflicting_target : String → PolicyError
  invalid_regex : String → String → PolicyError

pub code : PolicyError → String
code (invalid_yaml _) = "invalid_yaml"
code (invalid_action _) = "invalid_action"
code (invalid_condition _) = "invalid_condition"
code (invalid_target _) = "invalid_target"
code (invalid_field _) = "invalid_field"
code (conflicting_target _) = "conflicting_target"
code (invalid_regex _ _) = "invalid_regex"
code (unsupported_version _) = "unsupported_version"

-- `Display`; `debug` is the text of `{:?}`.
unfoldable pub display : (String → String) → PolicyError → String
display debug (invalid_yaml error) = "invalid YAML policy: " ⧺ error
display debug (unsupported_version (some version)) = "unsupported policy version: " ⧺ version
display debug (unsupported_version none) = "policy version is required"
display debug (invalid_action action) = "unsupported policy action: " ⧺ action
display debug (invalid_condition condition) = "unsupported policy condition: " ⧺ condition
display debug (invalid_target target) = "unsupported policy target: " ⧺ target
display debug (invalid_field field) = "invalid policy field: " ⧺ field
display debug (conflicting_target target) =
    "nested target conflicts with enclosing " ⧺ target ⧺ " scope"
display debug (invalid_regex pattern reason) =
    "invalid v1 args_match pattern " ⧺ debug pattern ⧺ ": " ⧺ reason

abbrev pub Instant : Type 0
Instant = ℕ

pub record TimeWindow : Type 0 where
  pub start : Instant
  pub end : Instant

-- `args_match`, `path_pattern` and `time_window` are the three leaves. A vector of conditions is
-- the second type of the block.
mutual
  pub data Condition : Type 0 where
    leaves : Option String → Option String → Option TimeWindow → Condition
    all : Conditions → Condition
    any : Conditions → Condition
    not : Condition → Condition

  pub data Conditions : Type 0 where
    nil : Conditions
    cons : Condition → Conditions → Conditions

abbrev pub default_condition : Condition
default_condition = leaves none none none

pub record Rule : Type 0 where
  pub action : Action
  pub target : Map String String
  pub condition : Condition
  pub rule_index : ℕ

pub record RateLimit : Type 0 where
  pub max_calls : ℕ
  pub window_seconds : ℕ

pub record PolicyCall : Type 0 where
  pub agent : Option String
  pub tool : Option String
  pub args : List String
  pub user : Option String
  pub context : Map String String

abbrev pub default_call : PolicyCall
default_call = record { agent = none; tool = none; args = []; user = none; context = [] }

pub record Decision : Type 0 where
  pub action : Action
  pub matched_rules : List ℕ

pub record AuditEntry : Type 0 where
  pub timestamp : Instant
  pub agent : Option String
  pub tool : Option String
  pub args : List String
  pub decision : Action
  pub matched_rules : List ℕ

-- `AuditLogger::log` of src/logging.rs, at the instant that the clock reads.
pub log_entry : Instant → PolicyCall → Decision → AuditEntry
log_entry now call d = record {
  timestamp = now;
  agent = call.agent;
  tool = call.tool;
  args = call.args;
  decision = d.action;
  matched_rules = d.matched_rules;
}
