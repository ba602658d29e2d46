-- ===== src/Audit/Records.antt =====
-- src/audit.rs: policy snapshots, the records of the audit log, and authorizations.
use hp_guardian.Prelude.{
  ℕ, get_elem?, ◌/◌, ◌%◌, String, ◌⧺◌, Option, none, some, List, [], ◌∷◌, Result, ok, map_err,
  ◌>>=◌,
}
use hp_guardian.Models.{Action, PolicyCall, Decision, Instant}
use hp_guardian.Engine.{Engine}
use hp_guardian.Parser.{Yaml}
use hp_guardian.Parser.Conditions.{Formats}
use hp_guardian.Parser.Policy.{parse}
use hp_guardian.Audit.Disk.{AuditError, policy}

pub record PolicySnapshot : Type 0 where
  pub version : ℕ
  pub digest : String
  pub engine : Engine

abbrev pub hex_digits : List String
hex_digits =
    "0" ∷ "1" ∷ "2" ∷ "3" ∷ "4" ∷ "5" ∷ "6" ∷ "7" ∷ "8" ∷ "9" ∷ "a" ∷ "b" ∷ "c" ∷ "d" ∷ "e" ∷ "f"
    ∷ []

-- A digit of `{:02x}`.
abbrev pub hex_digit : ℕ → String
hex_digit n = elim (get_elem? hex_digits n) [ none ↦ "" | some digit ↦ digit ]

-- `to_hex` of src/util.rs.
unfoldable pub to_hex : List ℕ → String
to_hex [] = ""
to_hex (byte ∷ bytes) = hex_digit (byte / 16) ⧺ hex_digit (byte % 16) ⧺ to_hex bytes

-- `PolicySnapshot::parse`; `sha256` gives the bytes of the digest of a text.
unfoldable pub parse_snapshot :
    Yaml → Formats → (String → List ℕ) → String → Result AuditError PolicySnapshot
parse_snapshot yaml formats sha256 policy_text = do
  engine ← map_err policy (parse yaml formats policy_text)
  ok (record { version = 1; digest = to_hex (sha256 policy_text); engine = engine })

pub data OutcomeStatus : Type 0 where
  succeeded failed timed_out : OutcomeStatus

pub data AuditEvent : Type 0 where
  activation authorization outcome : AuditEvent

pub record AuditRecord : Type 0 where
  pub timestamp : Instant
  pub event : AuditEvent
  pub correlation_id : Option String
  pub caller_id : Option String
  pub deadline_unix_ms : Option ℕ
  pub policy_version : ℕ
  pub policy_digest : String
  pub agent : Option String
  pub tool : Option String
  pub user : Option String
  pub decision : Option Action
  pub matched_rules : List ℕ
  pub outcome_status : Option OutcomeStatus
  pub outcome_detail : Option (Option String)

pub record Authorization : Type 0 where
  pub correlation_id : String
  pub snapshot : PolicySnapshot
  pub decision : Decision
  pub agent : Option String
  pub tool : Option String
  pub user : Option String
  pub caller_id : Option String
  pub deadline_unix_ms : Option ℕ

pub record AuthorizationMetadata : Type 0 where
  pub correlation_id : String
  pub caller_id : String
  pub deadline_unix_ms : ℕ

abbrev pub activation_record : PolicySnapshot → Instant → AuditRecord
activation_record snapshot timestamp = record {
  timestamp = timestamp;
  event = activation;
  correlation_id = none;
  caller_id = none;
  deadline_unix_ms = none;
  policy_version = snapshot.version;
  policy_digest = snapshot.digest;
  agent = none;
  tool = none;
  user = none;
  decision = none;
  matched_rules = [];
  outcome_status = none;
  outcome_detail = none;
}

abbrev pub authorization_record :
    PolicySnapshot
    → String
    → Option String
    → Option ℕ
    → PolicyCall
    → Decision
    → Instant
    → AuditRecord
authorization_record snapshot correlation_id caller_id deadline_unix_ms call decision timestamp =
    record {
      timestamp = timestamp;
      event = authorization;
      correlation_id = some correlation_id;
      caller_id = caller_id;
      deadline_unix_ms = deadline_unix_ms;
      policy_version = snapshot.version;
      policy_digest = snapshot.digest;
      agent = call.agent;
      tool = call.tool;
      user = call.user;
      decision = some decision.action;
      matched_rules = decision.matched_rules;
      outcome_status = none;
      outcome_detail = none;
    }

abbrev pub outcome_record : Authorization → OutcomeStatus → Option String → Instant → AuditRecord
outcome_record a status detail timestamp = record {
  timestamp = timestamp;
  event = outcome;
  correlation_id = some a.correlation_id;
  caller_id = a.caller_id;
  deadline_unix_ms = a.deadline_unix_ms;
  policy_version = a.snapshot.version;
  policy_digest = a.snapshot.digest;
  agent = a.agent;
  tool = a.tool;
  user = a.user;
  decision = some a.decision.action;
  matched_rules = a.decision.matched_rules;
  outcome_status = some status;
  outcome_detail = some detail;
}
