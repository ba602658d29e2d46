-- ===== src/Audit/Store.antt =====
-- src/audit.rs: the store of the active policy, behind its audit boundary.
pub mod Boundary
pub mod Unauthorized
pub mod OnDisk
use hp_guardian.Prelude.{
  ℕ, ◌≤◌, String, Bool, true, false, Option, none, some, List, [], ◌∷◌, ltb, if◌then◌else◌, ◌≡◌,
  Result, ok, err,
}
use Prim.Native.String.{len}
use hp_guardian.Models.{PolicyCall, Decision, Instant}
use hp_guardian.Engine.{resolve_call_at}
use hp_guardian.Parser.{Yaml}
use hp_guardian.Parser.Conditions.{Formats}
use hp_guardian.Audit.Disk.{AuditError, no_active_policy, outcome_detail_too_long}
use hp_guardian.Audit.Records.{
  PolicySnapshot, parse_snapshot, OutcomeStatus, AuditRecord, Authorization, AuthorizationMetadata,
  activation_record, authorization_record, outcome_record,
}

-- What the store uses of an audit log: the append of a record and the close.
pub record AuditSink : Type 1 where
  pub Log : Type 0
  pub append : AuditRecord → Log → Result AuditError (Unit {0}) × Log
  pub close : Log → Log

-- `map` on an option.
abbrev pub map_some : {A B : Type 0} → (A → B) → Option A → Option B
map_some f none = none
map_some f (some a) = some (f a)

abbrev pub max_outcome_detail_bytes : ℕ
max_outcome_detail_bytes = 1024

module _ (sink : AuditSink) where
  pub record AuditedPolicyStore : Type 0 where
    pub audit_log : sink.Log
    pub active_snapshot : Option PolicySnapshot

  abbrev pub Answered : Type 0 → Type 0
  Answered A = Result AuditError A × AuditedPolicyStore

  abbrev pub new : sink.Log → AuditedPolicyStore
  new audit_log = record { audit_log = audit_log; active_snapshot = none }

  abbrev pub close_store : AuditedPolicyStore → AuditedPolicyStore
  close_store store = record store { audit_log = sink.close store.audit_log }

  -- The answer of a call that only appends, or appends and then changes the snapshot.
  abbrev pub appended :
      {A : Type 0}
      → AuditedPolicyStore
      → Option PolicySnapshot
      → A
      → Result AuditError (Unit {0}) × sink.Log
      → Answered A
  appended store after answer (ok u, log) =
      (ok answer, record { audit_log = log; active_snapshot = after })
  appended store after answer (err e, log) = (err e, record store { audit_log = log })

  module _ (yaml : Yaml) (formats : Formats) (sha256 : String → List ℕ) where
    unfoldable pub reload : Instant → String → AuditedPolicyStore → Answered (Unit {0})
    reload now policy_text store = elim (parse_snapshot yaml formats sha256 policy_text) [
      | err e ↦ (err e, store)
      | ok candidate ↦
          appended store (some candidate) tt
            (sink.append (activation_record candidate now) store.audit_log)
    ]

    -- A store that could not load its policy is dropped.
    unfoldable pub with_policy :
        Instant → String → sink.Log → Result AuditError AuditedPolicyStore × sink.Log
    unfolding reload
    with_policy now policy_text audit_log =
        let (answer, store) = reload now policy_text (new audit_log) in
        elim answer [ ok u ↦ (ok store, store.audit_log) | err e ↦ (err e, store.audit_log) ]

  -- The text that `next_correlation_id` makes of the clock, the process and its counter is a parameter.
  abbrev pub correlation : String → Option AuthorizationMetadata → String
  correlation next none = next
  correlation next (some metadata) = metadata.correlation_id

  abbrev pub authorize_under :
      Instant
      → Instant
      → String
      → PolicyCall
      → Option AuthorizationMetadata
      → PolicySnapshot
      → AuditedPolicyStore
      → Answered Authorization
  authorize_under resolved_at recorded_at next call metadata snapshot store =
      let decision = resolve_call_at snapshot.engine call resolved_at in
      let correlation_id = correlation next metadata in
      let caller_id = map_some (λ m. m.caller_id) metadata in
      let deadline_unix_ms = map_some (λ m. m.deadline_unix_ms) metadata in
      appended store store.active_snapshot
        (record {
          correlation_id = correlation_id;
          snapshot = snapshot;
          decision = decision;
          agent = call.agent;
          tool = call.tool;
          user = call.user;
          caller_id = caller_id;
          deadline_unix_ms = deadline_unix_ms;
        })
        (sink.append
          (authorization_record snapshot correlation_id caller_id deadline_unix_ms call decision
            recorded_at)
          store.audit_log)

  -- The clock is read by `resolve_call`, and again for the record.
  unfoldable pub authorize_with_metadata :
      Instant
      → Instant
      → String
      → PolicyCall
      → Option AuthorizationMetadata
      → AuditedPolicyStore
      → Answered Authorization
  authorize_with_metadata resolved_at recorded_at next call metadata store =
      elim store.active_snapshot [
        | none ↦ (err no_active_policy, store)
        | some snapshot ↦ authorize_under resolved_at recorded_at next call metadata snapshot store
      ]

  unfoldable pub authorize :
      Instant → Instant → String → PolicyCall → AuditedPolicyStore → Answered Authorization
  unfolding authorize_with_metadata
  authorize resolved_at recorded_at next call store =
      authorize_with_metadata resolved_at recorded_at next call none store

  abbrev pub is_too_long : Option String → Bool
  is_too_long none = false
  is_too_long (some detail) = ltb max_outcome_detail_bytes (len detail)

  abbrev pub detail_bytes : Option String → ℕ
  detail_bytes none = 0
  detail_bytes (some detail) = len detail

  unfoldable pub record_outcome :
      Instant
      → Authorization
      → OutcomeStatus
      → Option String
      → AuditedPolicyStore
      → Answered (Unit {0})
  record_outcome now authorization status detail store =
      if is_too_long detail
      then (err (outcome_detail_too_long max_outcome_detail_bytes (detail_bytes detail)), store)
      else appended store store.active_snapshot tt
          (sink.append (outcome_record authorization status detail now) store.audit_log)
