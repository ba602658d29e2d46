-- ===== src/Audit/Store/Boundary.antt =====
-- The audit boundary: what was recorded where the store answers.
use hp_guardian.Prelude.{
  ℕ, ◌≤◌, ◌<◌, List, String, true, Option, none, some, ◌≡◌, refl, sym, subst, ◌∙◌, arith, Result,
  ok, err, inl, inr, ◌↔◌, Option-cases, Result-cases, Bool-cases,
}
use hp_guardian.Models.{PolicyCall, Instant}
use hp_guardian.Engine.{resolve_call_at}
use hp_guardian.Parser.{Yaml}
use hp_guardian.Parser.Conditions.{Formats}
use hp_guardian.Audit.Disk.{AuditError, outcome_detail_too_long}
use hp_guardian.Audit.Records.{
  PolicySnapshot, parse_snapshot, OutcomeStatus, Authorization, AuthorizationMetadata,
  activation_record, authorization_record, outcome_record,
}
use hp_guardian.Audit.Store.{
  AuditSink, AuditedPolicyStore, Answered, appended, reload, map_some, correlation, authorize_under,
  authorize_with_metadata, is_too_long, detail_bytes, record_outcome,
}

-- The correlation id, the caller and the deadline of an authorization: those of the request, or the
-- next id and neither of the others where there is no request.
pub data Identified (next : String)
    : Option AuthorizationMetadata → String → Option String → Option ℕ → Type 0 where
  next_id : Identified next none next none none
  of_request :
      {m : AuthorizationMetadata}
      → Identified next (some m) m.correlation_id (some m.caller_id) (some m.deadline_unix_ms)

module _ (sink : AuditSink) where
  pub correlation-Identified :
      (next : String) (metadata : Option AuthorizationMetadata)
      → Identified next metadata
          (correlation sink next metadata)
          (map_some (λ m. m.caller_id) metadata)
          (map_some (λ m. m.deadline_unix_ms) metadata)
  correlation-Identified next none = next_id
  correlation-Identified next (some m) = of_request

  -- An answer that was given behind an append.
  appended-ok :
      {A : Type 0} (store : AuditedPolicyStore sink) (after : Option PolicySnapshot) (answer : A)
      (r : Result AuditError (Unit {0}) × sink.Log) {a : A} {store' : AuditedPolicyStore sink}
      → appended sink store after answer r ≡ (ok a, store')
      → (r ≡ (ok tt, store'.audit_log)) × (answer ≡ a) × (store'.active_snapshot ≡ after)
  appended-ok store after answer (ok u, log) e = (cc e, cc e, cc e)
  appended-ok store after answer (err x, log) e = cc e

  -- What an authorization rests on: the decision of the active policy, recorded with the same texts.
  pub record Recorded (resolved_at recorded_at : Instant) (next : String) (call : PolicyCall)
      (metadata : Option AuthorizationMetadata) (a : Authorization)
      (before after : AuditedPolicyStore sink) : Type 0 where
    pub is_active : before.active_snapshot ≡ some a.snapshot
    pub still_active : after.active_snapshot ≡ some a.snapshot
    pub decides : a.decision ≡ resolve_call_at a.snapshot.engine call resolved_at
    pub same_agent : a.agent ≡ call.agent
    pub same_tool : a.tool ≡ call.tool
    pub same_user : a.user ≡ call.user
    pub identified : Identified next metadata a.correlation_id a.caller_id a.deadline_unix_ms
    pub is_recorded :
        sink.append
          (authorization_record a.snapshot a.correlation_id a.caller_id a.deadline_unix_ms call
            a.decision recorded_at)
          before.audit_log
        ≡ (ok tt, after.audit_log)

  authorize_under-Recorded :
      (resolved_at recorded_at : Instant) (next : String) (call : PolicyCall)
      (metadata : Option AuthorizationMetadata) (snapshot : PolicySnapshot)
      (store store' : AuditedPolicyStore sink) (a : Authorization)
      → store.active_snapshot ≡ some snapshot
      → authorize_under sink resolved_at recorded_at next call metadata snapshot store
        ≡ (ok a, store')
      → Recorded resolved_at recorded_at next call metadata a store store'
  authorize_under-Recorded resolved_at recorded_at next call metadata snapshot store store' a active
        e =
      let (wrote, same, kept) = appended-ok store store.active_snapshot _ _ e in
      subst (λ x. Recorded resolved_at recorded_at next call metadata x store store') same
        (record {
          is_active = active;
          still_active = kept ∙ active;
          decides = refl;
          same_agent = refl;
          same_tool = refl;
          same_user = refl;
          identified = correlation-Identified next metadata;
          is_recorded = wrote;
        })

  -- An authorization that is returned holds the decision of the active policy on the call, at the
  -- instant of the resolution, with the agent, the tool and the user of the call, and with the
  -- correlation id, the caller and the deadline of the request, or with the next id that is made and
  -- neither of the others where there is no request; and the log has accepted the record with this
  -- decision and these texts. The active policy stays.
  pub authorize_with_metadata-Recorded :
      (resolved_at recorded_at : Instant) (next : String) (call : PolicyCall)
      (metadata : Option AuthorizationMetadata) (store store' : AuditedPolicyStore sink)
      (a : Authorization)
      → authorize_with_metadata sink resolved_at recorded_at next call metadata store
        ≡ (ok a, store')
      → Recorded resolved_at recorded_at next call metadata a store store'
  unfolding authorize_with_metadata
  authorize_with_metadata-Recorded resolved_at recorded_at next call metadata store store' a e =
      elim (Option-cases store.active_snapshot) [
        | inl absent ↦ cc (e, absent)
        | inr (snapshot, active) ↦
            authorize_under-Recorded resolved_at recorded_at next call metadata snapshot store
              store' a active (sym (rw active refl) ∙ e)
      ]

  -- What a call of `reload` has done.
  pub data Reloaded (yaml : Yaml) (formats : Formats) (sha256 : String → List ℕ) (now : Instant)
      (policy_text : String) (before : AuditedPolicyStore sink)
      : Answered sink (Unit {0}) → Type 0 where
    refused :
        {x : AuditError}
        → parse_snapshot yaml formats sha256 policy_text ≡ err x
        → Reloaded yaml formats sha256 now policy_text before (err x, before)
    unrecorded :
        {candidate : PolicySnapshot} {x : AuditError} {log : sink.Log}
        → parse_snapshot yaml formats sha256 policy_text ≡ ok candidate
        → sink.append (activation_record candidate now) before.audit_log ≡ (err x, log)
        → Reloaded yaml formats sha256 now policy_text before
            (err x, record { audit_log = log; active_snapshot = before.active_snapshot })
    activated :
        {candidate : PolicySnapshot} {log : sink.Log}
        → parse_snapshot yaml formats sha256 policy_text ≡ ok candidate
        → sink.append (activation_record candidate now) before.audit_log ≡ (ok tt, log)
        → Reloaded yaml formats sha256 now policy_text before
            (ok tt, record { audit_log = log; active_snapshot = some candidate })

  appended-Reloaded :
      (yaml : Yaml) (formats : Formats) (sha256 : String → List ℕ) (now : Instant)
      (policy_text : String) (store : AuditedPolicyStore sink) (candidate : PolicySnapshot)
      (r : Result AuditError (Unit {0}) × sink.Log)
      → parse_snapshot yaml formats sha256 policy_text ≡ ok candidate
      → sink.append (activation_record candidate now) store.audit_log ≡ r
      → Reloaded yaml formats sha256 now policy_text store
          (appended sink store (some candidate) tt r)
  appended-Reloaded yaml formats sha256 now policy_text store candidate (ok u, log) parsed wrote =
      activated parsed wrote
  appended-Reloaded yaml formats sha256 now policy_text store candidate (err x, log) parsed wrote =
      unrecorded parsed wrote

  -- A reload either refuses the text and leaves the store as it was, or fails to record the activation
  -- and leaves the active policy as it was, or has the activation recorded and the new policy active.
  pub reload-Reloaded :
      (yaml : Yaml) (formats : Formats) (sha256 : String → List ℕ) (now : Instant)
      (policy_text : String) (store : AuditedPolicyStore sink)
      → Reloaded yaml formats sha256 now policy_text store
          (reload sink yaml formats sha256 now policy_text store)
  unfolding reload
  reload-Reloaded yaml formats sha256 now policy_text store =
      elim (Result-cases (parse_snapshot yaml formats sha256 policy_text)) [
        | inl (candidate, parsed) ↦
            rw (reload, parsed)
              (appended-Reloaded yaml formats sha256 now policy_text store candidate _ parsed refl)
        | inr (x, broken) ↦ rw (reload, broken) (refused broken)
      ]

  -- What a call of `record_outcome` has done.
  pub data Reported (now : Instant) (authorization : Authorization) (status : OutcomeStatus)
      (detail : Option String) (before : AuditedPolicyStore sink)
      : Answered sink (Unit {0}) → Type 0 where
    too_long :
        1024 < detail_bytes sink detail
        → Reported now authorization status detail before
            (err (outcome_detail_too_long 1024 (detail_bytes sink detail)), before)
    not_written :
        {x : AuditError} {log : sink.Log}
        → detail_bytes sink detail ≤ 1024
        → sink.append (outcome_record authorization status detail now) before.audit_log
          ≡ (err x, log)
        → Reported now authorization status detail before
            (err x, record { audit_log = log; active_snapshot = before.active_snapshot })
    written :
        {log : sink.Log}
        → detail_bytes sink detail ≤ 1024
        → sink.append (outcome_record authorization status detail now) before.audit_log
          ≡ (ok tt, log)
        → Reported now authorization status detail before
            (ok tt, record { audit_log = log; active_snapshot = before.active_snapshot })

  appended-Reported :
      (now : Instant) (authorization : Authorization) (status : OutcomeStatus)
      (detail : Option String) (store : AuditedPolicyStore sink)
      (r : Result AuditError (Unit {0}) × sink.Log)
      → detail_bytes sink detail ≤ 1024
      → sink.append (outcome_record authorization status detail now) store.audit_log ≡ r
      → Reported now authorization status detail store
          (appended sink store store.active_snapshot tt r)
  appended-Reported now authorization status detail store (ok u, log) short wrote =
      written short wrote
  appended-Reported now authorization status detail store (err x, log) short wrote =
      not_written short wrote

  is_too_long_iff :
      (detail : Option String)
      → (is_too_long sink detail ≡ true) ↔ (1024 < detail_bytes sink detail)
  is_too_long_iff none = ground arith
  is_too_long_iff (some detail) = ground arith

  -- A report of an outcome is refused, with both sizes and the store as it was, where its detail has
  -- more than 1024 bytes. Else its answer is that of the append of the record of the authorization
  -- with the status and the detail, and the active policy stays.
  pub record_outcome-Reported :
      (now : Instant) (authorization : Authorization) (status : OutcomeStatus)
      (detail : Option String) (store : AuditedPolicyStore sink)
      → Reported now authorization status detail store
          (record_outcome sink now authorization status detail store)
  unfolding record_outcome
  record_outcome-Reported now authorization status detail store =
      elim (Bool-cases (is_too_long sink detail)) [
        | inl long ↦ rw (record_outcome, long) (too_long ((is_too_long_iff detail).0 long))
        | inr short ↦
            let bound : detail_bytes sink detail ≤ 1024 = grind (arith, is_too_long_iff detail) in
            rw (record_outcome, short)
              (appended-Reported now authorization status detail store _ bound refl)
      ]
