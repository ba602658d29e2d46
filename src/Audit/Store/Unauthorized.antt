-- ===== src/Audit/Store/Unauthorized.antt =====
-- Why the store gives no authorization.
use hp_guardian.Prelude.{
  ℕ, String, Option, none, some, ◌≡◌, refl, sym, subst, ◌∙◌, Result, ok, err, inl, inr,
  Option-cases,
}
use hp_guardian.Models.{PolicyCall, Instant}
use hp_guardian.Engine.{resolve_call_at}
use hp_guardian.Audit.Disk.{AuditError, no_active_policy}
use hp_guardian.Audit.Records.{PolicySnapshot, AuthorizationMetadata, authorization_record}
use hp_guardian.Audit.Store.{
  AuditSink, AuditedPolicyStore, appended, authorize_under, authorize_with_metadata,
}
use hp_guardian.Audit.Store.Boundary.{Identified, correlation-Identified}

module _ (sink : AuditSink) where
  -- Why there is no authorization: no policy is active, or the log has not accepted the record of the
  -- active policy's decision on the call.
  pub data Unauthorized (resolved_at recorded_at : Instant) (next : String) (call : PolicyCall)
      (metadata : Option AuthorizationMetadata) (before : AuditedPolicyStore sink)
      : AuditError → AuditedPolicyStore sink → Type 0 where
    inactive :
        before.active_snapshot ≡ none
        → Unauthorized resolved_at recorded_at next call metadata before no_active_policy before
    not_accepted :
        {snapshot : PolicySnapshot} {x : AuditError} {log : sink.Log} {correlation_id : String}
        {caller_id : Option String} {deadline_unix_ms : Option ℕ}
        → Identified next metadata correlation_id caller_id deadline_unix_ms
        → before.active_snapshot ≡ some snapshot
        → sink.append
            (authorization_record snapshot correlation_id caller_id deadline_unix_ms call
              (resolve_call_at snapshot.engine call resolved_at)
              recorded_at)
            before.audit_log
          ≡ (err x, log)
        → Unauthorized resolved_at recorded_at next call metadata before x
            (record { audit_log = log; active_snapshot = before.active_snapshot })

  appended-failed :
      {A : Type 0} (store : AuditedPolicyStore sink) (after : Option PolicySnapshot) (answer : A)
      (r : Result AuditError (Unit {0}) × sink.Log) {x : AuditError}
      {store' : AuditedPolicyStore sink}
      → appended sink store after answer r ≡ (err x, store')
      → (log : sink.Log) × (r ≡ (err x, log))
        × (record { audit_log = log; active_snapshot = store.active_snapshot } ≡ store')
  appended-failed store after answer (ok u, log) e = cc e
  appended-failed store after answer (err x, log) e = (log, cc e, cc e)

  authorize_under-Unauthorized :
      (resolved_at recorded_at : Instant) (next : String) (call : PolicyCall)
      (metadata : Option AuthorizationMetadata) (snapshot : PolicySnapshot)
      (store store' : AuditedPolicyStore sink) (x : AuditError)
      → store.active_snapshot ≡ some snapshot
      → authorize_under sink resolved_at recorded_at next call metadata snapshot store
        ≡ (err x, store')
      → Unauthorized resolved_at recorded_at next call metadata store x store'
  authorize_under-Unauthorized resolved_at recorded_at next call metadata snapshot store store' x
        active e =
      let (log, refused, same) = appended-failed store store.active_snapshot _ _ e in
      subst (Unauthorized resolved_at recorded_at next call metadata store x) same
        (not_accepted (correlation-Identified sink next metadata) active refused)

  -- An authorization fails for want of an active policy, or since its record is not accepted.
  pub authorize_with_metadata-Unauthorized :
      (resolved_at recorded_at : Instant) (next : String) (call : PolicyCall)
      (metadata : Option AuthorizationMetadata) (store store' : AuditedPolicyStore sink)
      (x : AuditError)
      → authorize_with_metadata sink resolved_at recorded_at next call metadata store
        ≡ (err x, store')
      → Unauthorized resolved_at recorded_at next call metadata store x store'
  unfolding authorize_with_metadata
  authorize_with_metadata-Unauthorized resolved_at recorded_at next call metadata store store' x e =
      elim (Option-cases store.active_snapshot) [
        | inl absent ↦
            let e' = rw (absent, authorize_with_metadata) at e in
            let error : no_active_policy ≡ x = cc e' in
            let same : store ≡ store' = cc e' in
            subst (λ y. Unauthorized resolved_at recorded_at next call metadata store y store')
              error
              (subst
                (Unauthorized resolved_at recorded_at next call metadata store no_active_policy)
                same (inactive absent))
        | inr (snapshot, active) ↦
            authorize_under-Unauthorized resolved_at recorded_at next call metadata snapshot store
              store' x active (sym (rw active refl) ∙ e)
      ]
