-- ===== src/Audit/Store/OnDisk.antt =====
-- The store over the audit log of a host: what stands in the file where a decision is returned.
use hp_guardian.Prelude.{ℕ, String, false, Option, some, List, [], ◌∷◌, ◌++◌, ◌≡◌, ap, Result, ok}
use hp_guardian.Prelude.Map.{get}
use hp_guardian.Models.{PolicyCall, Instant}
use hp_guardian.Engine.{resolve_call_at}
use hp_guardian.Audit.Disk.{AuditError, live, regular, path_eq, World}
use hp_guardian.Audit.Records.{
  AuditRecord, Authorization, AuthorizationMetadata, authorization_record,
}
use hp_guardian.Audit.Tails.{Json}
use hp_guardian.Audit.Log.{AuditLog, Flock, close, append}
use hp_guardian.Audit.Log.Appended.{append-ok}
use hp_guardian.Audit.Store.{AuditSink, AuditedPolicyStore, authorize_with_metadata}
use hp_guardian.Audit.Store.Boundary.{Identified, authorize_with_metadata-Recorded}

module _ (json : Json) (now : ℕ) (flock : Flock) (transaction : String) where
  -- The log with its disk.
  abbrev pub append_on_disk :
      AuditRecord → AuditLog × World → Result AuditError (Unit {0}) × (AuditLog × World)
  append_on_disk r (log, w) =
      let (answer, log', w') = append json now flock transaction log r w in (answer, (log', w'))

  abbrev pub disk_log : AuditSink
  disk_log = record {
    Log = AuditLog × World;
    append = append_on_disk;
    close = λ (log, w). (close log, w);
  }

  -- Where an authorization is returned, the audit file ends with the line of its record: the
  -- encoded record of the active policy's decision on the call, and a newline. Its snapshot is the
  -- policy that was active and still is; its correlation id, caller and deadline are those of the
  -- request, or the next id and neither of the others where there is no request. The log was open, and is not closed.
  pub authorize-on_disk :
      (resolved_at recorded_at : Instant) (next : String) (call : PolicyCall)
      (metadata : Option AuthorizationMetadata) (store store' : AuditedPolicyStore disk_log)
      (a : Authorization)
      → authorize_with_metadata disk_log resolved_at recorded_at next call metadata store
        ≡ (ok a, store')
      → (encoded : List ℕ) × (prior : List ℕ) × (json.encode (
            authorization_record a.snapshot a.correlation_id a.caller_id a.deadline_unix_ms call
              a.decision recorded_at)
          ≡ some encoded)
        × (get store'.audit_log.1.disk (live 0)
            ≡ some (regular (prior ++ (encoded ++ (10 ∷ []))) now))
        × (a.decision ≡ resolve_call_at a.snapshot.engine call resolved_at)
        × (store.active_snapshot ≡ some a.snapshot)
        × (store'.active_snapshot ≡ some a.snapshot)
        × Identified next metadata a.correlation_id a.caller_id a.deadline_unix_ms
        × (store.audit_log.0.closed ≡ false)
        × (store'.audit_log.0.closed ≡ false)
  authorize-on_disk resolved_at recorded_at next call metadata store store' a e =
      let r =
        authorize_with_metadata-Recorded disk_log resolved_at recorded_at next call metadata store
          store' a e in
      let wrote : append json now flock transaction store.audit_log.0
            (authorization_record a.snapshot a.correlation_id a.caller_id a.deadline_unix_ms call
              a.decision recorded_at)
            store.audit_log.1
          ≡ (ok tt, store'.audit_log.0, store'.audit_log.1) =
        ap (λ c. (c.0, c.1.0, c.1.1)) r.is_recorded in
      let (opened, same, (encoded, encodes, (prior, there))) =
        append-ok json now flock transaction store.audit_log.0 store'.audit_log.0 _
          store.audit_log.1 store'.audit_log.1 wrote in
      (
        encoded,
        prior,
        encodes,
        there,
        r.decides,
        r.is_active,
        r.still_active,
        r.identified,
        opened,
        ap (λ l. l.closed) same,
      )
