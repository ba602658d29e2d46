-- ===== src/Tests/Boundaries.antt =====
-- A store over a list of records, over a disk, and behind the adapter.
use hp_guardian.Prelude.{
  ℕ, String, false, Option, none, some, List, [], ◌∷◌, ◌++◌, ◌≡◌, refl, if◌then◌else◌, ◌==◌, nat_eq,
  string_eq, list_eq, ok,
}
use hp_guardian.Prelude.Map.{Map, get, insert, contains_key}
use hp_guardian.Models.{allow, default_call, Decision}
use hp_guardian.Engine.{with_version, resolve_call_at}
use hp_guardian.Parser.{pos}
use hp_guardian.Json.{JsonValues}
use hp_guardian.Audit.Disk.{live, lock, path_eq, regular, change, change_or}
use hp_guardian.Audit.Records.{
  PolicySnapshot, succeeded, AuditRecord, Authorization, authorization_record,
}
use hp_guardian.Audit.Tails.{tail_of}
use hp_guardian.Audit.Log.{
  granted, acquire_lease, recover_tail, recover_files, recover_tails, prune_expired_backups,
  rotate_before_append, append_line, write_line, append_record, take_lease, recover_once,
  ensure_ready, append,
}
use hp_guardian.Audit.Log.Appended.{ready}
use hp_guardian.Audit.Store.{AuditSink, AuditedPolicyStore, authorize_with_metadata, record_outcome}
use hp_guardian.Audit.Store.Boundary.{
  Identified, Recorded, authorize_with_metadata-Recorded, Reported, record_outcome-Reported,
}
use hp_guardian.Audit.Store.OnDisk.{disk_log, authorize-on_disk}
use hp_guardian.Adapter.{EnforcementRequest, authorize, from_value}
use hp_guardian.Adapter.Boundary.{Enforced, authorize-Enforced}
use hp_guardian.Adapter.Requests.{Reads, from_value-Reads}
use hp_guardian.Tests.Logs.{braces, small_json, new_log, torn_world}

abbrev pub list_log : AuditSink
list_log = record { Log = List AuditRecord; append = λ r log. (ok tt, r ∷ log); close = λ log. log }

abbrev pub snapshot : PolicySnapshot
snapshot = record { version = 1; digest = "d"; engine = with_version [] allow 1 [] }

abbrev pub list_store : AuditedPolicyStore list_log
list_store = record { audit_log = []; active_snapshot = some snapshot }

abbrev allowed : Decision
allowed = record { action = allow; matched_rules = [] }

abbrev granted_call : Authorization
granted_call = record {
  correlation_id = "auth-1";
  snapshot = snapshot;
  decision = allowed;
  agent = none;
  tool = none;
  user = none;
  caller_id = none;
  deadline_unix_ms = none;
}

abbrev recorded_store : AuditedPolicyStore list_log
recorded_store = record {
  audit_log = authorization_record snapshot "auth-1" none none default_call allowed 5 ∷ [];
  active_snapshot = some snapshot;
}

authorized :
    authorize_with_metadata list_log 3 5 "auth-1" default_call none list_store
    ≡ (ok granted_call, recorded_store)
unfolding authorize_with_metadata resolve_call_at
authorized = refl

authorize_with_metadata-Recorded_example :
    Recorded list_log 3 5 "auth-1" default_call none granted_call list_store recorded_store
authorize_with_metadata-Recorded_example =
    authorize_with_metadata-Recorded list_log 3 5 "auth-1" default_call none list_store
      recorded_store granted_call authorized

record_outcome-Reported_example :
    Reported list_log 6 granted_call succeeded
      (some "done")
      recorded_store
      (record_outcome list_log 6 granted_call succeeded (some "done") recorded_store)
record_outcome-Reported_example =
    record_outcome-Reported list_log 6 granted_call succeeded (some "done") recorded_store

abbrev small_sink : AuditSink
small_sink = disk_log small_json 5 granted "t"

abbrev before_call : AuditedPolicyStore small_sink
before_call = record { audit_log = (new_log, torn_world); active_snapshot = some snapshot }

abbrev after_call : AuditedPolicyStore small_sink
after_call = record {
  audit_log = (
    ready new_log,
    record {
      disk = (live 0, regular (123 ∷ 125 ∷ 10 ∷ 123 ∷ 125 ∷ 10 ∷ []) 5) ∷ (lock, regular [] 5) ∷ [];
      steps = 8;
      torn = 0;
    },
  );
  active_snapshot = some snapshot;
}

authorized_on_disk :
    authorize_with_metadata small_sink 3 5 "auth-1" default_call none before_call
    ≡ (ok granted_call, after_call)
unfolding authorize_with_metadata resolve_call_at append ensure_ready take_lease acquire_lease
    recover_once recover_tails recover_files recover_tail tail_of change get insert append_record
    prune_expired_backups rotate_before_append write_line append_line change_or
authorized_on_disk = refl

authorize-on_disk_example :
    (encoded : List ℕ) × (prior : List ℕ) × (some braces ≡ some encoded)
    × (get after_call.audit_log.1.disk (live 0)
        ≡ some (regular (prior ++ (encoded ++ (10 ∷ []))) 5))
    × (granted_call.decision ≡ resolve_call_at granted_call.snapshot.engine default_call 3)
    × (some snapshot ≡ some granted_call.snapshot)
    × (some snapshot ≡ some granted_call.snapshot)
    × Identified "auth-1" none granted_call.correlation_id none none
    × (new_log.closed ≡ false)
    × ((ready new_log).closed ≡ false)
authorize-on_disk_example =
    authorize-on_disk small_json 5 granted "t" 3 5 "auth-1" default_call none before_call after_call
      granted_call authorized_on_disk

abbrev small_request : EnforcementRequest
small_request = record {
  caller_id = "me";
  correlation_id = "id";
  deadline_unix_ms = 50;
  call = default_call;
}

authorize-Enforced_example :
    Enforced list_log 40 3 5 "auth-1" small_request list_store
      (authorize list_log 40 3 5 "auth-1" small_request list_store)
authorize-Enforced_example = authorize-Enforced list_log 40 3 5 "auth-1" small_request list_store

-- Values by their numbers: a request is 0, a call 4, and an event 8.
abbrev objects : ℕ → Option (Map String ℕ)
objects v =
    if v == 0
    then some
        (("caller_id", 1) ∷ ("correlation_id", 2) ∷ ("deadline_unix_ms", 3) ∷ ("call", 4) ∷ [])
    else if v == 4
    then some (("agent", 5) ∷ ("tool", 5) ∷ ("args", 6) ∷ ("user", 5) ∷ ("context", 7) ∷ [])
    else if v == 7
    then some []
    else if v == 8
    then some (("version", 9) ∷ ("sequence", 9) ∷ ("call", 4) ∷ [])
    else none

abbrev pub numbered_values : JsonValues
numbered_values = record {
  Value = ℕ;
  from_str = λ text. if text == "{}" then some 8 else none;
  is_null = λ v. v == 5;
  as_str = λ v. if v == 1 then some "me" else if v == 2 then some "id" else none;
  as_i64 = λ v. if v == 9 then some (pos 1) else none;
  as_u64 = λ v. if v == 9 then some 1 else if v == 3 then some 50 else none;
  as_array = λ v. if v == 6 then some [] else none;
  as_object = objects;
}

read_request : from_value numbered_values 0 ≡ ok small_request
unfolding from_value get contains_key
read_request = refl

from_value-Reads_example : Reads numbered_values 0 small_request
from_value-Reads_example = from_value-Reads numbered_values 0 small_request read_request
