-- ===== src/Adapter.antt =====
-- src/adapter.rs: the strict requests of the inline boundary, and what it returns for a host to execute.
pub mod Requests
pub mod Boundary
use hp_guardian.Prelude.{
  ℕ, String, Bool, true, false, not, ◌&&◌, ◌||◌, Option, none, some, List, [], ◌∷◌, any, all, leb,
  if◌then◌else◌, ◌==◌, string_eq, nat_eq, Result, ok, err, ok_or, ◌>>=◌, map_err,
}
use Prim.Native.String.{len}
use hp_guardian.Prelude.Map.{Map, get, contains_key}
use hp_guardian.Models.{Action, allow, action_eq, PolicyCall, Instant}
use hp_guardian.Json.{JsonValues, and_then, collect, Fault, rejected, panicked}
use hp_guardian.Audit.Disk.{AuditError}
use hp_guardian.Audit.Records.{Authorization, AuthorizationMetadata}
use hp_guardian.Audit.Store.{AuditSink, AuditedPolicyStore, authorize_with_metadata, close_store}

pub data AdapterError : Type 0 where
  invalid_request deadline_exceeded audit_write_failed : AdapterError

unfoldable pub error_code : AdapterError → String
error_code invalid_request = "invalid_request"
error_code deadline_exceeded = "deadline_exceeded"
error_code audit_write_failed = "audit_write_failed"

pub record EnforcementRequest : Type 0 where
  pub caller_id : String
  pub correlation_id : String
  pub deadline_unix_ms : ℕ
  pub call : PolicyCall

-- `PolicyIdentity` of src/simulator.rs.
pub record PolicyIdentity : Type 0 where
  pub version : ℕ
  pub sha256 : String

-- The fields of a call.
pub record EffectCall : Type 0 where
  pub agent : Option String
  pub tool : Option String
  pub args : List String
  pub user : Option String
  pub context : Map String String

abbrev pub effect_call : PolicyCall → EffectCall
effect_call call = record {
  agent = call.agent;
  tool = call.tool;
  args = call.args;
  user = call.user;
  context = call.context;
}

pub record EffectRequest : Type 0 where
  pub caller_id : String
  pub correlation_id : String
  pub deadline_unix_ms : ℕ
  pub policy : PolicyIdentity
  pub decision : Action
  pub matched_rules : List ℕ
  pub call : EffectCall

pub record EnforcementResponse : Type 0 where
  pub caller_id : String
  pub correlation_id : String
  pub deadline_unix_ms : ℕ
  pub policy : PolicyIdentity
  pub decision : Action
  pub matched_rules : List ℕ
  pub effect : Option EffectRequest

abbrev pub max_identifier_bytes : ℕ
max_identifier_bytes = 256

unfoldable pub valid_identifier : String → Bool
valid_identifier value = not (len value == 0) && leb (len value) max_identifier_bytes

unfoldable pub validate : EnforcementRequest → Result AdapterError (Unit {0})
unfolding valid_identifier
validate request =
    if not (valid_identifier request.caller_id)
    then err invalid_request
    else if not (valid_identifier request.correlation_id)
    then err invalid_request
    else ok tt

module _ (json : JsonValues) where
  unfoldable pub require_exact_fields :
      Map String json.Value → List String → Result AdapterError (Unit {0})
  require_exact_fields fields required =
      if any required (λ field. not (contains_key fields field))
        || any fields (λ (key, value). not (any required (λ field. field == key)))
      then err invalid_request
      else ok tt

  abbrev pub valid_text : Option String → Option String
  valid_text none = none
  valid_text (some value) = if valid_identifier value then some value else none

  unfoldable pub required_identifier : Map String json.Value → String → Result AdapterError String
  unfolding valid_identifier
  required_identifier fields field =
      ok_or (valid_text (and_then (get fields field) json.as_str)) invalid_request

  -- The closure `nullable_string` of `parse_call`.
  abbrev pub nullable_string : Option json.Value → Result AdapterError (Option String)
  nullable_string none = err invalid_request
  nullable_string (some value) =
      if json.is_null value
      then ok none
      else elim (json.as_str value) [ none ↦ err invalid_request | some text ↦ ok (some text) ]

  abbrev pub text_entry : String × json.Value → Option (String × String)
  text_entry (key, value) = elim (json.as_str value) [ none ↦ none | some text ↦ some (key, text) ]

  unfoldable pub parse_call : json.Value → Result AdapterError PolicyCall
  unfolding require_exact_fields
  parse_call value = do
    fields ← ok_or (json.as_object value) invalid_request
    exact ← require_exact_fields fields ("agent" ∷ "tool" ∷ "args" ∷ "user" ∷ "context" ∷ [])
    args ←
        ok_or (and_then (and_then (get fields "args") json.as_array) (collect json.as_str))
          invalid_request
    context ←
        ok_or (and_then (and_then (get fields "context") json.as_object) (collect text_entry))
          invalid_request
    agent ← nullable_string (get fields "agent")
    tool ← nullable_string (get fields "tool")
    user ← nullable_string (get fields "user")
    ok (record { agent = agent; tool = tool; args = args; user = user; context = context })

  -- `expect` on the call, which the exact fields have.
  abbrev pub required_call : Option json.Value → Result (Fault AdapterError) PolicyCall
  required_call none = err panicked
  required_call (some value) = map_err rejected (parse_call value)

  unfoldable pub from_value : json.Value → Result (Fault AdapterError) EnforcementRequest
  unfolding require_exact_fields required_identifier parse_call validate
  from_value value = do
    fields ← ok_or (json.as_object value) (rejected invalid_request)
    exact ← map_err rejected (
        require_exact_fields fields
          ("caller_id" ∷ "correlation_id" ∷ "deadline_unix_ms" ∷ "call" ∷ []))
    caller_id ← map_err rejected (required_identifier fields "caller_id")
    correlation_id ← map_err rejected (required_identifier fields "correlation_id")
    deadline_unix_ms ←
        ok_or (and_then (get fields "deadline_unix_ms") json.as_u64) (rejected invalid_request)
    call ← required_call (get fields "call")
    let request : EnforcementRequest = record {
      caller_id = caller_id;
      correlation_id = correlation_id;
      deadline_unix_ms = deadline_unix_ms;
      call = call;
    }
    valid ← map_err rejected (validate request)
    ok request

-- What is returned for an authorization; an effect is given for `allow` alone.
unfoldable pub response : EnforcementRequest → Authorization → EnforcementResponse
response request authorization =
    let policy : PolicyIdentity = record {
      version = authorization.snapshot.version;
      sha256 = authorization.snapshot.digest;
    } in
    record {
      caller_id = request.caller_id;
      correlation_id = request.correlation_id;
      deadline_unix_ms = request.deadline_unix_ms;
      policy = policy;
      decision = authorization.decision.action;
      matched_rules = authorization.decision.matched_rules;
      effect =
          if authorization.decision.action == allow
          then some (record {
            caller_id = request.caller_id;
            correlation_id = request.correlation_id;
            deadline_unix_ms = request.deadline_unix_ms;
            policy = policy;
            decision = authorization.decision.action;
            matched_rules = authorization.decision.matched_rules;
            call = effect_call request.call;
          })
          else none;
    }

-- The adapter is its store; what its clock reads is an argument.
module _ (sink : AuditSink) where
  abbrev pub close : AuditedPolicyStore sink → AuditedPolicyStore sink
  close store = close_store sink store

  abbrev pub respond :
      EnforcementRequest
      → Result AuditError Authorization × AuditedPolicyStore sink
      → Result AdapterError EnforcementResponse × AuditedPolicyStore sink
  unfolding response
  respond request (ok authorization, store) = (ok (response request authorization), store)
  respond request (err e, store) = (err audit_write_failed, store)

  unfoldable pub authorize :
      ℕ
      → Instant
      → Instant
      → String
      → EnforcementRequest
      → AuditedPolicyStore sink
      → Result AdapterError EnforcementResponse × AuditedPolicyStore sink
  unfolding validate respond
  authorize now_unix_ms resolved_at recorded_at next request store = elim (validate request) [
    | err e ↦ (err e, store)
    | ok valid ↦
        if leb request.deadline_unix_ms now_unix_ms
        then (err deadline_exceeded, store)
        else respond request (
            authorize_with_metadata sink resolved_at recorded_at next request.call
              (some (record {
                correlation_id = request.correlation_id;
                caller_id = request.caller_id;
                deadline_unix_ms = request.deadline_unix_ms;
              }))
              store)
  ]
