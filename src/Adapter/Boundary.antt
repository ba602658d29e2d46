-- ===== src/Adapter/Boundary.antt =====
-- What stands behind a response of the inline boundary.
use hp_guardian.Prelude.{
  ℕ, ◌≤◌, ◌<◌, String, true, Option, none, some, leb, ◌==◌, ==_iff, nat_eq, ◌≡◌, ◌≢◌, ◌↔◌, refl,
  arith, inl, inr, Result, ok, err, Bool-cases, Result-cases,
}
use Prim.Native.String.{len}
use hp_guardian.Models.{allow, action_eq, Instant}
use hp_guardian.Audit.Disk.{AuditError}
use hp_guardian.Audit.Records.{Authorization, AuthorizationMetadata}
use hp_guardian.Audit.Store.{AuditSink, AuditedPolicyStore, authorize_with_metadata}
use hp_guardian.Audit.Store.Boundary.{
  Identified, of_request, Recorded, authorize_with_metadata-Recorded,
}
use hp_guardian.Audit.Store.Unauthorized.{Unauthorized, authorize_with_metadata-Unauthorized}
use hp_guardian.Adapter.{
  AdapterError, invalid_request, deadline_exceeded, audit_write_failed, EnforcementRequest,
  EnforcementResponse, EffectRequest, effect_call, valid_identifier, validate, response, respond,
  authorize,
}

-- From 1 to 256 bytes.
abbrev pub IsIdentifier : String → Type 0
IsIdentifier s = (1 ≤ len s) × (len s ≤ 256)

valid_identifier_iff : (s : String) → (valid_identifier s ≡ true) ↔ IsIdentifier s
unfolding valid_identifier
valid_identifier_iff s =
    (λ h. (ground (arith, h), ground (arith, h)), λ (low, high). ground (arith, low, high))

pub record IsValid (request : EnforcementRequest) : Type 0 where
  pub caller : IsIdentifier request.caller_id
  pub correlation : IsIdentifier request.correlation_id

pub validate-ok : (request : EnforcementRequest) → validate request ≡ ok tt → IsValid request
unfolding validate
validate-ok request e =
    let caller : valid_identifier request.caller_id ≡ true = ground (arith, e) in
    let correlation : valid_identifier request.correlation_id ≡ true = ground (arith, e, caller) in
    record {
      caller = (valid_identifier_iff request.caller_id).0 caller;
      correlation = (valid_identifier_iff request.correlation_id).0 correlation;
    }

validate-err :
    (request : EnforcementRequest) {x : AdapterError}
    → validate request ≡ err x
    → (x ≡ invalid_request) × (¬ IsValid request)
unfolding validate
validate-err request {x = x} e =
    let same : x ≡ invalid_request = ground (arith, e) in
    (
      same,
      λ valid.
          let caller = (valid_identifier_iff request.caller_id).1 valid.caller in
          let correlation = (valid_identifier_iff request.correlation_id).1 valid.correlation in
          ground (arith, e, caller, correlation),
    )

-- The data for the host: none, or for `allow` the call of the request under the same texts.
pub data Effect (request : EnforcementRequest) (r : EnforcementResponse)
    : Option EffectRequest → Type 0 where
  withheld : r.decision ≢ allow → Effect request r none
  given :
      {e : EffectRequest}
      → r.decision ≡ allow
      → e.decision ≡ allow
      → e.matched_rules ≡ r.matched_rules
      → e.policy ≡ r.policy
      → e.caller_id ≡ request.caller_id
      → e.correlation_id ≡ request.correlation_id
      → e.deadline_unix_ms ≡ request.deadline_unix_ms
      → e.call ≡ effect_call request.call
      → Effect request r (some e)

response-Effect :
    (request : EnforcementRequest) (a : Authorization)
    → Effect request (response request a) (response request a).effect
unfolding response
response-Effect request a = elim (Bool-cases (a.decision.action == allow)) [
  | inl allowed ↦
      let same : a.decision.action ≡ allow = (==_iff a.decision.action allow).0 allowed in
      rw allowed (given same same refl refl refl refl refl refl)
  | inr refused ↦
      rw refused (withheld (λ same. cc ((==_iff a.decision.action allow).1 same, refused)))
]

abbrev metadata_of : EnforcementRequest → AuthorizationMetadata
metadata_of request = record {
  correlation_id = request.correlation_id;
  caller_id = request.caller_id;
  deadline_unix_ms = request.deadline_unix_ms;
}

Identified-some :
    (next : String) (m : AuthorizationMetadata) {id : String} {caller : Option String}
    {deadline : Option ℕ}
    → Identified next (some m) id caller deadline
    → (id ≡ m.correlation_id) × (caller ≡ some m.caller_id) × (deadline ≡ some m.deadline_unix_ms)
Identified-some next m of_request = (refl, refl, refl)

-- The authorization has the texts of the request. The response repeats them, and the policy and the
-- decision of the authorization.
pub record Answers (request : EnforcementRequest) (a : Authorization) (r : EnforcementResponse)
    : Type 0 where
  pub recorded_caller : a.caller_id ≡ some request.caller_id
  pub recorded_correlation : a.correlation_id ≡ request.correlation_id
  pub recorded_deadline : a.deadline_unix_ms ≡ some request.deadline_unix_ms
  pub same_caller : r.caller_id ≡ request.caller_id
  pub same_correlation : r.correlation_id ≡ request.correlation_id
  pub same_deadline : r.deadline_unix_ms ≡ request.deadline_unix_ms
  pub same_version : r.policy.version ≡ a.snapshot.version
  pub same_digest : r.policy.sha256 ≡ a.snapshot.digest
  pub same_decision : r.decision ≡ a.decision.action
  pub same_rules : r.matched_rules ≡ a.decision.matched_rules

response-Answers :
    (next : String) (request : EnforcementRequest) (a : Authorization)
    → Identified next (some (metadata_of request)) a.correlation_id a.caller_id a.deadline_unix_ms
    → Answers request a (response request a)
unfolding response
response-Answers next request a known =
    let (x, y, z) = Identified-some next _ known in
    record {
      recorded_caller = y;
      recorded_correlation = x;
      recorded_deadline = z;
      same_caller = refl;
      same_correlation = refl;
      same_deadline = refl;
      same_version = refl;
      same_digest = refl;
      same_decision = refl;
      same_rules = refl;
    }

module _ (sink : AuditSink) where
  -- What each call of `authorize` has done.
  pub data Enforced (now_unix_ms : ℕ) (resolved_at recorded_at : Instant) (next : String)
      (request : EnforcementRequest) (before : AuditedPolicyStore sink)
      : Result AdapterError EnforcementResponse × AuditedPolicyStore sink → Type 0 where
    refused :
        ¬ IsValid request
        → Enforced now_unix_ms resolved_at recorded_at next request before
            (err invalid_request, before)
    late :
        IsValid request
        → request.deadline_unix_ms ≤ now_unix_ms
        → Enforced now_unix_ms resolved_at recorded_at next request before
            (err deadline_exceeded, before)
    unaudited :
        {x : AuditError} {after : AuditedPolicyStore sink}
        → IsValid request
        → now_unix_ms < request.deadline_unix_ms
        → Unauthorized sink resolved_at recorded_at next request.call
            (some (metadata_of request))
            before
            x
            after
        → Enforced now_unix_ms resolved_at recorded_at next request before
            (err audit_write_failed, after)
    answered :
        {r : EnforcementResponse} {after : AuditedPolicyStore sink} {a : Authorization}
        → IsValid request
        → now_unix_ms < request.deadline_unix_ms
        → Recorded sink resolved_at recorded_at next request.call
            (some (metadata_of request))
            a
            before
            after
        → Answers request a r
        → Effect request r r.effect
        → Enforced now_unix_ms resolved_at recorded_at next request before (ok r, after)

  module _ (now_unix_ms : ℕ) (resolved_at recorded_at : Instant) (next : String)
      (request : EnforcementRequest) (store : AuditedPolicyStore sink) where
    respond-Enforced :
        (answer : Result AuditError Authorization × AuditedPolicyStore sink)
        → authorize_with_metadata sink resolved_at recorded_at next request.call
            (some (metadata_of request))
            store
          ≡ answer
        → IsValid request
        → now_unix_ms < request.deadline_unix_ms
        → Enforced now_unix_ms resolved_at recorded_at next request store
            (respond sink request answer)
    unfolding respond
    respond-Enforced (ok a, after) e valid lt =
        let r =
          authorize_with_metadata-Recorded sink resolved_at recorded_at next request.call
            (some (metadata_of request)) store after a e in
        answered valid lt r (response-Answers next request a r.identified)
          (response-Effect request a)
    respond-Enforced (err x, after) e valid lt = unaudited valid lt (
        authorize_with_metadata-Unauthorized sink resolved_at recorded_at next request.call
          (some (metadata_of request)) store after x e)

    -- A request is refused with the store as it was where an identifier has no bytes or more than
    -- 256, and then where its deadline is not in the future. Else it is answered, or the error of the
    -- audit tells that no policy is active or that the log did not accept the record of the active
    -- policy's decision; the active policy stays. An answer rests on an authorization by the
    -- active policy that the log has accepted, under the caller, the correlation id and the deadline
    -- of the request. It repeats these texts with the version and the digest of the policy, the
    -- action and the matched rules, and gives the host the call of the request exactly where the
    -- decision is `allow`.
    pub authorize-Enforced :
        Enforced now_unix_ms resolved_at recorded_at next request store
          (authorize sink now_unix_ms resolved_at recorded_at next request store)
    unfolding authorize
    authorize-Enforced = elim (Result-cases (validate request)) [
      | inl (u, good) ↦ elim (Bool-cases (leb request.deadline_unix_ms now_unix_ms)) [
        | inl past ↦
            rw (authorize, good, past) (late (validate-ok request good) (ground (arith, past)))
        | inr future ↦
            rw (authorize, good, future)
              (respond-Enforced _ refl (validate-ok request good) (ground (arith, future)))
      ]
      | inr (x, bad) ↦
          let (same, invalid) = validate-err request bad in
          rw (authorize, bad, same) (refused invalid)
    ]
