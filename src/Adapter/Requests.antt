-- ===== src/Adapter/Requests.antt =====
-- What a request that was read from a value has been.
use hp_guardian.Prelude.{
  String, false, not, Option, none, some, List, [], ◌∷◌, any, ◌==◌, nat_eq, string_eq, ◌≡◌, refl,
  subst, arith, ok, ok_or, ok_or-eq-ok, >>=-eq-ok, map_err, map_err-eq-ok, ok-injective,
}
use hp_guardian.Prelude.Map.{Map, get}
use hp_guardian.Json.{JsonValues, and_then, Fault, rejected}
use hp_guardian.Models.{PolicyCall}
use hp_guardian.Adapter.{
  AdapterError, invalid_request, EnforcementRequest, validate, require_exact_fields,
  required_identifier, valid_text, parse_call, required_call, from_value,
}
use hp_guardian.Adapter.Boundary.{IsValid, validate-ok}

module _ (json : JsonValues) where
  abbrev request_fields : List String
  request_fields = "caller_id" ∷ "correlation_id" ∷ "deadline_unix_ms" ∷ "call" ∷ []

  -- The value is an object with the four fields, each of its kind, and no other field.
  pub record Reads (value : json.Value) (request : EnforcementRequest) : Type 0 where
    pub fields : Map String json.Value
    pub is_object : json.as_object value ≡ some fields
    pub no_other : any fields (λ (key, v). not (any request_fields (λ field. field == key))) ≡ false
    pub caller : and_then (get fields "caller_id") json.as_str ≡ some request.caller_id
    pub correlation :
        and_then (get fields "correlation_id") json.as_str ≡ some request.correlation_id
    pub deadline :
        and_then (get fields "deadline_unix_ms") json.as_u64 ≡ some request.deadline_unix_ms
    pub call_value : json.Value
    pub has_call : get fields "call" ≡ some call_value
    pub call : parse_call json call_value ≡ ok request.call
    pub is_valid : IsValid request

  valid_text-ok : (o : Option String) (s : String) → valid_text json o ≡ some s → o ≡ some s
  unfolding valid_text
  valid_text-ok none s e = e
  valid_text-ok (some t) s e = ground (arith, e)

  required_identifier-ok :
      (fields : Map String json.Value) (field s : String)
      → required_identifier json fields field ≡ ok s
      → and_then (get fields field) json.as_str ≡ some s
  unfolding required_identifier
  required_identifier-ok fields field s e =
      valid_text-ok (and_then (get fields field) json.as_str) s (ok_or-eq-ok _ invalid_request e)

  exact-no_other :
      (fields : Map String json.Value) (required : List String)
      → require_exact_fields json fields required ≡ ok tt
      → any fields (λ (key, v). not (any required (λ field. field == key))) ≡ false
  unfolding require_exact_fields
  exact-no_other fields required e = ground (arith, e)

  required_call-ok :
      (o : Option json.Value) (call : PolicyCall)
      → required_call json o ≡ ok call
      → (v : json.Value) × (o ≡ some v) × (parse_call json v ≡ ok call)
  unfolding required_call
  required_call-ok none call e = cc e
  required_call-ok (some v) call e = (v, refl, map_err-eq-ok rejected (parse_call json v) e)

  -- A request that is read is an object with exactly the four fields: its texts and its deadline are those of the
  -- object, its call is read from the fourth field, and its identifiers have from 1 to 256 bytes.
  pub from_value-Reads :
      (value : json.Value) (request : EnforcementRequest)
      → from_value json value ≡ ok request
      → Reads value request
  unfolding from_value
  from_value-Reads value request e =
      let (fields, object, r1) =
        >>=-eq-ok (ok_or (json.as_object value) (rejected invalid_request)) _ e in
      let (u, exact, r2) =
        >>=-eq-ok (map_err rejected (require_exact_fields json fields request_fields)) _ r1 in
      let (caller_id, e3, r3) =
        >>=-eq-ok (map_err rejected (required_identifier json fields "caller_id")) _ r2 in
      let (correlation_id, e4, r4) =
        >>=-eq-ok (map_err rejected (required_identifier json fields "correlation_id")) _ r3 in
      let (deadline_unix_ms, e5, r5) =
        >>=-eq-ok
          (ok_or (and_then (get fields "deadline_unix_ms") json.as_u64) (rejected invalid_request))
          _ r4 in
      let (call, e6, r6) = >>=-eq-ok (required_call json (get fields "call")) _ r5 in
      let built : EnforcementRequest = record {
        caller_id = caller_id;
        correlation_id = correlation_id;
        deadline_unix_ms = deadline_unix_ms;
        call = call;
      } in
      let (v, e7, r7) = >>=-eq-ok (map_err rejected (validate built)) _ r6 in
      let same : built ≡ request = ok-injective {E = Fault AdapterError} r7 in
      let (call_value, has_call, parsed) = required_call-ok (get fields "call") call e6 in
      subst (Reads value) same (record {
        fields = fields;
        is_object = ok_or-eq-ok (json.as_object value) (rejected invalid_request) object;
        no_other = exact-no_other fields request_fields (map_err-eq-ok rejected _ exact);
        caller = required_identifier-ok fields "caller_id" caller_id (map_err-eq-ok rejected _ e3);
        correlation =
            required_identifier-ok fields "correlation_id" correlation_id
              (map_err-eq-ok rejected _ e4);
        deadline = ok_or-eq-ok _ (rejected invalid_request) e5;
        call_value = call_value;
        has_call = has_call;
        call = parsed;
        is_valid = validate-ok built (map_err-eq-ok rejected (validate built) e7);
      })
