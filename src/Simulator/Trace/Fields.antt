-- ===== src/Simulator/Trace/Fields.antt =====
-- src/simulator.rs: events, errors, and the views of the fields of a trace.
use hp_guardian.Prelude.{
  ℕ, zero, suc, String, Bool, false, not, ◌&&◌, ◌||◌, Option, none, some, List, any, all, leb,
  if◌then◌else◌, ◌==◌, nat_eq, string_eq, option_eq, chars, Result, ok, err, ok_or,
}
use Prim.Native.String.{len}
use hp_guardian.Prelude.Map.{Map, contains_key}
use hp_guardian.Models.{Action, allow, deny, throttle, log, require_approval, redirect, PolicyCall}
use hp_guardian.Parser.{ℤ, pos, is_ascii_digit}
use hp_guardian.Json.{JsonValues, and_then, Fault, rejected, panicked}
use hp_guardian.Adapter.{PolicyIdentity}

pub record ExpectedMetadata : Type 0 where
  pub policy : PolicyIdentity
  pub decision : Action
  pub matched_rules : List ℕ

pub record TraceEvent : Type 0 where
  pub sequence : ℕ
  pub event_id : Option String
  pub call : PolicyCall
  pub expected : Option ExpectedMetadata

pub data TraceErrorCode : Type 0 where
  invalid_json invalid_record unsupported_version invalid_sequence invalid_call invalid_expected :
      TraceErrorCode

pub record TraceError : Type 0 where
  pub code : TraceErrorCode
  pub line : ℕ

unfoldable pub code_text : TraceErrorCode → String
code_text invalid_json = "invalid_trace_json"
code_text invalid_record = "invalid_trace_record"
code_text unsupported_version = "unsupported_trace_version"
code_text invalid_sequence = "invalid_trace_sequence"
code_text invalid_call = "invalid_trace_call"
code_text invalid_expected = "invalid_trace_expected"

abbrev pub Traced : Type 0 → Type 0
Traced A = Result (Fault TraceError) A

abbrev pub trace_error : TraceErrorCode → ℕ → Fault TraceError
trace_error c line = rejected (record { code = c; line = line })

-- `ok_or_else` with a trace error.
abbrev pub or_reject : {A : Type 0} → TraceErrorCode → ℕ → Option A → Traced A
or_reject c line o = ok_or o (trace_error c line)

-- `expect`
abbrev pub expect : {A : Type 0} → Option A → Traced A
expect o = ok_or o panicked

-- A byte beyond ASCII is no digit, and no more is its character.
unfoldable pub is_lowercase_sha256 : String → Bool
is_lowercase_sha256 value =
    len value == 64 && all (chars value) (λ c. is_ascii_digit c || (leb b'a' c && leb c b'f'))

unfoldable pub parse_action : String → Option Action
parse_action value =
    if value == "allow"
    then some allow
    else if value == "deny"
    then some deny
    else if value == "throttle"
    then some throttle
    else if value == "log"
    then some log
    else if value == "require_approval"
    then some require_approval
    else if value == "redirect"
    then some redirect
    else none

abbrev pub positive : ℕ → Option ℕ
positive zero = none
positive (suc n) = some (suc n)

-- `version != Some(TRACE_VERSION)`, with the answer turned round.
abbrev pub is_version_1 : Option ℤ → Bool
is_version_1 (some (pos n)) = n == 1
is_version_1 _ = false

abbrev pub sha256_text : String → Option String
unfolding is_lowercase_sha256
sha256_text value = if is_lowercase_sha256 value then some value else none

module _ (json : JsonValues) where
  abbrev pub exact_fields : Map String json.Value → List String → List String → Bool
  exact_fields fields required optional =
      if any required (λ field. not (contains_key fields field))
      then false
      else not (
          any fields (λ (key, value).
            not (any required (λ field. field == key))
            && not (any optional (λ field. field == key))))

  unfoldable pub require_exact_fields :
      TraceErrorCode → ℕ → Map String json.Value → List String → List String → Traced (Unit {0})
  require_exact_fields c line fields required optional =
      if exact_fields fields required optional then ok tt else err (trace_error c line)

  abbrev pub nullable_string : json.Value → Option (Option String)
  nullable_string value =
      if json.is_null value
      then some none
      else elim (json.as_str value) [ none ↦ none | some text ↦ some (some text) ]

  abbrev pub positive_integer : json.Value → Option ℕ
  positive_integer value = and_then (json.as_u64 value) positive

  abbrev pub text_entry : String × json.Value → Option (String × String)
  text_entry (key, value) = and_then (json.as_str value) (λ text. some (key, text))
