-- ===== src/Simulator/Trace.antt =====
-- src/simulator.rs: the reading of traces, one JSON object on each line.
mod Fields
pub mod Placed
pub mod Numbered
unfoldable pub use Fields.*
use hp_guardian.Prelude.{
  ℕ, zero, suc, ◌+◌, String, Bool, true, false, not, ◌&&◌, ◌||◌, Option, none, some, List, [], ◌∷◌,
  any, all, leb, if◌then◌else◌, ◌==◌, Eq, nat_eq, string_eq, option_eq, chars, Result, ok, err,
  ok_or, ◌>>=◌, map_err,
}
use Prim.Native.Char.{code}
use Prim.Native.String
use Prim.Native.String.{len}
use hp_guardian.Prelude.Map.{Map, get, contains_key}
use hp_guardian.Models.{Action, allow, deny, throttle, log, require_approval, redirect, PolicyCall}
use hp_guardian.Parser.{ℤ, pos, negsuc, trim, is_empty_text, is_ascii_digit}
use hp_guardian.Json.{JsonValues, and_then, collect, Fault, rejected, panicked}
use hp_guardian.Adapter.{PolicyIdentity}

abbrev starts_line : String → Bool
starts_line String.[] = false
starts_line (String.◌∷◌ c s) = code c == 10

abbrev in_line : String → List String → List String
in_line c [] = c ∷ []
in_line c (line ∷ lines) = String.◌++◌ c line ∷ lines

-- `str::lines`: a carriage return before a newline belongs to the end of the line.
unfoldable pub lines_of : String → List String
lines_of String.[] = []
lines_of (String.◌∷◌ c s) =
    let rest = lines_of s in
    if code c == 10
    then "" ∷ rest
    else if code c == 13 && starts_line s
    then rest
    else in_line (String.◌∷◌ c "") rest

abbrev pub in_order : ℕ → ℕ → TraceEvent → Traced TraceEvent
in_order line expected_sequence event =
    if event.sequence == expected_sequence
    then ok event
    else err (trace_error invalid_sequence line)

abbrev pub is_blank : String → Bool
unfolding trim
is_blank text = is_empty_text (trim text)

module _ (json : JsonValues) where
  unfoldable pub parse_call : json.Value → ℕ → Traced PolicyCall
  unfolding require_exact_fields
  parse_call value line = do
    fields ← or_reject invalid_call line (json.as_object value)
    exact ←
        require_exact_fields json invalid_call line fields
          ("agent" ∷ "tool" ∷ "args" ∷ "user" ∷ "context" ∷ []) []
    agent_value ← expect (get fields "agent")
    agent ← or_reject invalid_call line (nullable_string json agent_value)
    tool_value ← expect (get fields "tool")
    tool ← or_reject invalid_call line (nullable_string json tool_value)
    user_value ← expect (get fields "user")
    user ← or_reject invalid_call line (nullable_string json user_value)
    args ←
        or_reject invalid_call line
          (and_then (and_then (get fields "args") json.as_array) (collect json.as_str))
    context ←
        or_reject invalid_call line
          (and_then (and_then (get fields "context") json.as_object) (collect (text_entry json)))
    ok (record { agent = agent; tool = tool; args = args; user = user; context = context })

  unfoldable pub parse_identity : json.Value → ℕ → Traced PolicyIdentity
  unfolding require_exact_fields
  parse_identity value line = do
    fields ← or_reject invalid_expected line (json.as_object value)
    exact ← require_exact_fields json invalid_expected line fields ("version" ∷ "sha256" ∷ []) []
    version ← expect (get fields "version")
    accepted ←
        (if is_version_1 (json.as_i64 version)
          then ok tt
          else err (trace_error invalid_expected line))
    sha256 ←
        or_reject invalid_expected line
          (and_then (and_then (get fields "sha256") json.as_str) sha256_text)
    ok (record { version = 1; sha256 = sha256 })

  unfoldable pub parse_expected : json.Value → ℕ → Traced ExpectedMetadata
  unfolding require_exact_fields parse_identity parse_action
  parse_expected value line = do
    fields ← or_reject invalid_expected line (json.as_object value)
    exact ←
        require_exact_fields json invalid_expected line fields
          ("policy" ∷ "decision" ∷ "matched_rules" ∷ []) []
    policy_value ← expect (get fields "policy")
    policy ← parse_identity policy_value line
    decision ←
        or_reject invalid_expected line
          (and_then (and_then (get fields "decision") json.as_str) parse_action)
    matched_rules ←
        or_reject invalid_expected line
          (and_then (and_then (get fields "matched_rules") json.as_array) (collect json.as_u64))
    ok (record { policy = policy; decision = decision; matched_rules = matched_rules })

  -- `event_id`, where it is given, is a text that is not empty.
  abbrev pub event_id_of : Option json.Value → Option (Option String)
  event_id_of none = some none
  event_id_of (some value) = elim (json.as_str value) [
    | none ↦ none
    | some text ↦ if len text == 0 then none else some (some text)
  ]

  abbrev pub optional_expected : Option json.Value → ℕ → Traced (Option ExpectedMetadata)
  unfolding parse_expected
  optional_expected none line = ok none
  optional_expected (some value) line = elim (parse_expected value line) [
    | ok e ↦ ok (some e)
    | err x ↦ err x
  ]

  unfoldable pub parse_event : json.Value → ℕ → Traced TraceEvent
  unfolding require_exact_fields parse_call optional_expected
  parse_event value line = do
    fields ← or_reject invalid_record line (json.as_object value)
    exact ←
        require_exact_fields json invalid_record line fields ("version" ∷ "sequence" ∷ "call" ∷ [])
          ("event_id" ∷ "expected" ∷ [])
    version ← expect (get fields "version")
    accepted ←
        (if is_version_1 (json.as_i64 version)
          then ok tt
          else err (trace_error unsupported_version line))
    sequence_value ← expect (get fields "sequence")
    sequence ← or_reject invalid_sequence line (positive_integer json sequence_value)
    event_id ← or_reject invalid_record line (event_id_of (get fields "event_id"))
    call_value ← expect (get fields "call")
    call ← parse_call call_value line
    expected ← optional_expected (get fields "expected") line
    ok (record { sequence = sequence; event_id = event_id; call = call; expected = expected })

  -- The body of the loop of `parse_trace`, for a line that is not blank.
  unfoldable pub read_line : ℕ → ℕ → String → Traced TraceEvent
  unfolding parse_event
  read_line line expected_sequence text = do
    value ← or_reject invalid_json line (json.from_str text)
    event ← parse_event value line
    in_order line expected_sequence event

  -- The loop of `parse_trace`, at a line number and the sequence that is expected.
  unfoldable pub read_lines : ℕ → ℕ → List String → Traced (List TraceEvent)
  unfolding read_line is_blank
  read_lines line expected_sequence [] = ok []
  read_lines line expected_sequence (text ∷ texts) =
      let blank = is_blank text in
      let rest =
        read_lines (line + 1) (if blank then expected_sequence else expected_sequence + 1) texts in
      if blank
      then rest
      else (do event ← read_line line expected_sequence text; events ← rest; ok (event ∷ events))

  unfoldable pub parse_trace : String → Traced (List TraceEvent)
  unfolding lines_of read_lines
  parse_trace trace = read_lines 1 1 (lines_of trace)
