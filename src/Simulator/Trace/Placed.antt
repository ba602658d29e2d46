-- ===== src/Simulator/Trace/Placed.antt =====
-- A trace that is refused is refused with the number of a line, and its reading does not panic.
use hp_guardian.Prelude.{
  ℕ, suc, ◌+◌, ◌≤◌, String, Bool, true, false, not, Option, none, some, List, [], ◌∷◌, any, All,
  length, if◌then◌else◌, ◌==◌, nat_eq, string_eq, ◌≡◌, refl, sym, subst, arith, ok, err, ◌>>=◌,
  Bool-cases, inl, inr,
}
use hp_guardian.Prelude.Map.{Map, get, contains_key, contains_key-some}
use hp_guardian.Json.{JsonValues, and_then, collect, rejected, panicked}
use hp_guardian.Simulator.Trace.{
  TraceErrorCode, invalid_json, invalid_record, unsupported_version, invalid_sequence, invalid_call,
  invalid_expected, TraceError, ExpectedMetadata, TraceEvent, Traced, trace_error, or_reject,
  expect, exact_fields, require_exact_fields, is_version_1, nullable_string, parse_call,
  parse_identity, parse_expected, optional_expected, parse_event, in_order, read_line, read_lines,
  parse_trace, lines_of, is_blank, text_entry, sha256_text, parse_action, positive_integer,
  event_id_of,
}

-- A value, or an error whose line is between the two.
pub data Placed {A : Type 0} (first last : ℕ) : Traced A → Type 0 where
  accepted : {a : A} → Placed first last (ok a)
  refused : {e : TraceError} → first ≤ e.line → e.line ≤ last → Placed first last (err (rejected e))

pub Placed-bind :
    {A B : Type 0} (first last : ℕ) (m : Traced A) (f : A → Traced B)
    → Placed first last m
    → ((a : A) → m ≡ ok a → Placed first last (f a))
    → Placed first last (m >>= f)
Placed-bind first last (err panicked) f p next = elim p [ ]
Placed-bind first last (ok a) f p next = next a refl
Placed-bind first last (err (rejected e)) f (refused low high) next = refused low high

pub Placed-weaken :
    {A : Type 0} (first last first' last' : ℕ) (m : Traced A)
    → first ≤ first'
    → last' ≤ last
    → Placed first' last' m
    → Placed first last m
Placed-weaken first last first' last' (err panicked) le le' p = elim p [ ]
Placed-weaken first last first' last' (ok a) le le' p = accepted
Placed-weaken first last first' last' (err (rejected e)) le le' (refused low high) =
    refused (omega (arith, le, low)) (omega (arith, le', high))

module _ (line : ℕ) where
  or_reject-Placed :
      {A : Type 0} (c : TraceErrorCode) (o : Option A) → Placed line line (or_reject c line o)
  or_reject-Placed c none = refused (omega arith) (omega arith)
  or_reject-Placed c (some a) = accepted

  if-Placed :
      (b : Bool) (c : TraceErrorCode)
      → Placed line line (if b then ok tt else err (trace_error c line))
  if-Placed true c = accepted
  if-Placed false c = refused (omega arith) (omega arith)

  module _ (json : JsonValues) where
    abbrev Has : Map String json.Value → String → Type 0
    Has fields field = contains_key fields field ≡ true

    expect-Placed :
        (fields : Map String json.Value) (field : String)
        → Has fields field
        → Placed line line (expect (get fields field))
    expect-Placed fields field h =
        let (v, there) = contains_key-some fields field h in
        subst (λ o. Placed line line (expect o)) (sym there) accepted

    exact-Placed :
        (c : TraceErrorCode) (fields : Map String json.Value) (required optional : List String)
        → Placed line line (require_exact_fields json c line fields required optional)
    unfolding require_exact_fields
    exact-Placed c fields required optional =
        if-Placed (exact_fields json fields required optional) c

    required_present :
        (fields : Map String json.Value) (required : List String)
        → any required (λ field. not (contains_key fields field)) ≡ false
        → All (Has fields) required
    required_present fields [] h = tt
    required_present fields (field ∷ required) h =
        ground (arith, h, required_present fields required)

    exact-All :
        (c : TraceErrorCode) (fields : Map String json.Value) (required optional : List String)
        → require_exact_fields json c line fields required optional ≡ ok tt
        → All (Has fields) required
    unfolding require_exact_fields
    exact-All c fields required optional e = required_present fields required (ground (arith, e))

    parse_call-Placed : (value : json.Value) → Placed line line (parse_call json value line)
    unfolding parse_call
    parse_call-Placed value =
        Placed-bind line line _ _ (or_reject-Placed invalid_call (json.as_object value))
          (λ fields e.
            Placed-bind line line _ _
              (exact-Placed invalid_call fields
                ("agent" ∷ "tool" ∷ "args" ∷ "user" ∷ "context" ∷ []) [])
              (λ exact e.
                let (has_agent, (has_tool, (has_args, (has_user, rest)))) =
                  exact-All invalid_call fields
                    ("agent" ∷ "tool" ∷ "args" ∷ "user" ∷ "context" ∷ []) [] e in
                Placed-bind line line _ _ (expect-Placed fields "agent" has_agent) (λ agent_value e.
                  Placed-bind line line _ _
                    (or_reject-Placed invalid_call (nullable_string json agent_value))
                    (λ agent e.
                      Placed-bind line line _ _ (expect-Placed fields "tool" has_tool)
                        (λ tool_value e.
                          Placed-bind line line _ _
                            (or_reject-Placed invalid_call (nullable_string json tool_value))
                            (λ tool e.
                              Placed-bind line line _ _ (expect-Placed fields "user" has_user)
                                (λ user_value e.
                                  Placed-bind line line _ _
                                    (or_reject-Placed invalid_call
                                      (nullable_string json user_value))
                                    (λ user e.
                                      Placed-bind line line _ _
                                        (or_reject-Placed invalid_call (
                                          and_then (and_then (get fields "args") json.as_array)
                                            (collect json.as_str)))
                                        (λ args e.
                                          Placed-bind line line _ _
                                            (or_reject-Placed invalid_call (
                                              and_then
                                                (and_then (get fields "context") json.as_object)
                                                (collect (text_entry json))))
                                            (λ context e. accepted))))))))))

    parse_identity-Placed : (value : json.Value) → Placed line line (parse_identity json value line)
    unfolding parse_identity
    parse_identity-Placed value =
        Placed-bind line line _ _ (or_reject-Placed invalid_expected (json.as_object value))
          (λ fields e.
            Placed-bind line line _ _
              (exact-Placed invalid_expected fields ("version" ∷ "sha256" ∷ []) [])
              (λ exact e.
                let (has_version, rest) =
                  exact-All invalid_expected fields ("version" ∷ "sha256" ∷ []) [] e in
                Placed-bind line line _ _ (expect-Placed fields "version" has_version) (λ version e.
                  Placed-bind line line _ _
                    (if-Placed (is_version_1 (json.as_i64 version)) invalid_expected)
                    (λ current e.
                      Placed-bind line line _ _
                        (or_reject-Placed invalid_expected
                          (and_then (and_then (get fields "sha256") json.as_str) sha256_text))
                        (λ sha256 e. accepted)))))

    parse_expected-Placed : (value : json.Value) → Placed line line (parse_expected json value line)
    unfolding parse_expected
    parse_expected-Placed value =
        Placed-bind line line _ _ (or_reject-Placed invalid_expected (json.as_object value))
          (λ fields e.
            Placed-bind line line _ _
              (exact-Placed invalid_expected fields ("policy" ∷ "decision" ∷ "matched_rules" ∷ [])
                [])
              (λ exact e.
                let (has_policy, rest) =
                  exact-All invalid_expected fields ("policy" ∷ "decision" ∷ "matched_rules" ∷ [])
                    [] e in
                Placed-bind line line _ _ (expect-Placed fields "policy" has_policy)
                  (λ policy_value e.
                    Placed-bind line line _ _ (parse_identity-Placed policy_value) (λ policy e.
                      Placed-bind line line _ _
                        (or_reject-Placed invalid_expected
                          (and_then (and_then (get fields "decision") json.as_str) parse_action))
                        (λ decision e.
                          Placed-bind line line _ _
                            (or_reject-Placed invalid_expected (
                              and_then (and_then (get fields "matched_rules") json.as_array)
                                (collect json.as_u64)))
                            (λ matched_rules e. accepted))))))

    some_expected :
        (r : Traced ExpectedMetadata)
        → Placed line line r
        → Placed line line (elim r [ ok e ↦ ok (some e) | err x ↦ err x ])
    some_expected (err panicked) p = elim p [ ]
    some_expected (ok e) p = accepted
    some_expected (err (rejected e)) (refused low high) = refused low high

    optional_expected-Placed :
        (o : Option json.Value) → Placed line line (optional_expected json o line)
    unfolding optional_expected
    optional_expected-Placed none = accepted
    optional_expected-Placed (some value) =
        some_expected (parse_expected json value line) (parse_expected-Placed value)

    parse_event-Placed : (value : json.Value) → Placed line line (parse_event json value line)
    unfolding parse_event
    parse_event-Placed value =
        Placed-bind line line _ _ (or_reject-Placed invalid_record (json.as_object value))
          (λ fields e.
            Placed-bind line line _ _
              (exact-Placed invalid_record fields ("version" ∷ "sequence" ∷ "call" ∷ [])
                ("event_id" ∷ "expected" ∷ []))
              (λ exact e.
                let (has_version, (has_sequence, (has_call, rest))) =
                  exact-All invalid_record fields ("version" ∷ "sequence" ∷ "call" ∷ [])
                    ("event_id" ∷ "expected" ∷ []) e in
                Placed-bind line line _ _ (expect-Placed fields "version" has_version) (λ version e.
                  Placed-bind line line _ _
                    (if-Placed (is_version_1 (json.as_i64 version)) unsupported_version)
                    (λ current e.
                      Placed-bind line line _ _ (expect-Placed fields "sequence" has_sequence)
                        (λ sequence_value e.
                          Placed-bind line line _ _
                            (or_reject-Placed invalid_sequence
                              (positive_integer json sequence_value))
                            (λ sequence e.
                              Placed-bind line line _ _
                                (or_reject-Placed invalid_record
                                  (event_id_of json (get fields "event_id")))
                                (λ event_id e.
                                  Placed-bind line line _ _ (expect-Placed fields "call" has_call)
                                    (λ call_value e.
                                      Placed-bind line line _ _ (parse_call-Placed call_value)
                                        (λ call e.
                                          Placed-bind line line _ _
                                            (optional_expected-Placed (get fields "expected"))
                                            (λ expected e. accepted))))))))))

    in_order-Placed : (k : ℕ) (event : TraceEvent) → Placed line line (in_order line k event)
    in_order-Placed k event = elim (Bool-cases (event.sequence == k)) [
      | inl same ↦ rw same accepted
      | inr distinct ↦ rw distinct (refused (omega arith) (omega arith))
    ]

    read_line-Placed : (k : ℕ) (text : String) → Placed line line (read_line json line k text)
    unfolding read_line
    read_line-Placed k text =
        Placed-bind line line _ _ (or_reject-Placed invalid_json (json.from_str text)) (λ value e.
          Placed-bind line line _ _ (parse_event-Placed value) (λ event e. in_order-Placed k event))

module _ (json : JsonValues) where
  read_lines-Placed :
      (texts : List String) (line k last : ℕ)
      → line + length texts ≡ suc last
      → Placed line last (read_lines json line k texts)
  unfolding read_lines
  read_lines-Placed [] line k last h = accepted
  read_lines-Placed (text ∷ texts) line k last h = elim (Bool-cases (is_blank text)) [
    | inl blank ↦
        rw (read_lines, blank)
          (Placed-weaken line last (line + 1) last (read_lines json (line + 1) k texts)
            (omega arith) (omega arith)
            (read_lines-Placed texts (line + 1) k last (omega (arith, h))))
    | inr filled ↦
        rw (read_lines, filled)
          (Placed-bind line last (read_line json line k text) _
            (Placed-weaken line last line line (read_line json line k text) (omega arith)
              (omega (arith, h)) (read_line-Placed line json k text))
            (λ event e.
              Placed-bind line last (read_lines json (line + 1) (k + 1) texts) _
                (Placed-weaken line last (line + 1) last (read_lines json (line + 1) (k + 1) texts)
                  (omega arith) (omega arith)
                  (read_lines-Placed texts (line + 1) (k + 1) last (omega (arith, h))))
                (λ events e. accepted)))
  ]

  -- The reading of a trace never panics, and where it refuses one, the error has the number of a line.
  pub parse_trace-Placed :
      (trace : String) → Placed 1 (length (lines_of trace)) (parse_trace json trace)
  unfolding parse_trace
  parse_trace-Placed trace =
      read_lines-Placed (lines_of trace) 1 1 (length (lines_of trace)) (omega arith)
