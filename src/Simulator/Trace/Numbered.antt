-- ===== src/Simulator/Trace/Numbered.antt =====
-- The events of a trace that is accepted are numbered from 1 on.
use hp_guardian.Prelude.{
  ℕ, ◌+◌, String, List, [], ◌∷◌, ◌==◌, ==_iff, nat_eq, ◌≡◌, refl, sym, ap, ◌∙◌, ok, ◌>>=◌,
  >>=-eq-ok, accept-eq-ok, ok-injective, Bool-cases, inl, inr, subst,
}
use hp_guardian.Json.{JsonValues, Fault}
use hp_guardian.Simulator.Trace.{
  TraceError, TraceEvent, trace_error, invalid_sequence, in_order, parse_event, read_line,
  read_lines, parse_trace, lines_of, is_blank, or_reject, invalid_json,
}

abbrev pub Numbered : ℕ → List TraceEvent → Type 0
Numbered k [] = Unit
Numbered k (event ∷ events) = (event.sequence ≡ k) × Numbered (k + 1) events

in_order-sequence :
    (line k : ℕ) (event out : TraceEvent) → in_order line k event ≡ ok out → out.sequence ≡ k
in_order-sequence line k event out e =
    let (same, kept) =
      accept-eq-ok (event.sequence == k) (trace_error invalid_sequence line) (ok event) e in
    let moved : event ≡ out = ok-injective {E = Fault TraceError} kept in
    ap (λ x. x.sequence) (sym moved) ∙ (==_iff event.sequence k).0 same

module _ (json : JsonValues) where
  read_line-sequence :
      (line k : ℕ) (text : String) (event : TraceEvent)
      → read_line json line k text ≡ ok event
      → event.sequence ≡ k
  unfolding read_line
  read_line-sequence line k text event e =
      let (value, e1, r1) = >>=-eq-ok (or_reject invalid_json line (json.from_str text)) _ e in
      let (parsed, e2, r2) = >>=-eq-ok (parse_event json value line) _ r1 in
      in_order-sequence line k parsed event r2

  read_lines-Numbered :
      (texts : List String) (line k : ℕ) (events : List TraceEvent)
      → read_lines json line k texts ≡ ok events
      → Numbered k events
  unfolding read_lines
  read_lines-Numbered [] line k events e =
      subst (Numbered k) (ok-injective {E = Fault TraceError} e) tt
  read_lines-Numbered (text ∷ texts) line k events e = elim (Bool-cases (is_blank text)) [
    | inl blank ↦
        let step : read_lines json line k (text ∷ texts) ≡ read_lines json (line + 1) k texts =
          rw (read_lines, blank) refl in
        read_lines-Numbered texts (line + 1) k events (sym step ∙ e)
    | inr filled ↦
        let step : read_lines json line k (text ∷ texts) ≡ (
            read_line json line k text >>= (λ event.
              read_lines json (line + 1) (k + 1) texts >>= (λ rest. ok (event ∷ rest)))) =
          rw (read_lines, filled) refl in
        let (event, e1, r1) = >>=-eq-ok (read_line json line k text) _ (sym step ∙ e) in
        let (rest, e2, r2) = >>=-eq-ok (read_lines json (line + 1) (k + 1) texts) _ r1 in
        subst (Numbered k) (ok-injective {E = Fault TraceError} r2) (
          read_line-sequence line k text event e1,
          read_lines-Numbered texts (line + 1) (k + 1) rest e2,
        )
  ]

  -- The events of a trace that is accepted have the sequences 1, 2, 3 and so on.
  pub parse_trace-Numbered :
      (trace : String) (events : List TraceEvent)
      → parse_trace json trace ≡ ok events
      → Numbered 1 events
  unfolding parse_trace
  parse_trace-Numbered trace events e = read_lines-Numbered (lines_of trace) 1 1 events e
