-- ===== src/Simulate/Printed.antt =====
-- What stands behind the output of the command line.
use hp_guardian.Prelude.{
  ℕ, String, ◌⧺◌, join, Option, none, some, List, ◌==◌, ==_iff, string_eq, ◌≡◌, ◌≢◌, arith, Result,
  Bool-cases, refl, sym, ap, subst, ◌∙◌, inl, inr, ok, err, ok_or, ok_or-eq-ok, >>=-eq-ok, map_err,
  map_err-eq-ok, ok-injective, Result-cases,
}
use hp_guardian.Parser.{Yaml}
use hp_guardian.Parser.Conditions.{Formats}
use hp_guardian.Json.{JsonValues, collect, Fault, rejected}
use hp_guardian.Simulator.{SimulationPolicy, SimulationReport, parse_policy, simulate_trace}
use hp_guardian.Simulator.Trace.{TraceEvent, parse_trace}
use hp_guardian.Simulator.Reports.{AllReports, simulate_trace-AllReports}
use hp_guardian.Simulate.{
  Arguments, CliError, cli_error, parse_arguments, Machine, Run, read_file, policy_of, trace_fault,
  optional, wrote, write_output, report_lines, run,
}

module _ (yaml : Yaml) (formats : Formats) (sha256 : String → List ℕ) (json : JsonValues)
    (machine : Machine) where
  -- The policy of a file.
  pub record Loaded (path : String) (policy : SimulationPolicy) : Type 0 where
    pub text : String
    pub is_text : machine.read_to_string path ≡ some text
    pub is_policy : parse_policy yaml formats sha256 text ≡ ok policy

  pub data Candidate : Option String → Option SimulationPolicy → Type 0 where
    alone : Candidate none none
    against :
        {path : String} {policy : SimulationPolicy}
        → Loaded path policy
        → Candidate (some path) (some policy)

  -- What a successful output of a text writes.
  pub data Output (text : String) : String → Type 0 where
    silent : text ≡ "" → Output text ""
    printed :
        text ≢ ""
        → machine.write_all 0 text ≡ ok tt
        → machine.write_all 1 "\n" ≡ ok tt
        → Output text (text ⧺ "\n")

  pub record Prepared (args : List String) (lines : String) : Type 0 where
    pub arguments : Arguments
    pub baseline : SimulationPolicy
    pub candidate : Option SimulationPolicy
    pub trace : String
    pub events : List TraceEvent
    pub reports : List SimulationReport
    pub texts : List String
    pub is_parsed : parse_arguments args ≡ ok arguments
    pub is_baseline : Loaded arguments.policy baseline
    pub is_candidate : Candidate arguments.compare candidate
    pub is_trace : machine.read_to_string arguments.trace ≡ some trace
    pub is_valid : parse_trace json trace ≡ ok events
    pub reported : AllReports machine.clock baseline candidate events reports
    pub serialized : collect machine.report_text reports ≡ some texts
    pub joined : lines ≡ join "\n" texts

  pub record Printed (args : List String) (written : String) : Type 0 where
    pub lines : String
    pub prepared : Prepared args lines
    pub is_output : Output lines written

  read_file-ok :
      (path text : String)
      → read_file yaml formats sha256 json machine path ≡ ok text
      → machine.read_to_string path ≡ some text
  read_file-ok path text e =
      ok_or-eq-ok (machine.read_to_string path) (rejected (cli_error "io_error")) e

  policy_of-ok :
      (text : String) (p : SimulationPolicy)
      → policy_of yaml formats sha256 json machine text ≡ ok p
      → parse_policy yaml formats sha256 text ≡ ok p
  policy_of-ok text p e = map_err-eq-ok _ (parse_policy yaml formats sha256 text) e

  wrote-ok :
      (before text written : String) (r : Result String (Unit {0}))
      → wrote yaml formats sha256 json machine before text r ≡ (written, ok tt)
      → (r ≡ ok tt) × (before ⧺ text ≡ written)
  wrote-ok before text written (ok u) e = (refl, cc e)
  wrote-ok before text written (err part) e = cc e

  write_output-ok :
      (text written : String)
      → write_output yaml formats sha256 json machine text ≡ (written, ok tt)
      → Output text written
  unfolding write_output
  write_output-ok text written e = elim (Bool-cases (text == "")) [
    | inl empty ↦
        let nothing : "" ≡ written = ground (arith, e, empty) in
        subst (Output text) nothing (silent ((==_iff text "").0 empty))
    | inr filled ↦
        let some_text : text ≢ "" = λ same. cc ((==_iff text "").1 same, filled) in
        elim (Result-cases (machine.write_all 0 text)) [
          | inl (u, first) ↦
              let (second, same) =
                wrote-ok text "\n" written (machine.write_all 1 "\n")
                  (rw (write_output, filled, first) at e) in
              subst (Output text) same (printed some_text first second)
          | inr (part, broken) ↦ cc (rw (write_output, filled, broken) at e)
        ]
  ]

  some-ok :
      {A B : Type 0} (f : A → Run yaml formats sha256 json machine B) (x : A) (o : Option B)
      → optional yaml formats sha256 json machine f (some x) ≡ ok o
      → (y : B) × (f x ≡ ok y) × (o ≡ some y)
  some-ok f x o e = elim (Result-cases (f x)) [
    | inl (y, good) ↦
        (y, good, ok-injective {E = Fault CliError} (sym e ∙ rw (optional, good) refl))
    | inr (fault, bad) ↦ cc (e, bad)
  ]

  optional-Candidate :
      (compare : Option String) (text : Option String) (candidate : Option SimulationPolicy)
      → optional yaml formats sha256 json machine
          (read_file yaml formats sha256 json machine)
          compare
        ≡ ok text
      → optional yaml formats sha256 json machine (policy_of yaml formats sha256 json machine) text
        ≡ ok candidate
      → Candidate compare candidate
  optional-Candidate none none candidate e e' =
      subst (Candidate none) (ok-injective {E = Fault CliError} e') alone
  optional-Candidate none (some text) candidate e e' = cc e
  optional-Candidate (some path) none candidate e e' =
      let (text, read, same) = some-ok (read_file yaml formats sha256 json machine) path none e in
      cc same
  optional-Candidate (some path) (some text) candidate e e' =
      let (content, read, same) =
        some-ok (read_file yaml formats sha256 json machine) path (some text) e in
      let (policy, parsed, kept) =
        some-ok (policy_of yaml formats sha256 json machine) text candidate e' in
      let same_text : content ≡ text = cc same in
      subst (Candidate (some path)) (sym kept) (
        against (record {
          text = text;
          is_text = read_file-ok path content read ∙ ap some same_text;
          is_policy = policy_of-ok text policy parsed;
        }))

  report_lines-ok :
      (args : List String) (lines : String)
      → report_lines yaml formats sha256 json machine args ≡ ok lines
      → Prepared args lines
  unfolding report_lines
  report_lines-ok args lines e =
      let (arguments, e1, r1) = >>=-eq-ok (map_err rejected (parse_arguments args)) _ e in
      let (baseline_text, e2, r2) =
        >>=-eq-ok (read_file yaml formats sha256 json machine arguments.policy) _ r1 in
      let (trace, e3, r3) =
        >>=-eq-ok (read_file yaml formats sha256 json machine arguments.trace) _ r2 in
      let (baseline, e4, r4) =
        >>=-eq-ok (policy_of yaml formats sha256 json machine baseline_text) _ r3 in
      let (candidate_text, e5, r5) =
        >>=-eq-ok
          (optional yaml formats sha256 json machine (read_file yaml formats sha256 json machine)
            arguments.compare)
          _ r4 in
      let (candidate, e6, r6) =
        >>=-eq-ok
          (optional yaml formats sha256 json machine (policy_of yaml formats sha256 json machine)
            candidate_text)
          _ r5 in
      let (reports, e7, r7) =
        >>=-eq-ok
          (map_err (trace_fault yaml formats sha256 json machine)
            (simulate_trace json machine.clock baseline candidate trace))
          _ r6 in
      let (texts, e8, r8) =
        >>=-eq-ok
          (ok_or (collect machine.report_text reports) (rejected (cli_error "serialization_error")))
          _ r7 in
      let simulated =
        map_err-eq-ok (trace_fault yaml formats sha256 json machine)
          (simulate_trace json machine.clock baseline candidate trace) e7 in
      let (events, valid, reported) =
        simulate_trace-AllReports json machine.clock baseline candidate trace reports simulated in
      record {
        arguments = arguments;
        baseline = baseline;
        candidate = candidate;
        trace = trace;
        events = events;
        reports = reports;
        texts = texts;
        is_parsed = map_err-eq-ok rejected (parse_arguments args) e1;
        is_baseline = record {
          text = baseline_text;
          is_text = read_file-ok arguments.policy baseline_text e2;
          is_policy = policy_of-ok baseline_text baseline e4;
        };
        is_candidate = optional-Candidate arguments.compare candidate_text candidate e5 e6;
        is_trace = read_file-ok arguments.trace trace e3;
        is_valid = valid;
        reported = reported;
        serialized =
            ok_or-eq-ok (collect machine.report_text reports)
              (rejected (cli_error "serialization_error")) e8;
        joined = sym (ok-injective {E = Fault CliError} r8);
      }

  -- A run that succeeds has read its arguments, its policies and the whole trace. What it writes is
  -- the texts of the reports, one for each event and in the events' order, with a newline between
  -- them, and in a second write a newline behind the last; where this text is empty, it writes
  -- nothing.
  pub run-Printed :
      (args : List String) (written : String)
      → run yaml formats sha256 json machine args ≡ (written, ok tt)
      → Printed args written
  unfolding run
  run-Printed args written e =
      elim (Result-cases (report_lines yaml formats sha256 json machine args)) [
        | inl (lines, prepared) ↦ record {
          lines = lines;
          prepared = report_lines-ok args lines prepared;
          is_output = write_output-ok lines written (rw (run, prepared) at e);
        }
        | inr (fault, bad) ↦ cc (rw (run, bad) at e)
      ]
