-- ===== src/Simulate.antt =====
-- src/bin/hp-guard-simulate.rs: the command line of the simulator.
pub mod Printed
use hp_guardian.Prelude.{
  ℕ, String, ◌⧺◌, join, Bool, true, false, not, ◌&&◌, Option, none, some, List, [], ◌∷◌,
  if◌then◌else◌, ◌==◌, string_eq, Result, ok, err, ok_or, ◌>>=◌, map_err,
}
use hp_guardian.Models.{PolicyError, Instant}
use hp_guardian.Parser.{Yaml}
use hp_guardian.Parser.Conditions.{Formats}
use hp_guardian.Json.{JsonValues, collect, Fault, rejected, panicked}
use hp_guardian.Simulator.{SimulationPolicy, SimulationReport, parse_policy, simulate_trace}
use hp_guardian.Simulator.Trace.{TraceError, code_text}

pub record Arguments : Type 0 where
  pub policy : String
  pub trace : String
  pub compare : Option String

pub record CliError : Type 0 where
  pub code : String
  pub line : Option ℕ

abbrev pub cli_error : String → CliError
cli_error c = record { code = c; line = none }

-- The three variables of `parse_arguments`.
pub record Given : Type 0 where
  pub policy : Option String
  pub trace : Option String
  pub compare : Option String

abbrev pub is_none : Option String → Bool
is_none none = true
is_none (some s) = false

-- The match on an argument and its value.
abbrev pub take_option : Given → String → String → Result CliError Given
take_option g argument value =
    if argument == "--policy" && is_none g.policy
    then ok (record g { policy = some value })
    else if argument == "--trace" && is_none g.trace
    then ok (record g { trace = some value })
    else if argument == "--compare" && is_none g.compare
    then ok (record g { compare = some value })
    else err (cli_error "invalid_arguments")

-- The loop of `parse_arguments`, two arguments at a time.
unfoldable pub take_options : Given → List String → Result CliError Given
take_options g [] = ok g
take_options g (argument ∷ []) = err (cli_error "invalid_arguments")
take_options g (argument ∷ value ∷ rest) = do
  taken ← take_option g argument value
  take_options taken rest

abbrev pub nothing_given : Given
nothing_given = record { policy = none; trace = none; compare = none }

unfoldable pub parse_arguments : List String → Result CliError Arguments
unfolding take_options
parse_arguments arguments = do
  g ← take_options nothing_given arguments
  policy ← ok_or g.policy (cli_error "invalid_arguments")
  trace ← ok_or g.trace (cli_error "invalid_arguments")
  ok (record { policy = policy; trace = trace; compare = g.compare })

-- The files, the clock and the standard output of a run. `report_text` is the JSON library's text.
-- `write_all` is the n-th write to the output: where it fails, it tells what was written before.
pub record Machine : Type 0 where
  pub read_to_string : String → Option String
  pub clock : ℕ → Instant
  pub report_text : SimulationReport → Option String
  pub write_all : ℕ → String → Result String (Unit {0})

module _ (yaml : Yaml) (formats : Formats) (sha256 : String → List ℕ) (json : JsonValues)
    (machine : Machine) where
  abbrev pub Run : Type 0 → Type 0
  Run A = Result (Fault CliError) A

  abbrev pub read_file : String → Run String
  read_file path = ok_or (machine.read_to_string path) (rejected (cli_error "io_error"))

  abbrev pub policy_of : String → Run SimulationPolicy
  policy_of text =
      map_err (λ e. rejected (cli_error (hp_guardian.Models.code e)))
        (parse_policy yaml formats sha256 text)

  abbrev pub trace_fault : Fault TraceError → Fault CliError
  trace_fault (rejected e) = rejected (record { code = code_text e.code; line = some e.line })
  trace_fault panicked = panicked

  -- `transpose` on an optional step.
  abbrev pub optional : {A B : Type 0} → (A → Run B) → Option A → Run (Option B)
  optional f none = ok none
  optional f (some x) = elim (f x) [ ok y ↦ ok (some y) | err e ↦ err e ]

  -- What the output has after a write, and whether it succeeded.
  abbrev pub wrote : String → String → Result String (Unit {0}) → String × Run (Unit {0})
  wrote before text (ok u) = (before ⧺ text, ok tt)
  wrote before text (err part) = (before ⧺ part, err (rejected (cli_error "io_error")))

  -- Two writes: the lines, and behind them a newline.
  unfoldable pub write_output : String → String × Run (Unit {0})
  write_output output = if output == "" then ("", ok tt) else elim (machine.write_all 0 output) [
    | err part ↦ wrote "" output (err part)
    | ok u ↦ wrote output "\n" (machine.write_all 1 "\n")
  ]

  -- The steps before the output, which give its lines.
  unfoldable pub report_lines : List String → Run String
  unfolding parse_arguments
  report_lines args = do
    arguments ← map_err rejected (parse_arguments args)
    baseline_text ← read_file arguments.policy
    trace ← read_file arguments.trace
    baseline ← policy_of baseline_text
    candidate_text ← optional read_file arguments.compare
    candidate ← optional policy_of candidate_text
    reports ← map_err trace_fault (simulate_trace json machine.clock baseline candidate trace)
    texts ← ok_or (collect machine.report_text reports) (rejected (cli_error "serialization_error"))
    ok (join "\n" texts)

  -- A run, with what it writes to the output.
  unfoldable pub run : List String → String × Run (Unit {0})
  unfolding report_lines write_output
  run args = elim (report_lines args) [ err e ↦ ("", err e) | ok output ↦ write_output output ]
