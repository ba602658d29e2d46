-- ===== src/Tests/Traces.antt =====
-- A trace of a blank line and an event, and its simulation.
use hp_guardian.Prelude.{
  join, err, String, string_eq, if◌then◌else◌, ◌==◌, ℕ, nat_eq, List, zero, suc, ◌<◌, true, false,
  none, some, [], ◌∷◌, ◌≡◌, refl, arith, All, length, list_eq, replicate, ok,
}
use hp_guardian.Prelude.Map.{get, contains_key}
use hp_guardian.Models.{allow, deny, default_call}
use hp_guardian.Engine.{with_version, resolve_call_at}
use hp_guardian.Parser.{Yaml, pos, trim}
use hp_guardian.Parser.Conditions.{Formats}
use hp_guardian.Parser.Policy.{parse}
use hp_guardian.Simulate.{Machine, run}
use hp_guardian.Simulate.Printed.{Printed, run-Printed}
use hp_guardian.Audit.Records.{to_hex}
use hp_guardian.Simulator.{SimulationPolicy, SimulationReport, parse_policy, simulate_trace}
use hp_guardian.Simulator.Reports.{AllReports, simulate_trace-AllReports}
use hp_guardian.Simulator.Digests.{to_hex-is_lowercase_sha256}
use hp_guardian.Simulator.Trace.{TraceEvent, lines_of, parse_trace, is_lowercase_sha256}
use hp_guardian.Simulator.Trace.Placed.{Placed, parse_trace-Placed}
use hp_guardian.Simulator.Trace.Numbered.{Numbered, parse_trace-Numbered}
use hp_guardian.Tests.Boundaries.{numbered_values}

three_lines : lines_of "a\r\n\n{}" ≡ "a" ∷ "" ∷ "{}" ∷ []
unfolding lines_of
three_lines = refl

abbrev event : TraceEvent
event = record { sequence = 1; event_id = none; call = default_call; expected = none }

parsed : parse_trace numbered_values " \n{}\n" ≡ ok (event ∷ [])
unfolding parse_trace get contains_key trim
parsed = refl

parse_trace-Numbered_example : Numbered 1 (event ∷ [])
parse_trace-Numbered_example = parse_trace-Numbered numbered_values " \n{}\n" (event ∷ []) parsed

parse_trace-Placed_example :
    Placed 1 (length (lines_of "{}\n[")) (parse_trace numbered_values "{}\n[")
parse_trace-Placed_example = parse_trace-Placed numbered_values "{}\n["

abbrev allow_all : SimulationPolicy
allow_all = record {
  identity = record { version = 1; sha256 = "d" };
  engine = with_version [] allow 1 [];
}

abbrev deny_all : SimulationPolicy
deny_all = record {
  identity = record { version = 1; sha256 = "e" };
  engine = with_version [] deny 1 [];
}

abbrev changed_report : SimulationReport
changed_report = record {
  version = 1;
  sequence = 1;
  event_id = none;
  expected = none;
  results =
      record {
        policy = allow_all.identity;
        decision = allow;
        matched_rules = [];
        matches_expected = none;
      }
      ∷ record {
        policy = deny_all.identity;
        decision = deny;
        matched_rules = [];
        matches_expected = none;
      }
      ∷ [];
  comparison = some (record { action_changed = true; matched_rules_changed = false });
}

simulated :
    simulate_trace numbered_values (λ n. n) allow_all (some deny_all) " \n{}\n"
    ≡ ok (changed_report ∷ [])
unfolding simulate_trace parse_trace get contains_key trim resolve_call_at
simulated = refl

simulate_trace-AllReports_example :
    (events : List TraceEvent) × (parse_trace numbered_values " \n{}\n" ≡ ok events)
    × AllReports (λ n. n) allow_all (some deny_all) events (changed_report ∷ [])
simulate_trace-AllReports_example =
    simulate_trace-AllReports numbered_values (λ n. n) allow_all (some deny_all) " \n{}\n"
      (changed_report ∷ []) simulated

small_bytes : (n : ℕ) → All (λ b. b < 256) (replicate n 171)
small_bytes zero = tt
small_bytes (suc n) = (omega arith, small_bytes n)

to_hex-is_lowercase_sha256_example : is_lowercase_sha256 (to_hex (replicate 32 171)) ≡ true
to_hex-is_lowercase_sha256_example =
    to_hex-is_lowercase_sha256 (replicate 32 171) refl (small_bytes 32)

-- A policy that has its version alone: the mapping is 0, its key 1 and the version 2.
abbrev version_yaml : Yaml
version_yaml = record {
  Value = ℕ;
  from_str = λ text. if text == "version: 1" then ok 0 else err "no document";
  as_str = λ v. if v == 1 then some "version" else none;
  as_i64 = λ v. if v == 2 then some (pos 1) else none;
  as_u64 = λ v. none;
  as_sequence = λ v. none;
  as_mapping = λ v. if v == 0 then some ((1, 2) ∷ []) else none;
  to_string = λ v. none;
  i64_text = λ z. "1";
}

abbrev no_formats : Formats
no_formats = record { parse_from_rfc3339 = λ s. none; character_text = λ c. "?" }

abbrev two_files : Machine
two_files = record {
  read_to_string = λ path.
      if path == "p" then some "version: 1" else if path == "t" then some " \n{}\n" else none;
  clock = λ n. n;
  report_text = λ r. some "r";
  write_all = λ n text. ok tt;
}

abbrev arguments : List String
arguments = "--policy" ∷ "p" ∷ "--trace" ∷ "t" ∷ []

ran : run version_yaml no_formats (λ text. []) numbered_values two_files arguments ≡ ("r\n", ok tt)
unfolding run parse_policy parse simulate_trace parse_trace get contains_key trim resolve_call_at
    join
ran = refl

run-Printed_example :
    Printed version_yaml no_formats (λ text. []) numbered_values two_files arguments "r\n"
run-Printed_example =
    run-Printed version_yaml no_formats (λ text. []) numbered_values two_files arguments "r\n" ran
