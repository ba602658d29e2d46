-- ===== src/Simulator.antt =====
-- src/simulator.rs: traces of calls, and their simulation under one policy or two.
pub mod Trace
pub mod Reports
pub mod Digests
use hp_guardian.Prelude.{
  ℕ, zero, suc, ◌+◌, String, Bool, true, false, not, ◌&&◌, Option, none, some, List, [], ◌∷◌,
  if◌then◌else◌, ◌==◌, Eq, nat_eq, string_eq, list_eq, Result, ok, err, ◌>>=◌,
}
use hp_guardian.Models.{Action, action_eq, PolicyError, Decision, PolicyCall, Instant}
use hp_guardian.Engine.{Engine, resolve_call_at}
use hp_guardian.Parser.{Yaml}
use hp_guardian.Parser.Conditions.{Formats}
use hp_guardian.Parser.Policy.{parse}
use hp_guardian.Json.{JsonValues, Fault}
use hp_guardian.Adapter.{PolicyIdentity}
use hp_guardian.Audit.Records.{to_hex}
use hp_guardian.Simulator.Trace.{ExpectedMetadata, TraceEvent, TraceError, parse_trace}

pub record SimulationPolicy : Type 0 where
  pub identity : PolicyIdentity
  pub engine : Engine

-- `SimulationPolicy::parse`
unfoldable pub parse_policy :
    Yaml → Formats → (String → List ℕ) → String → Result PolicyError SimulationPolicy
unfolding to_hex
parse_policy yaml formats sha256 policy_text = do
  engine ← parse yaml formats policy_text
  ok (record {
    identity = record { version = 1; sha256 = to_hex (sha256 policy_text) };
    engine = engine;
  })

pub record SimulationResult : Type 0 where
  pub policy : PolicyIdentity
  pub decision : Action
  pub matched_rules : List ℕ
  pub matches_expected : Option Bool

pub record SimulationComparison : Type 0 where
  pub action_changed : Bool
  pub matched_rules_changed : Bool

pub record SimulationReport : Type 0 where
  pub version : ℕ
  pub sequence : ℕ
  pub event_id : Option String
  pub expected : Option ExpectedMetadata
  pub results : List SimulationResult
  pub comparison : Option SimulationComparison

-- The derived `PartialEq`.
abbrev pub beq_identity : PolicyIdentity → PolicyIdentity → Bool
beq_identity a b = a.version == b.version && a.sha256 == b.sha256

-- `matches_expected` in `simulate_policy`.
abbrev pub as_expected : Option ExpectedMetadata → PolicyIdentity → Decision → Option Bool
as_expected none identity d = none
as_expected (some e) identity d =
    if beq_identity e.policy identity
    then some (e.decision == d.action && e.matched_rules == d.matched_rules)
    else none

-- The clock is read once for each policy and event.
unfoldable pub simulate_policy : Instant → SimulationPolicy → TraceEvent → SimulationResult
simulate_policy now policy event =
    let d = resolve_call_at policy.engine event.call now in
    record {
      policy = policy.identity;
      decision = d.action;
      matched_rules = d.matched_rules;
      matches_expected = as_expected event.expected policy.identity d;
    }

abbrev pub compare_results : SimulationResult → SimulationResult → SimulationComparison
compare_results a b = record {
  action_changed = not (a.decision == b.decision);
  matched_rules_changed = not (a.matched_rules == b.matched_rules);
}

abbrev pub report :
    TraceEvent → List SimulationResult → Option SimulationComparison → SimulationReport
report event results comparison = record {
  version = 1;
  sequence = event.sequence;
  event_id = event.event_id;
  expected = event.expected;
  results = results;
  comparison = comparison;
}

-- The two instants are the readings for the baseline and for the candidate.
unfoldable pub simulate_event :
    Instant → Instant → TraceEvent → SimulationPolicy → Option SimulationPolicy → SimulationReport
unfolding simulate_policy
simulate_event now later event baseline none =
    report event (simulate_policy now baseline event ∷ []) none
simulate_event now later event baseline (some candidate) =
    let first = simulate_policy now baseline event in
    let second = simulate_policy later candidate event in
    report event (first ∷ second ∷ []) (some (compare_results first second))

-- `clock n` is the reading `n` of the clock; the second argument is the next one.
unfoldable pub simulate_events :
    (ℕ → Instant)
    → ℕ
    → List TraceEvent
    → SimulationPolicy
    → Option SimulationPolicy
    → List SimulationReport
unfolding simulate_event
simulate_events clock n [] baseline candidate = []
simulate_events clock n (event ∷ events) baseline none =
    simulate_event (clock n) (clock n) event baseline none
    ∷ simulate_events clock (n + 1) events baseline none
simulate_events clock n (event ∷ events) baseline (some candidate) =
    simulate_event (clock n) (clock (n + 1)) event baseline (some candidate)
    ∷ simulate_events clock (n + 2) events baseline (some candidate)

unfoldable pub simulate_trace :
    JsonValues
    → (ℕ → Instant)
    → SimulationPolicy
    → Option SimulationPolicy
    → String
    → Result (Fault TraceError) (List SimulationReport)
unfolding simulate_events
simulate_trace json clock baseline candidate trace = do
  events ← parse_trace json trace
  ok (simulate_events clock 0 events baseline candidate)
