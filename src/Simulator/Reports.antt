-- ===== src/Simulator/Reports.antt =====
-- What the reports of a simulation say.
use hp_guardian.Prelude.{
  ℕ, ◌+◌, String, true, Option, none, some, List, [], ◌∷◌, ==_iff, nat_eq, string_eq, list_eq, ◌≡◌,
  ◌≢◌, ◌↔◌, refl, subst, arith, ok, >>=-eq-ok, ok-injective,
}
use hp_guardian.Models.{action_eq, Instant}
use hp_guardian.Engine.{resolve_call_at}
use hp_guardian.Json.{JsonValues, Fault}
use hp_guardian.Simulator.{
  SimulationPolicy, SimulationResult, SimulationComparison, SimulationReport, as_expected,
  compare_results, simulate_policy, simulate_event, simulate_events, simulate_trace,
}
use hp_guardian.Simulator.Trace.{TraceEvent, TraceError, parse_trace}

-- A result is the decision of the policy on the event, at one reading of the clock.
pub record Simulates (clock : ℕ → Instant) (policy : SimulationPolicy) (event : TraceEvent)
    (r : SimulationResult) : Type 0 where
  pub reading : ℕ
  pub same_policy : r.policy ≡ policy.identity
  pub same_action : r.decision ≡ (resolve_call_at policy.engine event.call (clock reading)).action
  pub same_rules :
      r.matched_rules ≡ (resolve_call_at policy.engine event.call (clock reading)).matched_rules
  pub same_match :
      r.matches_expected
      ≡ as_expected event.expected policy.identity
          (resolve_call_at policy.engine event.call (clock reading))

-- The flags of a comparison tell what differs between the two results.
pub record Compares (a b : SimulationResult) (c : SimulationComparison) : Type 0 where
  pub action_iff : (c.action_changed ≡ true) ↔ (a.decision ≢ b.decision)
  pub rules_iff : (c.matched_rules_changed ≡ true) ↔ (a.matched_rules ≢ b.matched_rules)

pub data Results (clock : ℕ → Instant) (event : TraceEvent) (baseline : SimulationPolicy)
    : Option SimulationPolicy → List SimulationResult → Option SimulationComparison → Type 0 where
  alone :
      {a : SimulationResult}
      → Simulates clock baseline event a
      → Results clock event baseline none (a ∷ []) none
  compared :
      {candidate : SimulationPolicy} {a b : SimulationResult} {c : SimulationComparison}
      → Simulates clock baseline event a
      → Simulates clock candidate event b
      → Compares a b c
      → Results clock event baseline (some candidate) (a ∷ b ∷ []) (some c)

pub record Reports (clock : ℕ → Instant) (baseline : SimulationPolicy)
    (candidate : Option SimulationPolicy) (event : TraceEvent) (r : SimulationReport) : Type 0 where
  pub same_sequence : r.sequence ≡ event.sequence
  pub same_id : r.event_id ≡ event.event_id
  pub same_expected : r.expected ≡ event.expected
  pub results : Results clock event baseline candidate r.results r.comparison

-- One report for each event, in order.
abbrev pub AllReports :
    (ℕ → Instant)
    → SimulationPolicy
    → Option SimulationPolicy
    → List TraceEvent
    → List SimulationReport
    → Type 0
AllReports clock baseline candidate [] [] = Unit
AllReports clock baseline candidate (event ∷ events) (r ∷ reports) =
    Reports clock baseline candidate event r × AllReports clock baseline candidate events reports
AllReports clock baseline candidate _ _ = ⊥

simulate_policy-Simulates :
    (clock : ℕ → Instant) (n : ℕ) (policy : SimulationPolicy) (event : TraceEvent)
    → Simulates clock policy event (simulate_policy (clock n) policy event)
unfolding simulate_policy
simulate_policy-Simulates clock n policy event = record {
  reading = n;
  same_policy = refl;
  same_action = refl;
  same_rules = refl;
  same_match = refl;
}

compare_results-Compares : (a b : SimulationResult) → Compares a b (compare_results a b)
compare_results-Compares a b = record {
  action_iff = ground (arith, ==_iff a.decision b.decision);
  rules_iff = ground (arith, ==_iff a.matched_rules b.matched_rules);
}

simulate_event-Reports :
    (clock : ℕ → Instant) (now later : ℕ) (event : TraceEvent) (baseline : SimulationPolicy)
    (candidate : Option SimulationPolicy)
    → Reports clock baseline candidate event
        (simulate_event (clock now) (clock later) event baseline candidate)
unfolding simulate_event
simulate_event-Reports clock now later event baseline none = record {
  same_sequence = refl;
  same_id = refl;
  same_expected = refl;
  results = alone (simulate_policy-Simulates clock now baseline event);
}
simulate_event-Reports clock now later event baseline (some candidate) = record {
  same_sequence = refl;
  same_id = refl;
  same_expected = refl;
  results =
      compared (simulate_policy-Simulates clock now baseline event)
        (simulate_policy-Simulates clock later candidate event) (compare_results-Compares _ _);
}

simulate_events-AllReports :
    (clock : ℕ → Instant) (n : ℕ) (events : List TraceEvent) (baseline : SimulationPolicy)
    (candidate : Option SimulationPolicy)
    → AllReports clock baseline candidate events (simulate_events clock n events baseline candidate)
unfolding simulate_events
simulate_events-AllReports clock n [] baseline candidate = tt
simulate_events-AllReports clock n (event ∷ events) baseline none = (
  simulate_event-Reports clock n n event baseline none,
  simulate_events-AllReports clock (n + 1) events baseline none,
)
simulate_events-AllReports clock n (event ∷ events) baseline (some candidate) = (
  simulate_event-Reports clock n (n + 1) event baseline (some candidate),
  simulate_events-AllReports clock (n + 2) events baseline (some candidate),
)

-- A simulation that succeeds has read the whole trace, and gives one report for each event, in order:
-- with the decision of each policy on the call, at a reading of the clock, and with a comparison
-- exactly where there is a candidate, whose flags tell whether the actions and the matched rules
-- differ.
pub simulate_trace-AllReports :
    (json : JsonValues) (clock : ℕ → Instant) (baseline : SimulationPolicy)
    (candidate : Option SimulationPolicy) (trace : String) (reports : List SimulationReport)
    → simulate_trace json clock baseline candidate trace ≡ ok reports
    → (events : List TraceEvent) × (parse_trace json trace ≡ ok events)
      × AllReports clock baseline candidate events reports
unfolding simulate_trace
simulate_trace-AllReports json clock baseline candidate trace reports e =
    let (events, parsed, built) = >>=-eq-ok (parse_trace json trace) _ e in
    (
      events,
      parsed,
      subst (AllReports clock baseline candidate events) (ok-injective {E = Fault TraceError} built)
          (simulate_events-AllReports clock 0 events baseline candidate),
    )
