-- ===== src/Lib.antt =====
-- The policy engine (src/*.rs): which rules apply to a call of a tool, what they decide, and
-- how quotas limit what they allow; the audit log that each decision is recorded in before it is
-- acted on; the boundary that hands allowed calls to a host; and the offline simulator of traces.
--
-- Models.antt (src/models.rs, src/logging.rs): actions, rules, condition trees, calls,
-- decisions and errors. An instant is its distance from the earliest representable instant;
-- a `BTreeMap` is an association list with distinct keys (Prelude/Map.antt).
-- Matching.antt (src/matching.rs): `rule_matches_rule`, entry by entry of a rule's target.
-- Conditions.antt (src/conditions.rs): `evaluate_condition` and its leaves. Its child
-- Conditions/Pattern.antt has the portable patterns and `parse_args_pattern`, one character at
-- a time; Conditions/Matcher.antt has `matches_from` with its table of results passed along,
-- where an index out of bounds is `none`; Conditions/Glob.antt has the rows of `path_matches`.
-- A text is the list of its characters, and the two indices of `matches_from` are kept beside
-- the lists that are left at them, so all of these are structural recursions without fuel.
-- Engine.antt (src/engine.rs): `resolve_call_with_selected_rule_at` and `resolve_call_at` on a
-- list of rules, at an explicit instant. The engine uses the two modules above as its filter.
-- State.antt (src/state.rs): `InMemoryRateLimitStore` as a value that each
-- `check_and_consume` returns anew, with the poisoned lock as a flag, and the resolver
-- `RateLimitedPolicyStore::resolve` over any store that has the interface `RateLimitStore`.
-- The lock makes calls on the store a sequence, so a history of calls is a list. A
-- count is a natural number, since the source adds one to a `u64` count only below a `u64`
-- `max_calls`. State/Loading.antt makes the resolver from a policy text.
--
-- Parser.antt (src/parser.rs): the parser of policies. The YAML library is the record `Yaml`
-- (a type of values with their views); the date library and the text of a character
-- are the record `Formats`. Parser/Conditions.antt has the condition trees:
-- `parse_condition` recurses on the levels that are left of MAX_CONDITION_DEPTH and passes the
-- number of nodes along. Parser/Targets.antt has targets and Parser/Rules.antt rules with their
-- rate limits over `Loading`, the values that the source changes in place; Parser/Policy.antt
-- has the documents. What is read is an `Engine`, the value that Engine.antt and State.antt resolve calls with.
--
-- Audit.antt (src/audit.rs, src/util.rs): the audit log and the store of the active policy.
-- Audit/Disk.antt is the part of the file system that the log uses: a map from the managed
-- names to files, and a monad `Io` in which each call that changes the disk uses up one of the
-- calls that the machine still makes. A machine that has none left stops: the call fails, and a
-- write may leave a beginning of its bytes. Audit/Rotation.antt has the rotation by a manifest and
-- its recovery; the children under Audit/Rotation describe each disk that a rotation goes
-- through (Layouts), and show step by step where it can stop (Outcomes to Converge).
-- Audit/Tails.antt has the lines of a file and the test of the bytes behind the last newline,
-- Audit/Log.antt the state of `AuditLog` with lease, recovery, pruning, rotation and append,
-- Audit/Records.antt snapshots, records and authorizations, and Audit/Store.antt the
-- `AuditedPolicyStore` over the interface `AuditSink`, which Audit/Store/OnDisk.antt fills with the
-- log on its disk. `Runs` and `Outcome` (Audit/Rotation/Outcomes.antt) are the rules for runs
-- that can stop, `Yields` (Audit/Yields.antt) those for runs that succeed. The loops over the
-- backups are structural in the number of backups that are left.
-- Json.antt is what is used of the values of the JSON library. Adapter.antt (src/adapter.rs)
-- reads requests and authorizes them through the store. Simulator.antt and
-- Simulator/Trace.antt with its child Fields (src/simulator.rs) read traces and run policies on them; the clock is a
-- function from the number of the reading. An `expect` that fails is the error `panicked`.
-- Simulate.antt (src/bin/hp-guard-simulate.rs): the command line of the simulator, with the files
-- and the standard output as the record `Machine`; a run returns what it has written beside its
-- answer, so that a write that fails can leave a part of its text.
--
-- Tests.antt and its children hold concrete values on which the theorems are applied.
--
-- Assumed: what was written before a stop is kept, a rename is one step, and reading the
-- metadata of a file does not fail. The directory holds the managed names alone. Within one
-- append the clock of the log gives one instant. The JSON library, SHA-256, `flock` and the
-- text of the next transaction and correlation id are parameters.
--
-- Not modelled: the demonstration in src/main.rs, which runs a fixed policy on two fixed
-- calls, the texts of the audit log's errors for people, the variants of file calls for systems that
-- are not Unix, and the second runtime in Python. The parts that read the wall clock take the
-- instant as an argument.
pub mod Prelude
pub mod Models
pub mod Matching
pub mod Conditions
pub mod Engine
pub mod State
pub mod Parser
pub mod Audit
pub mod Json
pub mod Adapter
pub mod Simulator
pub mod Simulate
mod Tests
