-- ===== src/State.antt =====
-- src/state.rs: the fixed-window quota store, and the resolver of rate-limited policies.
pub mod Window
pub mod Consume
pub mod History
pub mod Quota
pub mod Capacity
pub mod Resolver
pub mod Answers
pub mod Loading
use hp_guardian.Prelude.{
  ℕ, ◌+◌, ◌-◌, ◌%◌, String, Bool, true, false, ◌&&◌, not, Option, none, some, List, [], ◌∷◌, length,
  select, if◌then◌else◌, ltb, leb, ◌==◌, Eq, nat_eq, string_eq, option_eq, ◌↔◌, ◌≡◌, arith, ==_iff,
  refl,
}
use hp_guardian.Prelude.Map.{Map, get, insert, contains_key}
use hp_guardian.Models.{
  Action, allow, throttle, action_eq, Decision, PolicyCall, RateLimit, Instant,
}
use hp_guardian.Engine.{Engine, resolve_call_with_selected_rule_at}

pub record RateLimitKey : Type 0 where
  pub policy_digest : String
  pub rule_index : ℕ
  pub agent : Option String
  pub user : Option String
  pub tool : Option String

-- The derived `PartialEq`.
abbrev pub beq_key : RateLimitKey → RateLimitKey → Bool
beq_key a b =
    a.policy_digest == b.policy_digest
    && a.rule_index == b.rule_index
    && a.agent == b.agent
    && a.user == b.user
    && a.tool == b.tool

pub beq_key_iff : (a b : RateLimitKey) → (beq_key a b ≡ true) ↔ (a ≡ b)
beq_key_iff a b = ground (
  arith,
  ==_iff a.policy_digest b.policy_digest,
  ==_iff a.agent b.agent,
  ==_iff a.user b.user,
  ==_iff a.tool b.tool,
)

instance abbrev pub key_eq : Eq RateLimitKey
key_eq = record { beq = beq_key; beq_iff = beq_key_iff }

-- What `check_and_consume` returns. `panicked` is the remainder by a zero `window_seconds`.
pub data Checked : Type 0 where
  consumed : Bool → Checked
  state_error : Checked
  panicked : Checked

-- A bucket is the start of its window and the slots consumed in it.
abbrev pub Buckets : Type 0
Buckets = Map RateLimitKey (ℕ × ℕ)

pub record StateInner : Type 0 where
  pub last_now : Option ℕ
  pub buckets : Buckets

-- `inner` behind its lock: `poisoned` is set by a panic of the thread that holds the lock.
pub record InMemoryRateLimitStore : Type 0 where
  pub inner : StateInner
  pub poisoned : Bool
  pub max_keys : ℕ

abbrev pub empty_inner : StateInner
empty_inner = record { last_now = none; buckets = [] }

-- `with_capacity`; `none` is its error.
unfoldable pub with_capacity : ℕ → Option InMemoryRateLimitStore
with_capacity max_keys =
    if max_keys == 0
    then none
    else some (record { inner = empty_inner; poisoned = false; max_keys = max_keys })

abbrev pub default_store : InMemoryRateLimitStore
default_store = record { inner = empty_inner; poisoned = false; max_keys = 10000 }

abbrev pub went_back : Option ℕ → ℕ → Bool
went_back none now = false
went_back (some last_now) now = ltb now last_now

abbrev pub window_start : ℕ → RateLimit → ℕ
window_start now limit = now - now % limit.window_seconds

-- The slots that a bucket has consumed in the window; another window's count does not carry over.
unfoldable pub count_in : ℕ → Option (ℕ × ℕ) → ℕ
count_in window none = 0
count_in window (some (start, count)) = if start == window then count else 0

-- `retain`: the buckets of the given window.
abbrev pub retain_window : ℕ → Buckets → Buckets
retain_window window = select (λ (key, (start, count)). start == window)

unfoldable pub make_room : ℕ → RateLimitKey → ℕ → Buckets → Buckets
make_room max_keys key window buckets =
    if not (contains_key buckets key) && leb max_keys (length buckets)
    then retain_window window buckets
    else buckets

-- The part behind the clock test, at the window's start and the count in it.
unfoldable pub consume : ℕ → RateLimitKey → RateLimit → ℕ → ℕ → Buckets → Buckets × Checked
consume max_keys key limit window count buckets =
    if leb limit.max_calls count
    then (insert buckets key (window, count), consumed false)
    else let kept = make_room max_keys key window buckets in
      if not (contains_key kept key) && leb max_keys (length kept)
      then (kept, state_error)
      else (insert kept key (window, count + 1), consumed true)

unfoldable pub check_and_consume :
    RateLimitKey → RateLimit → ℕ → InMemoryRateLimitStore → InMemoryRateLimitStore × Checked
check_and_consume key limit now store =
    let seen : StateInner = record { last_now = some now; buckets = store.inner.buckets } in
    let window = window_start now limit in
    let count = count_in window (get store.inner.buckets key) in
    let (buckets, checked) = consume store.max_keys key limit window count store.inner.buckets in
    if store.poisoned
    then (store, state_error)
    else if went_back store.inner.last_now now
    then (store, state_error)
    else if limit.window_seconds == 0
    then (record store { inner = seen; poisoned = true }, panicked)
    else (record store { inner = record { last_now = some now; buckets = buckets } }, checked)

-- The trait `RateLimitStore`, over the states of a store.
pub record RateLimitStore (S : Type 0) : Type 0 where
  pub check : RateLimitKey → RateLimit → ℕ → S → S × Checked

abbrev pub in_memory : RateLimitStore InMemoryRateLimitStore
in_memory = record { check = check_and_consume }

pub record RateLimitedPolicyStore : Type 0 where
  pub engine : Engine
  pub policy_digest : String

-- `Result<Decision, StateError>`, or the panic of the store.
pub data Resolved : Type 0 where
  decided : Decision → Resolved
  unavailable : Resolved
  panicked : Resolved

-- The part of `resolve` behind the store's answer.
abbrev pub after_check : Decision → Checked → Resolved
after_check decision (consumed true) = decided decision
after_check decision (consumed false) =
    decided (record { action = throttle; matched_rules = decision.matched_rules })
after_check decision state_error = unavailable
after_check decision Checked.panicked = Resolved.panicked

abbrev pub key_of : String → ℕ → PolicyCall → RateLimitKey
key_of policy_digest rule_index call = record {
  policy_digest = policy_digest;
  rule_index = rule_index;
  agent = call.agent;
  user = call.user;
  tool = call.tool;
}

-- The rate limit that governs a decision: that of the selected rule, if the rule allows.
unfoldable pub governing_limit : Engine → Decision → Option ℕ → Option (ℕ × RateLimit)
governing_limit engine decision none = none
governing_limit engine decision (some rule_index) =
    if decision.action == allow
    then elim (get engine.rate_limits rule_index) [
      | none ↦ none
      | some limit ↦ some (rule_index, limit)
    ]
    else none

-- `resolve` at the instant and the monotonic second that its clocks read.
unfoldable pub resolve :
    {S : Type 0}
    → RateLimitStore S
    → RateLimitedPolicyStore
    → PolicyCall
    → Instant
    → ℕ
    → S
    → S × Resolved
unfolding governing_limit
resolve states store call now now_seconds s =
    let (decision, selected_rule) = resolve_call_with_selected_rule_at store.engine call now in
    elim (governing_limit store.engine decision selected_rule) [
      | none ↦ (s, decided decision)
      | some (rule_index, limit) ↦
          let (s', checked) =
            states.check (key_of store.policy_digest rule_index call) limit now_seconds s in
          (s', after_check decision checked)
    ]
