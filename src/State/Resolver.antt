-- ===== src/State/Resolver.antt =====
-- The resolver of rate-limited policies, over any store with the interface.
use hp_guardian.Prelude.{
  ℕ, Option, none, some, true, false, ◌≡◌, refl, ◌⊎◌, inl, inr, arith, Option-cases, nat_eq, ==_iff,
}
use hp_guardian.Prelude.Map.{get}
use hp_guardian.Models.{allow, throttle, action_eq, Decision, RateLimit, PolicyCall, Instant}
use hp_guardian.Engine.{Engine, resolve_call_with_selected_rule_at}
use hp_guardian.Engine.Limited.{Governs, Governed}
use hp_guardian.State.{
  RateLimitKey, Checked, consumed, state_error, Resolved, decided, unavailable, RateLimitStore,
  RateLimitedPolicyStore, governing_limit, after_check, resolve,
}

-- The answer of the resolver for each answer of the store, on an allow.
pub data Concludes (d : Decision) : Checked → Resolved → Type 0 where
  slot_granted : Concludes d (consumed true) (decided d)
  quota_spent :
      {r : Decision}
      → r.action ≡ throttle
      → r.matched_rules ≡ d.matched_rules
      → Concludes d (consumed false) (decided r)
  no_state : Concludes d state_error unavailable
  no_return : Concludes d Checked.panicked Resolved.panicked

after_check-Concludes :
    (d : Decision) (checked : Checked) → Concludes d checked (after_check d checked)
after_check-Concludes d (consumed true) = slot_granted
after_check-Concludes d (consumed false) = quota_spent refl refl
after_check-Concludes d state_error = no_state
after_check-Concludes d Checked.panicked = no_return

governing_limit-Governs :
    (e : Engine) (d : Decision) (selected : Option ℕ) (index : ℕ) (limit : RateLimit)
    → governing_limit e d selected ≡ some (index, limit)
    → Governs e d selected index limit
unfolding governing_limit
governing_limit-Governs e d none index limit h = cc
governing_limit-Governs e d (some i) index limit h = record {
  allows = ground arith;
  is_selected = ground arith;
  is_limit = ground arith;
}

governing_limit-none :
    (e : Engine) (d : Decision) (selected : Option ℕ)
    → governing_limit e d selected ≡ none
    → ¬ Governed e d selected
unfolding governing_limit
governing_limit-none e d none h (index, limit, g) = cc (g.is_selected)
governing_limit-none e d (some i) h (index, limit, g) =
    let same : i ≡ index = cc (g.is_selected) in
    let found : get e.rate_limits i ≡ some limit = rw same (g.is_limit) in
    ground (arith, h, found, (==_iff d.action allow).1 g.allows)

module _ {S : Type 0} (states : RateLimitStore S) (store : RateLimitedPolicyStore)
    (call : PolicyCall) (now : Instant) (now_seconds : ℕ) (s : S) where
  abbrev static : Decision × Option ℕ
  static = resolve_call_with_selected_rule_at store.engine call now

  abbrev governing : Option (ℕ × RateLimit)
  governing = governing_limit store.engine static.0 static.1

  -- The key of a call under a rule.
  abbrev pub call_key : ℕ → RateLimitKey
  call_key index = record {
    policy_digest = store.policy_digest;
    rule_index = index;
    agent = call.agent;
    user = call.user;
    tool = call.tool;
  }

  -- Where no limit governs the static decision, it stands and the store is not asked. Where the limit
  -- of the selected rule governs an allow, the store is asked once, under the key of the policy, the
  -- rule, the agent, the user and the tool: a granted slot keeps the decision, a spent quota turns it
  -- into a throttle with the same recorded rules, an error of the store is no decision, and a
  -- panic of the store is one of the resolver.
  pub resolve-cases :
      ((¬ Governed store.engine static.0 static.1)
        × (resolve states store call now now_seconds s ≡ (s, decided static.0)))
      ⊎ ((index : ℕ) × (limit : RateLimit) × Governs store.engine static.0 static.1 index limit
          × (let (s', checked) = states.check (call_key index) limit now_seconds s in
              let (after, answer) = resolve states store call now now_seconds s in
              (after ≡ s') × Concludes static.0 checked answer))
  unfolding resolve
  resolve-cases = elim (Option-cases governing) [
    | inl no_limit ↦
        inl (
          governing_limit-none store.engine static.0 static.1 no_limit,
          rw (no_limit, resolve) refl,
        )
    | inr ((index, limit), found) ↦ inr (
      index,
      limit,
      governing_limit-Governs store.engine static.0 static.1 index limit found,
      rw (found, resolve) (refl, after_check-Concludes static.0 _),
    )
  ]
