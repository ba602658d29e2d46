-- ===== src/Engine/Limited.antt =====
-- The rate limit that governs a decision, and what the engine alone makes of it.
use hp_guardian.Prelude.{
  ℕ, true, false, Option, none, some, ◌≡◌, refl, inl, inr, ◌⊎◌, ◌&&◌, ◌==◌, ==_iff, nat_eq, arith,
  Option-cases, Bool-cases,
}
use hp_guardian.Prelude.Map.{get, contains_key, contains_key-none, contains_key-get}
use hp_guardian.Models.{allow, throttle, action_eq, Decision, RateLimit, PolicyCall, Instant}
use hp_guardian.Engine.{
  Engine, is_rate_limited, resolve_call_with_selected_rule_at, resolve_call_at,
}

-- The limit of the selected rule, where the decision is to allow.
pub record Governs (e : Engine) (d : Decision) (selected : Option ℕ) (index : ℕ) (limit : RateLimit)
    : Type 0 where
  pub allows : d.action ≡ allow
  pub is_selected : selected ≡ some index
  pub is_limit : get e.rate_limits index ≡ some limit

abbrev pub Governed : Engine → Decision → Option ℕ → Type 0
Governed e d selected = (index : ℕ) × (limit : RateLimit) × Governs e d selected index limit

is_rate_limited-true :
    (e : Engine) (d : Decision) (selected : Option ℕ)
    → is_rate_limited e selected ≡ true
    → d.action ≡ allow
    → Governed e d selected
unfolding is_rate_limited
is_rate_limited-true e d none h a = cc h
is_rate_limited-true e d (some index) h a = elim (Option-cases (get e.rate_limits index)) [
  | inl absent ↦
      let missing : contains_key e.rate_limits index ≡ false =
        contains_key-none e.rate_limits index absent in
      cc (h, missing)
  | inr (limit, found) ↦ (index, limit, record { allows = a; is_selected = refl; is_limit = found })
]

is_rate_limited-false :
    (e : Engine) (d : Decision) (selected : Option ℕ)
    → (is_rate_limited e selected && d.action == allow) ≡ false
    → ¬ Governed e d selected
unfolding is_rate_limited
is_rate_limited-false e d none h (index, limit, g) = cc (g.is_selected)
is_rate_limited-false e d (some i) h (index, limit, g) =
    let same : i ≡ index = cc (g.is_selected) in
    let found : contains_key e.rate_limits i ≡ true =
      contains_key-get e.rate_limits i limit (rw same (g.is_limit)) in
    ground (arith, h, found, (==_iff d.action allow).1 g.allows)

-- The engine alone has no quota store: where the limit of the selected rule governs an allow, its
-- decision is a throttle with the same recorded rules, and else it is the static decision.
pub resolve_call_at-cases :
    (e : Engine) (call : PolicyCall) (now : Instant)
    → let (d, selected) = resolve_call_with_selected_rule_at e call now in
      let result = resolve_call_at e call now in
      (Governed e d selected
        × (result.action ≡ throttle)
        × (result.matched_rules ≡ d.matched_rules))
      ⊎ ((¬ Governed e d selected) × (result ≡ d))
unfolding resolve_call_at
resolve_call_at-cases e call now =
    let (d, selected) = resolve_call_with_selected_rule_at e call now in
    elim (Bool-cases (is_rate_limited e selected && d.action == allow)) [
      | inl limited ↦
          let governed =
            is_rate_limited-true e d selected (ground (arith, limited))
              ((==_iff d.action allow).0 (ground (arith, limited))) in
          inl (governed, rw limited refl, rw limited refl)
      | inr free ↦ inr (is_rate_limited-false e d selected free, rw free refl)
    ]
