-- ===== src/Parser/Limits.antt =====
-- The rate limit that the loop over a rule's fields has seen.
use hp_guardian.Prelude.{
  ℕ, ◌≤◌, String, Bool, true, ◌&&◌, Option, none, some, List, [], ◌∷◌, ◌≡◌, subst, inl, inr, arith,
  ◌==◌, nat_eq, string_eq, ok, ok_or, >>=-eq-ok, ok-injective, if-eq-ok, accept-eq-ok, refuse-eq-ok,
  ◌⧺◌, not, length, and_iff,
}
use hp_guardian.Models.{action_eq, invalid_field, invalid_action, RateLimit}
use hp_guardian.Parser.{Yaml, mapping, field_name, value_description, is_ambiguous_yaml_scalar}
use hp_guardian.Parser.Conditions.{Formats}
use hp_guardian.Parser.Rules.{
  in_limits, checked_limit, limit_fields, parse_rate_limit, RuleFields, rule_field, rule_fields,
}

abbrev pub InLimits : RateLimit → Type 0
InLimits limit =
    (1 ≤ limit.max_calls)
    × (limit.max_calls ≤ 86400)
    × (1 ≤ limit.window_seconds)
    × (limit.window_seconds ≤ 86400)

checked_limit-InLimits :
    (found : Option ℕ × Option ℕ) (limit : RateLimit)
    → checked_limit found ≡ ok limit
    → InLimits limit
checked_limit-InLimits (some m, some w) limit h =
    let (t, k) = accept-eq-ok (in_limits m && in_limits w) _ _ h in
    subst InLimits (ok-injective k) (ground arith, ground arith, ground arith, ground arith)
checked_limit-InLimits (none, w) limit h = cc
checked_limit-InLimits (some m, none) limit h = cc

module _ (yaml : Yaml) (formats : Formats) where
  pub parse_rate_limit-InLimits :
      (v : yaml.Value) (limit : RateLimit)
      → parse_rate_limit yaml formats v ≡ ok limit
      → InLimits limit
  unfolding parse_rate_limit
  parse_rate_limit-InLimits v limit h =
      let (fields, e, k) = >>=-eq-ok (mapping yaml v "rate_limit") _ h in
      let (two, k1) = refuse-eq-ok (not (length fields == 2)) _ _ k in
      let (found, e2, k2) = >>=-eq-ok (limit_fields yaml formats fields none none) _ k1 in
      checked_limit-InLimits found limit k2

  abbrev pub Seen : Type 0
  Seen = RuleFields yaml formats

  -- A property that every new limit has, where limits are permitted, stays that of the limit seen.
  module _ (allowed : Bool) (Q : Option RateLimit → Type 0)
      (new : allowed ≡ true → (limit : RateLimit) → InLimits limit → Q (some limit)) where
    limit-rule_field :
        (name : String) (v : yaml.Value) (seen seen' : Seen)
        → rule_field yaml formats allowed name v seen ≡ ok seen'
        → Q seen.rate_limit
        → Q seen'.rate_limit
    unfolding rule_field
    limit-rule_field name v seen seen' h ins = elim (if-eq-ok (name == "action") _ _ h) [
      | inl (t, a) ↦
          let (x, e, k) =
            >>=-eq-ok (ok_or (yaml.as_str v) (invalid_action (value_description yaml v))) _ a in
          subst (λ (s : Seen). Q s.rate_limit) (ok-injective k) ins
      | inr (f, b) ↦ elim (if-eq-ok (name == "target") _ _ b) [
        | inl (t, a) ↦ subst (λ (s : Seen). Q s.rate_limit) (ok-injective a) ins
        | inr (f, c) ↦ elim (if-eq-ok (name == "condition") _ _ c) [
          | inl (t, a) ↦ subst (λ (s : Seen). Q s.rate_limit) (ok-injective a) ins
          | inr (f, d) ↦ elim (if-eq-ok (name == "id") _ _ d) [
            | inl (t, a) ↦
                let (id, e, k) = >>=-eq-ok (ok_or (yaml.as_str v) (invalid_field "rule.id")) _ a in
                let (plain, k1) = refuse-eq-ok (is_ambiguous_yaml_scalar id) _ _ k in
                subst (λ (s : Seen). Q s.rate_limit) (ok-injective k1) ins
            | inr (f, g) ↦
                let (t, a) =
                  accept-eq-ok (name == "rate_limit" && allowed) (invalid_field ("rule." ⧺ name)) _
                    g in
                let (limit, e, k) = >>=-eq-ok (parse_rate_limit yaml formats v) _ a in
                subst (λ (s : Seen). Q s.rate_limit) (ok-injective k)
                  (new ((and_iff _ _).0 t).1 limit (parse_rate_limit-InLimits v limit e))
          ]
        ]
      ]
    ]

    pub limit-rule_fields :
        (fields : List (yaml.Value × yaml.Value)) (seen seen' : Seen)
        → rule_fields yaml formats allowed fields seen ≡ ok seen'
        → Q seen.rate_limit
        → Q seen'.rate_limit
    unfolding rule_fields
    limit-rule_fields [] seen seen' h ins =
        subst (λ (s : Seen). Q s.rate_limit) (ok-injective h) ins
    limit-rule_fields ((field, v) ∷ fields) seen seen' h ins =
        let (name, e, k) = >>=-eq-ok (field_name yaml field "rule") _ h in
        let (mid, e1, k1) = >>=-eq-ok (rule_field yaml formats allowed name v seen) _ k in
        limit-rule_fields fields mid seen' k1 (limit-rule_field name v seen mid e1 ins)
