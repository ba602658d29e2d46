-- ===== src/Parser/Versions.antt =====
-- What the two entry points of the parser accept.
use hp_guardian.Prelude.{
  ℕ, String, Bool, true, false, [], ◌≡◌, sym, ap, ◌∙◌, ◌==◌, nat_eq, ==_iff, ok, map_err, >>=-eq-ok,
  ok-injective, accept-eq-ok, map_err-eq-ok,
}
use hp_guardian.Models.{invalid_yaml}
use hp_guardian.Engine.{Engine}
use hp_guardian.Parser.{Yaml, ℤ, pos, negsuc, mapping}
use hp_guardian.Parser.Conditions.{Formats}
use hp_guardian.Parser.Policy.{
  declared_version, parse_version, parse_as, parse_declared, parse, parse_rate_limited,
  policy_fields, nothing_loaded,
}
use hp_guardian.Parser.WellFormed.{WellFormed, parse_version-WellFormed, parse_version-unlimited}
use hp_guardian.Models.{allow}

module _ (yaml : Yaml) (formats : Formats) (text : String) (e : Engine) where
  -- The document declares the version, and its engine is that of the version's parser.
  record Declared (version : ℕ) (allowed : Bool) : Type 0 where
    policy : yaml.Value
    read : yaml.from_str text ≡ ok policy
    declared : declared_version yaml formats policy ≡ ok (pos version)
    parsed : parse_version yaml formats policy version allowed ≡ ok e

  parse_as-version :
      (version : ℕ) (allowed : Bool) (z : ℤ) (policy : yaml.Value)
      → parse_as yaml formats version allowed z policy ≡ ok e
      → (z ≡ pos version) × (parse_version yaml formats policy version allowed ≡ ok e)
  unfolding parse_as
  parse_as-version version allowed (pos v) policy h =
      let (t, k) = accept-eq-ok (v == version) _ _ h in (ap pos ((==_iff v version).0 t), k)
  parse_as-version version allowed (negsuc v) policy h = cc

  parse_declared-Declared :
      (version : ℕ) (allowed : Bool)
      → parse_declared yaml formats version allowed text ≡ ok e
      → Declared version allowed
  unfolding parse_declared
  parse_declared-Declared version allowed h =
      let (policy, p, k) = >>=-eq-ok (map_err invalid_yaml (yaml.from_str text)) _ h in
      let (z, p1, k1) = >>=-eq-ok (declared_version yaml formats policy) _ k in
      let (v, k2) = parse_as-version version allowed z policy k1 in
      record {
        policy = policy;
        read = map_err-eq-ok invalid_yaml (yaml.from_str text) p;
        declared = p1 ∙ ap ok v;
        parsed = k2;
      }

  parse_version-version :
      (policy : yaml.Value) (version : ℕ) (allowed : Bool)
      → parse_version yaml formats policy version allowed ≡ ok e
      → e.version ≡ version
  unfolding parse_version
  parse_version-version policy version allowed h =
      let (fields, p, k) = >>=-eq-ok (mapping yaml policy "policy") _ h in
      let ((action, l), p1, k1) =
        >>=-eq-ok (policy_fields yaml formats allowed fields (allow, nothing_loaded)) _ k in
      ap (λ (x : Engine). x.version) (sym (ok-injective k1))

  -- A policy that `parse` accepts is a document that declares version 1; its engine has version 1, no
  -- rate limits, rules numbered from 0 in order, and conditions within the bounds.
  pub parse-version_1 :
      parse yaml formats text ≡ ok e
      → (policy : yaml.Value) × (yaml.from_str text ≡ ok policy)
        × (declared_version yaml formats policy ≡ ok (pos 1))
        × (e.version ≡ 1)
        × (e.rate_limits ≡ [])
        × ((n : ℕ) × WellFormed e.rules e.rate_limits n)
  unfolding parse
  parse-version_1 h =
      let d = parse_declared-Declared 1 false h in
      (
        d.policy,
        d.read,
        d.declared,
        parse_version-version d.policy 1 false d.parsed,
        parse_version-unlimited yaml formats d.policy 1 e d.parsed,
        parse_version-WellFormed yaml formats d.policy 1 false e d.parsed,
      )

  -- A policy that `parse_rate_limited` accepts is a document that declares version 2; its engine has
  -- version 2, rules numbered from 0 in order, conditions within the bounds, and rate limits from 1 to
  -- 86400 that each belong to an allow rule.
  pub parse_rate_limited-version_2 :
      parse_rate_limited yaml formats text ≡ ok e
      → (policy : yaml.Value) × (yaml.from_str text ≡ ok policy)
        × (declared_version yaml formats policy ≡ ok (pos 2))
        × (e.version ≡ 2)
        × ((n : ℕ) × WellFormed e.rules e.rate_limits n)
  unfolding parse_rate_limited
  parse_rate_limited-version_2 h =
      let d = parse_declared-Declared 2 true h in
      (
        d.policy,
        d.read,
        d.declared,
        parse_version-version d.policy 2 true d.parsed,
        parse_version-WellFormed yaml formats d.policy 2 true e d.parsed,
      )
