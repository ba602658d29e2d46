-- ===== src/Parser/Keeps.antt =====
-- Properties of what is loaded that every step of the parser keeps.
use hp_guardian.Prelude.{
  String, Bool, none, List, [], ◌∷◌, ◌≡◌, subst, inl, inr, ◌==◌, string_eq, ok, ok_or, >>=-eq-ok,
  ok-injective, if-eq-ok, accept-eq-ok, ◌⧺◌,
}
use hp_guardian.Models.{Action, invalid_field}
use hp_guardian.Parser.{Yaml, mapping, field_name}
use hp_guardian.Parser.Conditions.{Formats}
use hp_guardian.Parser.Rules.{Loading, add_rule, add_entries, add_rules}
use hp_guardian.Parser.Targets.{Target}
use hp_guardian.Parser.Policy.{
  parse_global, only_field, add_tool, add_tools, add_agent, add_agent_entries, add_agents,
  policy_field, policy_fields,
}

module _ (yaml : Yaml) (formats : Formats) (allow_rate_limit : Bool) (P : Loading → Type 0)
    (add_rule-keeps : (value : yaml.Value) (enclosing : Target) (l l' : Loading)
      → add_rule yaml formats allow_rate_limit value enclosing l ≡ ok l'
      → P l
      → P l') where
  entries-keep :
      (entries : List yaml.Value) (enclosing : Target) (l l' : Loading)
      → add_entries yaml formats allow_rate_limit entries enclosing l ≡ ok l'
      → P l
      → P l'
  unfolding add_entries
  entries-keep [] enclosing l l' h p = subst P (ok-injective h) p
  entries-keep (entry ∷ entries) enclosing l l' h p =
      let (mid, e, k) = >>=-eq-ok (add_rule yaml formats allow_rate_limit entry enclosing l) _ h in
      entries-keep entries enclosing mid l' k (add_rule-keeps entry enclosing l mid e p)

  rules-keep :
      (value : yaml.Value) (enclosing : Target) (l l' : Loading)
      → add_rules yaml formats allow_rate_limit value enclosing l ≡ ok l'
      → P l
      → P l'
  unfolding add_rules
  rules-keep value enclosing l l' h p =
      let (entries, e, k) =
        >>=-eq-ok (ok_or (yaml.as_sequence value) (invalid_field "rules must be a sequence")) _ h in
      entries-keep entries enclosing l l' k p

  tool-keeps :
      (agent_name : String) (tool value : yaml.Value) (l l' : Loading)
      → add_tool yaml formats allow_rate_limit agent_name tool value l ≡ ok l'
      → P l
      → P l'
  unfolding add_tool
  tool-keeps agent_name tool value l l' h p =
      let (tool_name, e, k) = >>=-eq-ok (field_name yaml tool "tool") _ h in
      let (fields, e1, k1) = >>=-eq-ok (mapping yaml value "tool configuration") _ k in
      let (found, e2, k2) =
        >>=-eq-ok
          (only_field yaml formats "tool configuration"
            ("agents." ⧺ agent_name ⧺ ".tools." ⧺ tool_name) "rules" fields none)
          _ k1 in
      let (rules, e3, k3) =
        >>=-eq-ok
          (ok_or found
            (invalid_field (("agents." ⧺ agent_name ⧺ ".tools." ⧺ tool_name) ⧺ ".rules")))
          _ k2 in
      rules-keep rules _ l l' k3 p

  tools-keep :
      (agent_name : String) (tools : List (yaml.Value × yaml.Value)) (l l' : Loading)
      → add_tools yaml formats allow_rate_limit agent_name tools l ≡ ok l'
      → P l
      → P l'
  unfolding add_tools
  tools-keep agent_name [] l l' h p = subst P (ok-injective h) p
  tools-keep agent_name ((tool, value) ∷ tools) l l' h p =
      let (mid, e, k) =
        >>=-eq-ok (add_tool yaml formats allow_rate_limit agent_name tool value l) _ h in
      tools-keep agent_name tools mid l' k (tool-keeps agent_name tool value l mid e p)

  agent-keeps :
      (agent value : yaml.Value) (l l' : Loading)
      → add_agent yaml formats allow_rate_limit agent value l ≡ ok l'
      → P l
      → P l'
  unfolding add_agent
  agent-keeps agent value l l' h p =
      let (agent_name, e, k) = >>=-eq-ok (field_name yaml agent "agent") _ h in
      let (fields, e1, k1) = >>=-eq-ok (mapping yaml value "agent configuration") _ k in
      let (found, e2, k2) =
        >>=-eq-ok
          (only_field yaml formats "agent configuration" ("agents." ⧺ agent_name) "tools" fields
            none)
          _ k1 in
      let (tools, e3, k3) =
        >>=-eq-ok (ok_or found (invalid_field ("agents." ⧺ agent_name ⧺ ".tools"))) _ k2 in
      let (entries, e4, k4) = >>=-eq-ok (mapping yaml tools "tools") _ k3 in
      tools-keep agent_name entries l l' k4 p

  agent_entries-keep :
      (agents : List (yaml.Value × yaml.Value)) (l l' : Loading)
      → add_agent_entries yaml formats allow_rate_limit agents l ≡ ok l'
      → P l
      → P l'
  unfolding add_agent_entries
  agent_entries-keep [] l l' h p = subst P (ok-injective h) p
  agent_entries-keep ((agent, value) ∷ agents) l l' h p =
      let (mid, e, k) = >>=-eq-ok (add_agent yaml formats allow_rate_limit agent value l) _ h in
      agent_entries-keep agents mid l' k (agent-keeps agent value l mid e p)

  field-keeps :
      (name : String) (value : yaml.Value) (seen seen' : Action × Loading)
      → policy_field yaml formats allow_rate_limit name value seen ≡ ok seen'
      → P seen.1
      → P seen'.1
  unfolding policy_field add_agents
  field-keeps name value seen seen' h p = elim (if-eq-ok (name == "version") _ _ h) [
    | inl (t, a) ↦ subst (λ s. P s.1) (ok-injective a) p
    | inr (f, b) ↦ elim (if-eq-ok (name == "global") _ _ b) [
      | inl (t, a) ↦
          let (action, e, k) = >>=-eq-ok (parse_global yaml formats value) _ a in
          subst (λ s. P s.1) (ok-injective k) p
      | inr (f1, c) ↦ elim (if-eq-ok (name == "rules") _ _ c) [
        | inl (t, a) ↦
            let (mid, e, k) =
              >>=-eq-ok (add_rules yaml formats allow_rate_limit value [] seen.1) _ a in
            subst (λ s. P s.1) (ok-injective k) (rules-keep value [] seen.1 mid e p)
        | inr (f2, d) ↦
            let (t, a) = accept-eq-ok (name == "agents") (invalid_field name) _ d in
            let (mid, e, k) =
              >>=-eq-ok (add_agents yaml formats allow_rate_limit value seen.1) _ a in
            let (entries, e1, k1) = >>=-eq-ok (mapping yaml value "agents") _ e in
            subst (λ s. P s.1) (ok-injective k) (agent_entries-keep entries seen.1 mid k1 p)
      ]
    ]
  ]

  -- Whatever adding one rule keeps, the loop over the fields of a policy keeps.
  pub policy_fields-keep :
      (fields : List (yaml.Value × yaml.Value)) (seen seen' : Action × Loading)
      → policy_fields yaml formats allow_rate_limit fields seen ≡ ok seen'
      → P seen.1
      → P seen'.1
  unfolding policy_fields
  policy_fields-keep [] seen seen' h p = subst (λ s. P s.1) (ok-injective h) p
  policy_fields-keep ((field, value) ∷ fields) seen seen' h p =
      let (name, e, k) = >>=-eq-ok (field_name yaml field "top-level") _ h in
      let (mid, e1, k1) =
        >>=-eq-ok (policy_field yaml formats allow_rate_limit name value seen) _ k in
      policy_fields-keep fields mid seen' k1 (field-keeps name value seen mid e1 p)
