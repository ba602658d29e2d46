-- ===== src/Matching/Target.antt =====
-- What the target of a rule says of a call.
use hp_guardian.Prelude.{
  String, true, false, [], ◌∷◌, ◌≡◌, refl, sym, subst, arith, ◌↔◌, inl, inr, Option, none, some,
  All, ◌⧺◌, strip_prefix, strip_prefix_iff, ◌==◌, ==_iff, string_eq, option_eq, Bool-cases,
  Option-cases,
}
use hp_guardian.Prelude.Map.{Map, get}
use hp_guardian.Models.{PolicyCall, Rule}
use hp_guardian.Matching.{agrees, agrees_context, entry_matches, target_matches, rule_matches_rule}

-- One entry of a target: a field of the call, or a context key behind its prefix, has the value.
pub data Agrees (call : PolicyCall) (key value : String) : Type 0 where
  agent : key ≡ "agent" → call.agent ≡ some value → Agrees call key value
  tool : key ≡ "tool" → call.tool ≡ some value → Agrees call key value
  user : key ≡ "user" → call.user ≡ some value → Agrees call key value
  context :
      (k : String) → key ≡ "context." ⧺ k → get call.context k ≡ some value → Agrees call key value

agrees_iff : (o : Option String) (value : String) → (agrees o value ≡ true) ↔ (o ≡ some value)
unfolding agrees
agrees_iff none value = ground arith
agrees_iff (some field) value = ground (arith, ==_iff field value)

module _ (call : PolicyCall) (value : String) where
  entry_matches_sound : (key : String) → entry_matches call key value ≡ true → Agrees call key value
  unfolding entry_matches agrees_context
  entry_matches_sound key h = elim (Bool-cases (key == "agent")) [
    | inl a ↦ agent ((==_iff key "agent").0 a) ((agrees_iff call.agent value).0 (ground arith))
    | inr na ↦ elim (Bool-cases (key == "tool")) [
      | inl t ↦ tool ((==_iff key "tool").0 t) ((agrees_iff call.tool value).0 (ground arith))
      | inr nt ↦ elim (Bool-cases (key == "user")) [
        | inl u ↦ user ((==_iff key "user").0 u) ((agrees_iff call.user value).0 (ground arith))
        | inr nu ↦ elim (Option-cases (strip_prefix "context." key)) [
          | inl e ↦ absurd (ground (arith, e))
          | inr (k, e) ↦
              context k ((strip_prefix_iff "context." key k).0 e)
                ((==_iff (get call.context k) (some value)).0 (ground (arith, e)))
        ]
      ]
    ]
  ]

  -- A key behind the context prefix is none of the three field names.
  not_field :
      (k name : String) → strip_prefix "context." name ≡ none → (("context." ⧺ k) == name) ≡ false
  not_field k name e = elim (Bool-cases (("context." ⧺ k) == name)) [
    | inl same ↦
        let stripped =
          (strip_prefix_iff "context." name k).1 (sym ((==_iff ("context." ⧺ k) name).0 same)) in
        cc (stripped, e)
    | inr other ↦ other
  ]

  context_key :
      (k : String)
      → get call.context k ≡ some value
      → entry_matches call ("context." ⧺ k) value ≡ true
  unfolding entry_matches agrees_context
  context_key k e =
      rw
        (
          not_field k "agent" (unfold strip_prefix in refl),
          not_field k "tool" (unfold strip_prefix in refl),
          not_field k "user" (unfold strip_prefix in refl),
          (strip_prefix_iff "context." ("context." ⧺ k) k).1 refl,
        )
        ((==_iff (get call.context k) (some value)).1 e)

  entry_matches_complete :
      (key : String) → Agrees call key value → entry_matches call key value ≡ true
  unfolding entry_matches
  entry_matches_complete key (agent k v) = rw k ((agrees_iff call.agent value).1 v)
  entry_matches_complete key (tool k v) = rw k ((agrees_iff call.tool value).1 v)
  entry_matches_complete key (user k v) = rw k ((agrees_iff call.user value).1 v)
  entry_matches_complete key (context k e v) =
      subst (λ j. entry_matches call j value ≡ true) (sym e) (context_key k v)

target_matches_iff :
    (call : PolicyCall) (target : Map String String)
    → (target_matches call target ≡ true) ↔ All (λ (key, value). Agrees call key value) target
unfolding target_matches
target_matches_iff call [] = (λ h. tt, λ h. refl)
target_matches_iff call ((key, value) ∷ target) =
    let (sound, complete) = target_matches_iff call target in
    (
      λ h. (entry_matches_sound call value key (ground arith), sound (ground arith)),
      λ h. ground (arith, entry_matches_complete call value key h.0, complete h.1),
    )

-- A rule's target matches a call exactly where each of its entries agrees with the call; a key that
-- is neither a field of the call nor a context key never does.
pub rule_matches_rule_iff :
    (rule : Rule) (call : PolicyCall)
    → (rule_matches_rule rule call ≡ true) ↔ All (λ (key, value). Agrees call key value) rule.target
unfolding rule_matches_rule
rule_matches_rule_iff rule call = target_matches_iff call rule.target
