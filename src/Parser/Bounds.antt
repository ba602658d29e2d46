-- ===== src/Parser/Bounds.antt =====
-- What the parser admits as a condition tree.
use hp_guardian.Prelude.{
  ℕ, zero, suc, ◌+◌, ◌≤◌, ◌<◌, String, Bool, true, false, not, Option, none, some, List, [], ◌∷◌,
  length, if◌then◌else◌, ltb, ◌≡◌, refl, subst, arith, inl, inr, ◌==◌, nat_eq, string_eq, option_eq,
  ok, ◌>>=◌, ok_or, map_err, >>=-eq-ok, ok-injective, if-eq-ok, refuse-eq-ok, accept-eq-ok,
  map_err-eq-ok,
}
use hp_guardian.Models.{invalid_condition, Condition, Conditions, leaves, TimeWindow, Instant}
use hp_guardian.Conditions.Meaning.{Each}
use hp_guardian.Conditions.Pattern.{validate_args_match}
use hp_guardian.Parser.{Yaml, mapping, field_name}
use hp_guardian.Parser.Conditions.{
  Formats, Leaves, no_leaves, Counted, bad_window, bad_condition, window_fields, ordered_window,
  parse_time_window, validate_pattern, plain_text, leaf_field, leaf_fields, boolean_operator,
  parse_children, parse_operator, parse_node, parse_condition, parse_conditions,
}
use hp_guardian.Parser.Trees.{depth, depths, size, sizes, IsValid, AreValid}

abbrev IsValidLeaves : Leaves → Type 0
IsValidLeaves seen =
    Each seen.args_match (λ pattern. validate_args_match pattern ≡ ok tt)
    × Each seen.time_window (λ (window : TimeWindow). window.start < window.end)

-- A tree that took the count of nodes from `n` to `n'`, `levels` deep at most.
record Good (levels n : ℕ) (c : Condition) (n' : ℕ) : Type 0 where
  deep : depth c ≤ levels
  counted : n' ≡ n + size c
  bounded : n' ≤ 128
  valid : IsValid c

record AllGood (levels n : ℕ) (cs : Conditions) (n' : ℕ) : Type 0 where
  deep : depths cs ≤ levels
  counted : n' ≡ n + sizes cs
  bounded : n ≤ 128 → n' ≤ 128
  valid : AreValid cs

module _ (yaml : Yaml) (formats : Formats) where
  ordered_window-lt :
      (found : Option Instant × Option Instant) (w : TimeWindow)
      → ordered_window yaml formats found ≡ ok w
      → w.start < w.end
  ordered_window-lt (some s, some e) w h =
      let (t, k) = accept-eq-ok (ltb s e) bad_window _ h in rw (← ok-injective k) (ground arith)
  ordered_window-lt (none, e) w h = ground arith
  ordered_window-lt (some s, none) w h = ground arith

  parse_time_window-lt :
      (v : yaml.Value) (w : TimeWindow) → parse_time_window yaml formats v ≡ ok w → w.start < w.end
  unfolding parse_time_window
  parse_time_window-lt v w h =
      let (fields, e, k) =
        >>=-eq-ok (map_err (λ x. bad_window) (mapping yaml v "time_window")) _ h in
      let (two, k') = refuse-eq-ok (not (length fields == 2)) bad_window _ k in
      let (found, e', last) = >>=-eq-ok (window_fields yaml formats fields none none) _ k' in
      ordered_window-lt found w last

  leaf_field-valid :
      (key : String) (v : yaml.Value) (seen seen' : Leaves)
      → leaf_field yaml formats key v seen ≡ ok seen'
      → IsValidLeaves seen
      → IsValidLeaves seen'
  unfolding leaf_field
  leaf_field-valid key v seen seen' h valid = elim (if-eq-ok (key == "args_match") _ _ h) [
    | inl (is_args, a) ↦
        let (pattern, e, k) = >>=-eq-ok (plain_text yaml formats key v) _ a in
        let (u, e', k') = >>=-eq-ok (validate_pattern yaml formats pattern) _ k in
        subst IsValidLeaves (ok-injective k')
          (map_err-eq-ok _ (validate_args_match pattern) e', valid.1)
    | inr (not_args, b) ↦ elim (if-eq-ok (key == "path_pattern") _ _ b) [
      | inl (is_path, a) ↦
          let (pattern, e, k) = >>=-eq-ok (plain_text yaml formats key v) _ a in
          subst IsValidLeaves (ok-injective k) valid
      | inr (not_path, c) ↦
          let (is_window, a) = accept-eq-ok (key == "time_window") (invalid_condition key) _ c in
          let (window, e, k) = >>=-eq-ok (parse_time_window yaml formats v) _ a in
          subst IsValidLeaves (ok-injective k) (valid.0, parse_time_window-lt v window e)
    ]
  ]

  leaf_fields-valid :
      (fields : List (yaml.Value × yaml.Value)) (seen seen' : Leaves)
      → leaf_fields yaml formats fields seen ≡ ok seen'
      → IsValidLeaves seen
      → IsValidLeaves seen'
  unfolding leaf_fields
  leaf_fields-valid [] seen seen' h valid = subst IsValidLeaves (ok-injective h) valid
  leaf_fields-valid ((field, value) ∷ fields) seen seen' h valid =
      let (key, e, k) =
        >>=-eq-ok (map_err (λ x. bad_condition) (field_name yaml field "condition")) _ h in
      let (mid, e', k') = >>=-eq-ok (leaf_field yaml formats key value seen) _ k in
      leaf_fields-valid fields mid seen' k' (leaf_field-valid key value seen mid e' valid)

  module _ (levels : ℕ) (child : yaml.Value → ℕ → Counted Condition)
      (good : (v : yaml.Value) (n : ℕ) (c : Condition) (n' : ℕ)
        → child v n ≡ ok (c, n')
        → Good levels n c n') where
    children-AllGood :
        (vs : List yaml.Value) (n : ℕ) (cs : Conditions) (n' : ℕ)
        → parse_children yaml formats child vs n ≡ ok (cs, n')
        → AllGood levels n cs n'
    unfolding parse_children depths sizes AreValid
    children-AllGood [] n cs n' h =
        subst (λ (p : Conditions × ℕ). AllGood levels n p.0 p.1) (ok-injective h)
          (record { deep = omega arith; counted = omega arith; bounded = λ le. le; valid = tt })
    children-AllGood (v ∷ vs) n cs n' h =
        let ((c, m), e, k) = >>=-eq-ok (child v n) _ h in
        let ((rest, m'), e', k') = >>=-eq-ok (parse_children yaml formats child vs m) _ k in
        let g = good v n c m e in
        let gs = children-AllGood vs m rest m' e' in
        subst (λ (p : Conditions × ℕ). AllGood levels n p.0 p.1) (ok-injective k')
          (record {
            deep = omega (arith, g.deep, gs.deep);
            counted = omega (arith, g.counted, gs.counted);
            bounded = λ le. gs.bounded g.bounded;
            valid = (g.valid, gs.valid);
          })

    operator-Good :
        (operator : String) (fields : List (yaml.Value × yaml.Value)) (n : ℕ) (c : Condition)
        (n' : ℕ)
        → n + 1 ≤ 128
        → parse_operator yaml formats child operator fields (n + 1) ≡ ok (c, n')
        → Good (suc levels) n c n'
    unfolding parse_operator
    operator-Good operator [] n c n' le h = cc
    operator-Good operator (p ∷ q ∷ fields) n c n' le h = cc
    operator-Good operator ((key, value) ∷ []) n c n' le h =
        elim (if-eq-ok (operator == "not") _ _ h) [
          | inl (is_not, a) ↦
              let ((c', m), e, k) = >>=-eq-ok (child value (n + 1)) _ a in
              let g = good value (n + 1) c' m e in
              subst (λ (p : Condition × ℕ). Good (suc levels) n p.0 p.1) (ok-injective k)
                (record {
                  deep = unfold depth in omega (arith, g.deep);
                  counted = unfold size in omega (arith, g.counted);
                  bounded = g.bounded;
                  valid = unfold IsValid in g.valid;
                })
          | inr (not_not, a) ↦
              let (values, e, k) =
                >>=-eq-ok (ok_or (yaml.as_sequence value) (invalid_condition operator)) _ a in
              let ((children, m), e', k') =
                >>=-eq-ok (parse_children yaml formats child values (n + 1)) _ k in
              let g = children-AllGood values (n + 1) children m e' in
              subst (λ (p : Condition × ℕ). Good (suc levels) n p.0 p.1) (ok-injective k')
                (tree-Good (operator == "all") children m g)
        ]
      where
        tree-Good :
            (b : Bool) (children : Conditions) (m : ℕ)
            → AllGood levels (n + 1) children m
            → Good (suc levels) n (if b then Condition.all children else Condition.any children) m
        tree-Good true children m g = record {
          deep = unfold depth in omega (arith, g.deep);
          counted = unfold size in omega (arith, g.counted);
          bounded = g.bounded le;
          valid = unfold IsValid in g.valid;
        }
        tree-Good false children m g = record {
          deep = unfold depth in omega (arith, g.deep);
          counted = unfold size in omega (arith, g.counted);
          bounded = g.bounded le;
          valid = unfold IsValid in g.valid;
        }

    node-Good :
        (v : yaml.Value) (n : ℕ) (c : Condition) (n' : ℕ)
        → parse_node yaml formats child v n ≡ ok (c, n')
        → Good (suc levels) n c n'
    unfolding parse_node
    node-Good v n c n' h =
        let (room, k) =
          refuse-eq-ok (ltb 128 (n + 1)) (invalid_condition "condition tree exceeds 128 nodes") _
            h in
        let (fields, e, k') =
          >>=-eq-ok (map_err (λ x. bad_condition) (mapping yaml v "condition")) _ k in
        fields-Good fields (boolean_operator yaml formats fields) (ground arith) k'
      where
        fields-Good :
            (fields : List (yaml.Value × yaml.Value)) (o : Option String)
            → n + 1 ≤ 128
            → (elim o as (λ x. Counted Condition) [
              | some operator ↦ parse_operator yaml formats child operator fields (n + 1)
              | none ↦ do
                seen ← leaf_fields yaml formats fields no_leaves
                ok (leaves seen.args_match seen.path_pattern seen.time_window, n + 1)
            ])
              ≡ ok (c, n')
            → Good (suc levels) n c n'
        fields-Good fields (some operator) le h' = operator-Good operator fields n c n' le h'
        fields-Good fields none le h' =
            let (seen, e, k) = >>=-eq-ok (leaf_fields yaml formats fields no_leaves) _ h' in
            subst (λ (p : Condition × ℕ). Good (suc levels) n p.0 p.1) (ok-injective k)
              (record {
                deep = unfold depth in omega arith;
                counted = unfold size in refl;
                bounded = le;
                valid = unfold IsValid in leaf_fields-valid fields no_leaves seen e (tt, tt);
              })

  condition-Good :
      (levels : ℕ) (v : yaml.Value) (n : ℕ) (c : Condition) (n' : ℕ)
      → parse_condition yaml formats levels v n ≡ ok (c, n')
      → Good levels n c n'
  unfolding parse_condition
  condition-Good zero v n c n' h = cc
  condition-Good (suc levels) v n c n' h =
      node-Good levels (parse_condition yaml formats levels) (condition-Good levels) v n c n' h

  -- A condition that the parser accepts is at most 32 levels deep and has at most 128 nodes; each of
  -- its patterns is accepted by `validate_args_match`, and each of its windows ends after its start.
  pub parse_conditions-bounds :
      (o : Option yaml.Value) (c : Condition)
      → parse_conditions yaml formats o ≡ ok c
      → (depth c ≤ 32) × (size c ≤ 128) × IsValid c
  unfolding parse_conditions
  parse_conditions-bounds none c h =
      subst (λ x. (depth x ≤ 32) × (size x ≤ 128) × IsValid x) (ok-injective h)
        (unfold depth in omega arith, unfold size in omega arith, unfold IsValid in (tt, tt))
  parse_conditions-bounds (some v) c h =
      let ((tree, nodes), e, k) = >>=-eq-ok (parse_condition yaml formats 32 v 0) _ h in
      let g = condition-Good 32 v 0 tree nodes e in
      subst (λ x. (depth x ≤ 32) × (size x ≤ 128) × IsValid x) (ok-injective k)
        (g.deep, omega (arith, g.counted, g.bounded), g.valid)
