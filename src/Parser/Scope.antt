-- ===== src/Parser/Scope.antt =====
-- What the rules of a sequence say that stands under an enclosing target.
use hp_guardian.Prelude.{
  String, Bool, some, List, [], ◌∷◌, ◌++◌, ◌≡◌, sym, ap, ◌∙◌, subst, inl, inr, arith, ◌==◌,
  string_eq, ==_iff, All, ok, ok_or, >>=-eq-ok, ok-injective, accept-eq-ok, Option-cases,
}
use mathlib.Core.List.{Memᴰ, append_assoc, append-nil}
use mathlib.Core.List.Memᴰ
use mathlib.Core.List.Memᴰ.{head, tail}
use hp_guardian.Prelude.Map.{get, get-insert}
use hp_guardian.Models.{Rule, invalid_field, invalid_action}
use hp_guardian.Parser.{Yaml, mapping, parse_action}
use hp_guardian.Parser.Conditions.{Formats, parse_conditions}
use hp_guardian.Parser.Rules.{
  Loading, add_id, check_limited, push_rule, no_fields, rule_fields, make_rule, add_rule,
  add_entries, add_rules,
}
use hp_guardian.Parser.Targets.{Target, add_enclosing_target, add_enclosing, parse_target}

add_enclosing_target-get :
    (target target' : Target) (key value : String)
    → add_enclosing_target target key value ≡ ok target'
    → get target' key ≡ some value
unfolding add_enclosing_target
add_enclosing_target-get target target' key value h = elim (Option-cases (get target key)) [
  | inl none_yet ↦
      subst (λ t. get t key ≡ some value) (ok-injective (rw (none_yet, add_enclosing_target) at h))
        (ground (arith, get-insert target key key value, ==_iff key key))
  | inr (old, held) ↦
      let (same, k) = accept-eq-ok (old == value) _ _ (rw (held, add_enclosing_target) at h) in
      subst (λ t. get t key ≡ some value) (ok-injective k)
        (ground (arith, get-insert target key key value, ==_iff key key))
]

-- What the target said before stays.
add_enclosing_target-stays :
    (target target' : Target) (key value k v : String)
    → add_enclosing_target target key value ≡ ok target'
    → get target k ≡ some v
    → get target' k ≡ some v
unfolding add_enclosing_target
add_enclosing_target-stays target target' key value k v h said =
    elim (Option-cases (get target key)) [
      | inl none_yet ↦
          subst (λ t. get t k ≡ some v) (ok-injective (rw (none_yet, add_enclosing_target) at h))
            (ground (arith, get-insert target key k value, ==_iff key k, said, none_yet))
      | inr (old, held) ↦
          let (same, e) = accept-eq-ok (old == value) _ _ (rw (held, add_enclosing_target) at h) in
          subst (λ t. get t k ≡ some v) (ok-injective e)
            (ground
              (arith, get-insert target key k value, ==_iff key k, ==_iff old value, said, held))
    ]

add_enclosing-stays :
    (target : Target) (enclosing : Target) (target' : Target) (k v : String)
    → add_enclosing target enclosing ≡ ok target'
    → get target k ≡ some v
    → get target' k ≡ some v
unfolding add_enclosing
add_enclosing-stays target [] target' k v h said =
    subst (λ t. get t k ≡ some v) (ok-injective h) said
add_enclosing-stays target ((key, value) ∷ enclosing) target' k v h said =
    let (mid, e, r) = >>=-eq-ok (add_enclosing_target target key value) _ h in
    add_enclosing-stays mid enclosing target' k v r
      (add_enclosing_target-stays target mid key value k v e said)

add_enclosing-get :
    (target : Target) (enclosing : Target) (target' : Target) (k v : String)
    → add_enclosing target enclosing ≡ ok target'
    → Memᴰ (k, v) enclosing
    → get target' k ≡ some v
unfolding add_enclosing
add_enclosing-get target [] target' k v h m = absurd (Memᴰ.not-nil m)
add_enclosing-get target ((key, value) ∷ enclosing) target' k v h (head same) =
    let (mid, e, r) = >>=-eq-ok (add_enclosing_target target key value) _ h in
    let found = add_enclosing_target-get target mid key value e in
    let here : get mid k ≡ some v =
      subst (λ (p : String × String). get mid p.0 ≡ some p.1) (sym same) found in
    add_enclosing-stays mid enclosing target' k v r here
add_enclosing-get target ((key, value) ∷ enclosing) target' k v h (tail m) =
    let (mid, e, r) = >>=-eq-ok (add_enclosing_target target key value) _ h in
    add_enclosing-get mid enclosing target' k v r m

-- The rule's target says all that the enclosing target says.
abbrev pub Says : Target → Rule → Type 0
Says enclosing r = (k v : String) → Memᴰ (k, v) enclosing → get r.target k ≡ some v

-- The rules are those there were, and others behind them that all have the property.
pub record Adds (P : Rule → Type 0) (before after : List Rule) : Type 0 where
  pub added : List Rule
  pub appended : after ≡ before ++ added
  pub all_added : All P added

pub Adds-refl : (P : Rule → Type 0) (rules : List Rule) → Adds P rules rules
Adds-refl P rules = record { added = []; appended = sym (append-nil rules); all_added = tt }

All-append : (P : Rule → Type 0) (l m : List Rule) → All P l → All P m → All P (l ++ m)
All-append P [] m h k = k
All-append P (x ∷ l) m h k = (h.0, All-append P l m h.1 k)

pub Adds-trans : {P : Rule → Type 0} {a b c : List Rule} → Adds P a b → Adds P b c → Adds P a c
Adds-trans {P} {a} {b} {c} x y = record {
  added = x.added ++ y.added;
  appended = y.appended ∙ ap (λ l. l ++ y.added) x.appended ∙ append_assoc a x.added y.added;
  all_added = All-append P x.added y.added x.all_added y.all_added;
}

-- The added rules are under the enclosing target.
abbrev pub Extends : Target → List Rule → List Rule → Type 0
Extends enclosing = Adds (Says enclosing)

module _ (yaml : Yaml) (formats : Formats) (allowed : Bool) (enclosing : Target) where
  add_rule-Extends :
      (v : yaml.Value) (l l' : Loading)
      → add_rule yaml formats allowed v enclosing l ≡ ok l'
      → Extends enclosing l.rules l'.rules
  unfolding add_rule make_rule push_rule
  add_rule-Extends v l l' h =
      let (fields, e, k) = >>=-eq-ok (mapping yaml v "rule") _ h in
      let (seen, e1, k1) =
        >>=-eq-ok (rule_fields yaml formats allowed fields (no_fields yaml formats)) _ k in
      let (text, p, q) =
        >>=-eq-ok (ok_or seen.action (invalid_action "missing rule.action")) _ k1 in
      let (ids, p1, q1) = >>=-eq-ok (add_id seen.id l.rule_ids) _ q in
      let (action, p2, q2) = >>=-eq-ok (parse_action text) _ q1 in
      let (u, p3, q3) = >>=-eq-ok (check_limited seen.rate_limit action) _ q2 in
      let (own, p4, q4) = >>=-eq-ok (parse_target yaml seen.target) _ q3 in
      let (target, p5, q5) = >>=-eq-ok (add_enclosing own enclosing) _ q4 in
      let (c, p6, q6) = >>=-eq-ok (parse_conditions yaml formats seen.condition) _ q5 in
      let new : Rule = record {
        action = action;
        target = target;
        condition = c;
        rule_index = l.index;
      } in
      record {
        added = new ∷ [];
        appended = ap (λ (x : Loading). x.rules) (sym (ok-injective q6));
        all_added = (λ key value m. add_enclosing-get own enclosing target key value p5 m, tt);
      }

  entries-Extends :
      (entries : List yaml.Value) (l l' : Loading)
      → add_entries yaml formats allowed entries enclosing l ≡ ok l'
      → Extends enclosing l.rules l'.rules
  unfolding add_entries
  entries-Extends [] l l' h =
      subst (λ (x : Loading). Extends enclosing l.rules x.rules) (ok-injective h)
        (Adds-refl (Says enclosing) l.rules)
  entries-Extends (entry ∷ entries) l l' h =
      let (mid, e, k) = >>=-eq-ok (add_rule yaml formats allowed entry enclosing l) _ h in
      Adds-trans {a = l.rules} {b = mid.rules} {c = l'.rules} (add_rule-Extends entry l mid e)
        (entries-Extends entries mid l' k)

  -- A rule sequence that is accepted under an enclosing target leaves the earlier rules as they are,
  -- and each rule that it adds has in its target every entry of the enclosing one.
  pub add_rules-Extends :
      (v : yaml.Value) (l l' : Loading)
      → add_rules yaml formats allowed v enclosing l ≡ ok l'
      → Extends enclosing l.rules l'.rules
  unfolding add_rules
  add_rules-Extends v l l' h =
      let (entries, e, k) =
        >>=-eq-ok (ok_or (yaml.as_sequence v) (invalid_field "rules must be a sequence")) _ h in
      entries-Extends entries l l' k
