-- ===== src/Parser/WellFormed.antt =====
-- What the parser promises of the rules and the rate limits of a policy.
use hp_guardian.Prelude.{
  ℕ, zero, suc, ◌+◌, ◌≤◌, Bool, false, Option, none, some, List, [], ◌∷◌, ◌++◌, map, ◌≡◌, refl, sym,
  ap, ◌∙◌, subst, inl, inr, arith, ◌==◌, nat_eq, string_eq, ok, ok_or, >>=-eq-ok, ok-injective,
  accept-eq-ok, All, ==_iff, Bool-cases,
}
use mathlib.Core.List.{Memᴰ}
use mathlib.Core.List.Memᴰ.{head, tail}
use hp_guardian.Prelude.Map.{Map, get, get-insert}
use hp_guardian.Models.{Action, allow, action_eq, invalid_action, Rule, RateLimit, Condition}
use hp_guardian.Conditions.Meaning.{Each}
use hp_guardian.Engine.{Engine}
use hp_guardian.Parser.{Yaml, mapping, parse_action}
use hp_guardian.Parser.Conditions.{Formats, parse_conditions}
use hp_guardian.Parser.Rules.{
  Loading, RuleFields, no_fields, rule_fields, add_id, check_limited, push_rule, make_rule,
  add_rule,
}
use hp_guardian.Parser.Targets.{Target, parse_target, add_enclosing}
use hp_guardian.Parser.Policy.{nothing_loaded, policy_fields, parse_version}
use hp_guardian.Parser.Bounds.{parse_conditions-bounds}
use hp_guardian.Parser.Trees.{depth, size, IsValid}
use hp_guardian.Parser.Keeps.{policy_fields-keep}
use hp_guardian.Parser.Limits.{InLimits, limit-rule_fields}

abbrev pub IsBounded : Condition → Type 0
IsBounded c = (depth c ≤ 32) × (size c ≤ 128) × IsValid c

-- `0`, `1`, … below the bound.
unfoldable pub upto : ℕ → List ℕ
upto zero = []
upto (suc n) = upto n ++ n ∷ []

-- An allow rule among the rules has the index.
pub record HasAllow (rules : List Rule) (index : ℕ) : Type 0 where
  pub rule : Rule
  pub among : Memᴰ rule rules
  pub numbered : rule.rule_index ≡ index
  pub allows : rule.action ≡ allow

-- The rules are numbered in order, their conditions are bounded, and each rate limit is within its
-- bounds and that of an allow rule.
pub record WellFormed (rules : List Rule) (rate_limits : Map ℕ RateLimit) (count : ℕ) : Type 0 where
  pub indices : map (λ (r : Rule). r.rule_index) rules ≡ upto count
  pub bounded : All (λ (r : Rule). IsBounded r.condition) rules
  pub limited :
      (i : ℕ) (limit : RateLimit)
      → get rate_limits i ≡ some limit
      → InLimits limit × HasAllow rules i

abbrev IsLoaded : Loading → Type 0
IsLoaded l = WellFormed l.rules l.rate_limits l.index

map-snoc :
    (f : Rule → ℕ) (rules : List Rule) (r : Rule)
    → map f (rules ++ r ∷ []) ≡ map f rules ++ f r ∷ []
map-snoc f [] r = refl
map-snoc f (x ∷ rules) r = ap (λ l. f x ∷ l) (map-snoc f rules r)

All-snoc :
    (rules : List Rule) (r : Rule)
    → All (λ (x : Rule). IsBounded x.condition) rules
    → IsBounded r.condition
    → All (λ (x : Rule). IsBounded x.condition) (rules ++ r ∷ [])
All-snoc [] r h b = (b, tt)
All-snoc (x ∷ rules) r h b = (h.0, All-snoc rules r h.1 b)

Mem-before : {r : Rule} {rules : List Rule} (x : Rule) → Memᴰ r rules → Memᴰ r (rules ++ x ∷ [])
Mem-before x (head e) = head e
Mem-before x (tail m) = tail (Mem-before x m)

Mem-last : (rules : List Rule) (x : Rule) → Memᴰ x (rules ++ x ∷ [])
Mem-last [] x = head refl
Mem-last (y ∷ rules) x = tail (Mem-last rules x)

HasAllow-before :
    {rules : List Rule} {i : ℕ} (x : Rule) → HasAllow rules i → HasAllow (rules ++ x ∷ []) i
HasAllow-before x h = record {
  rule = h.rule;
  among = Mem-before x h.among;
  numbered = h.numbered;
  allows = h.allows;
}

upto-suc : (n : ℕ) → upto (n + 1) ≡ upto n ++ n ∷ []
unfolding upto
upto-suc n = let one_more : n + 1 ≡ suc n = omega arith in ap upto one_more

check_limited-allow :
    (limit : RateLimit) (action : Action) (u : Unit {0})
    → check_limited (some limit) action ≡ ok u
    → action ≡ allow
unfolding check_limited
check_limited-allow limit action u h =
    (==_iff action allow).0 (accept-eq-ok (action == allow) _ _ h).0

push_rule-IsLoaded :
    (l : Loading) (action : Action) (target : Target) (c : Condition) (o : Option RateLimit)
    (u : Unit {0})
    → IsLoaded l
    → IsBounded c
    → check_limited o action ≡ ok u
    → Each o InLimits
    → IsLoaded (push_rule l action target c o)
unfolding push_rule
push_rule-IsLoaded l action target c o u h b permitted ins = record {
  indices =
      map-snoc (λ (r : Rule). r.rule_index) l.rules x
      ∙ ap (λ is. is ++ l.index ∷ []) h.indices
      ∙ sym (upto-suc l.index);
  bounded = All-snoc l.rules x h.bounded b;
  limited = limits o permitted ins;
}
  where
    x : Rule
    x = record { action = action; target = target; condition = c; rule_index = l.index }

    limits :
        (o : Option RateLimit)
        → check_limited o action ≡ ok u
        → Each o InLimits
        → (i : ℕ) (limit : RateLimit)
        → get (push_rule l action target c o).rate_limits i ≡ some limit
        → InLimits limit × HasAllow (l.rules ++ x ∷ []) i
    limits none permitted' ins' i limit found =
        let (a, b') = h.limited i limit found in (a, HasAllow-before x b')
    limits (some new) permitted' ins' i limit found = elim (Bool-cases (l.index == i)) [
      | inl same ↦
          let is_new : new ≡ limit = ground (arith, get-insert l.rate_limits l.index i new) in
          (
            subst InLimits is_new ins',
            record {
              rule = x;
              among = Mem-last l.rules x;
              numbered = (==_iff l.index i).0 same;
              allows = check_limited-allow new action u permitted';
            },
          )
      | inr other ↦
          let (a, b') =
            h.limited i limit (ground (arith, get-insert l.rate_limits l.index i new)) in
          (a, HasAllow-before x b')
    ]

module _ (yaml : Yaml) (formats : Formats) where
  abbrev RuleSeen : Type 0
  RuleSeen = RuleFields yaml formats

  -- Without permission for rate limits there is none.
  add_rule-unlimited :
      (v : yaml.Value) (enclosing : Target) (l l' : Loading)
      → add_rule yaml formats false v enclosing l ≡ ok l'
      → l.rate_limits ≡ []
      → l'.rate_limits ≡ []
  unfolding add_rule make_rule
  add_rule-unlimited v enclosing l l' h none_yet =
      let (fields, e, k) = >>=-eq-ok (mapping yaml v "rule") _ h in
      let (seen, e1, k1) =
        >>=-eq-ok (rule_fields yaml formats false fields (no_fields yaml formats)) _ k in
      let no_limit =
        limit-rule_fields yaml formats false (λ o. o ≡ none) (λ t limit ins. cc t) fields _ seen e1
          refl in
      let (text, p, q) =
        >>=-eq-ok (ok_or seen.action (invalid_action "missing rule.action")) _ k1 in
      let (ids, p1, q1) = >>=-eq-ok (add_id seen.id l.rule_ids) _ q in
      let (action, p2, q2) = >>=-eq-ok (parse_action text) _ q1 in
      let (u, p3, q3) = >>=-eq-ok (check_limited seen.rate_limit action) _ q2 in
      let (own, p4, q4) = >>=-eq-ok (parse_target yaml seen.target) _ q3 in
      let (target, p5, q5) = >>=-eq-ok (add_enclosing own enclosing) _ q4 in
      let (c, p6, q6) = >>=-eq-ok (parse_conditions yaml formats seen.condition) _ q5 in
      ap (λ (x : Loading). x.rate_limits) (sym (ok-injective q6))
      ∙ pushed (record l { rule_ids = ids }) action target c seen.rate_limit no_limit none_yet
    where
      pushed :
          (m : Loading) (action : Action) (target : Target) (c : Condition) (o : Option RateLimit)
          → o ≡ none
          → m.rate_limits ≡ []
          → (push_rule m action target c o).rate_limits ≡ []
      pushed m action target c none e r = unfold push_rule in r
      pushed m action target c (some limit) e r = cc e

  make_rule-IsLoaded :
      (seen : RuleSeen) (enclosing : Target) (l l' : Loading)
      → make_rule yaml formats seen enclosing l ≡ ok l'
      → Each seen.rate_limit InLimits
      → IsLoaded l
      → IsLoaded l'
  unfolding make_rule
  make_rule-IsLoaded seen enclosing l l' h ins good =
      let (text, e, k) = >>=-eq-ok (ok_or seen.action (invalid_action "missing rule.action")) _ h in
      let (ids, e1, k1) = >>=-eq-ok (add_id seen.id l.rule_ids) _ k in
      let (action, e2, k2) = >>=-eq-ok (parse_action text) _ k1 in
      let (u, permitted, k3) = >>=-eq-ok (check_limited seen.rate_limit action) _ k2 in
      let (own, e4, k4) = >>=-eq-ok (parse_target yaml seen.target) _ k3 in
      let (target, e5, k5) = >>=-eq-ok (add_enclosing own enclosing) _ k4 in
      let (c, e6, k6) = >>=-eq-ok (parse_conditions yaml formats seen.condition) _ k5 in
      let ready : IsLoaded (record l { rule_ids = ids }) = record {
        indices = good.indices;
        bounded = good.bounded;
        limited = good.limited;
      } in
      subst IsLoaded (ok-injective k6) (
        push_rule-IsLoaded (record l { rule_ids = ids }) action target c seen.rate_limit u ready
          (parse_conditions-bounds yaml formats seen.condition c e6) permitted ins)

  add_rule-IsLoaded :
      (allowed : Bool) (v : yaml.Value) (enclosing : Target) (l l' : Loading)
      → add_rule yaml formats allowed v enclosing l ≡ ok l'
      → IsLoaded l
      → IsLoaded l'
  unfolding add_rule
  add_rule-IsLoaded allowed v enclosing l l' h good =
      let (fields, e, k) = >>=-eq-ok (mapping yaml v "rule") _ h in
      let (seen, e1, k1) =
        >>=-eq-ok (rule_fields yaml formats allowed fields (no_fields yaml formats)) _ k in
      make_rule-IsLoaded seen enclosing l l' k1
        (limit-rule_fields yaml formats allowed (λ o. Each o InLimits) (λ t limit ins. ins) fields _
          seen e1 tt)
        good

  -- The parser of a version that permits no rate limits makes none.
  pub parse_version-unlimited :
      (policy : yaml.Value) (version : ℕ) (e : Engine)
      → parse_version yaml formats policy version false ≡ ok e
      → e.rate_limits ≡ []
  unfolding parse_version
  parse_version-unlimited policy version e h =
      let (fields, p, k) = >>=-eq-ok (mapping yaml policy "policy") _ h in
      let ((action, l), p1, k1) =
        >>=-eq-ok (policy_fields yaml formats false fields (allow, nothing_loaded)) _ k in
      ap (λ (x : Engine). x.rate_limits) (sym (ok-injective k1))
      ∙ policy_fields-keep yaml formats false (λ m. m.rate_limits ≡ []) add_rule-unlimited fields
          (allow, nothing_loaded) (action, l) p1 refl

  nothing-IsLoaded : IsLoaded nothing_loaded
  nothing-IsLoaded = record {
    indices = unfold upto in refl;
    bounded = tt;
    limited = λ i limit found. absurd (unfold get in cc found);
  }

  -- Each policy of either version that the parser accepts has its rules numbered from 0 in order,
  -- conditions within the bounds of depth and size whose patterns parse and whose windows are not
  -- empty, and rate limits from 1 to 86400 that each belong to an allow rule.
  pub parse_version-WellFormed :
      (policy : yaml.Value) (version : ℕ) (allowed : Bool) (e : Engine)
      → parse_version yaml formats policy version allowed ≡ ok e
      → (n : ℕ) × WellFormed e.rules e.rate_limits n
  unfolding parse_version
  parse_version-WellFormed policy version allowed e h =
      let (fields, p, k) = >>=-eq-ok (mapping yaml policy "policy") _ h in
      let ((action, l), p1, k1) =
        >>=-eq-ok (policy_fields yaml formats allowed fields (allow, nothing_loaded)) _ k in
      let good =
        policy_fields-keep yaml formats allowed IsLoaded (add_rule-IsLoaded allowed) fields
          (allow, nothing_loaded) (action, l) p1 nothing-IsLoaded in
      (
        l.index,
        subst (λ (x : Engine). WellFormed x.rules x.rate_limits l.index) (ok-injective k1) good,
      )
