-- ===== src/Conditions/Meaning.antt =====
-- What a condition tree says of a call at an instant, and that `evaluate_at` decides it.
use hp_guardian.Prelude.{
  ◌≤◌, ◌<◌, String, Bool, true, List, [], ◌∷◌, ◌≡◌, refl, arith, ◌↔◌, ◌⊎◌, inl, inr, Option, none,
  some, Any, any, chars, join, and_iff, or_iff, not_iff, ok,
}
use hp_guardian.Models.{
  Condition, Conditions, nil, cons, leaves, Instant, TimeWindow, PolicyCall, Rule,
}
use hp_guardian.Conditions.{
  is_none_or, args_hold, path_holds, in_window, evaluate_condition, evaluate_all, evaluate_any,
  evaluate_at,
}
use hp_guardian.Conditions.Pattern.{ArgsPattern, parse_args_pattern}
use hp_guardian.Conditions.Matcher.Search.{Occurs, args_match_iff}
use hp_guardian.Conditions.Glob.Globs.{Globs, path_matches_iff}

-- A leaf that is left out holds.
abbrev pub Each : {A : Type 0} → Option A → (A → Type 0) → Type 0
Each none P = Unit
Each (some a) P = P a

-- The arguments, joined by spaces, match the pattern.
abbrev pub ArgsHold : PolicyCall → String → Type 0
ArgsHold call pattern =
    (p : ArgsPattern) × (parse_args_pattern pattern ≡ ok p) × Occurs p (chars (join " " call.args))

-- Some argument matches the path pattern.
abbrev pub PathHolds : PolicyCall → String → Type 0
PathHolds call pattern = Any (λ argument. Globs (chars pattern) (chars argument)) call.args

abbrev pub InWindow : Instant → TimeWindow → Type 0
InWindow now window = (window.start ≤ now) × (now < window.end)

unfoldable mutual
  pub Holds : Condition → PolicyCall → Instant → Type 0
  Holds (leaves args_pattern path_pattern time_window) call now =
      Each args_pattern (ArgsHold call)
      × Each path_pattern (PathHolds call)
      × Each time_window (InWindow now)
  Holds (Condition.all children) call now = HoldsAll children call now
  Holds (Condition.any children) call now = HoldsAny children call now
  Holds (Condition.not child) call now = ¬ Holds child call now

  pub HoldsAll : Conditions → PolicyCall → Instant → Type 0
  HoldsAll nil call now = Unit
  HoldsAll (cons child rest) call now = Holds child call now × HoldsAll rest call now

  pub HoldsAny : Conditions → PolicyCall → Instant → Type 0
  HoldsAny nil call now = ⊥
  HoldsAny (cons child rest) call now = Holds child call now ⊎ HoldsAny rest call now

is_none_or_iff :
    {A : Type 0} (o : Option A) (f : A → Bool) (P : A → Type 0)
    → ((a : A) → (f a ≡ true) ↔ P a)
    → (is_none_or o f ≡ true) ↔ Each o P
is_none_or_iff none f P h = (λ e. tt, λ u. refl)
is_none_or_iff (some a) f P h = h a

any_iff :
    {A : Type 0} (l : List A) (f : A → Bool) (P : A → Type 0)
    → ((a : A) → (f a ≡ true) ↔ P a)
    → (any l f ≡ true) ↔ Any P l
any_iff [] f P h = (λ e. cc, λ x. absurd x)
any_iff (a ∷ l) f P h = (
  λ e. elim ((or_iff (f a) (any l f)).0 e) [
    | inl x ↦ inl ((h a).0 x)
    | inr y ↦ inr ((any_iff l f P h).0 y)
  ],
  λ s.
      (or_iff (f a) (any l f)).1
        (elim s [ inl x ↦ inl ((h a).1 x) | inr y ↦ inr ((any_iff l f P h).1 y) ]),
)

in_window_iff : (now : Instant) (w : TimeWindow) → (in_window now w ≡ true) ↔ InWindow now w
in_window_iff now w = ground arith

path_holds_iff :
    (call : PolicyCall) (pattern : String)
    → (path_holds call pattern ≡ true) ↔ PathHolds call pattern
unfolding path_holds
path_holds_iff call pattern =
    any_iff call.args _ _ (λ argument. path_matches_iff (chars pattern) (chars argument))

args_hold_iff :
    (call : PolicyCall) (pattern : String) → (args_hold call pattern ≡ true) ↔ ArgsHold call pattern
unfolding args_hold
args_hold_iff call pattern = args_match_iff (join " " call.args) pattern

mutual
  unfolding evaluate_condition Holds

  condition_iff :
      (c : Condition) (call : PolicyCall) (now : Instant)
      → (evaluate_condition c call now ≡ true) ↔ Holds c call now
  condition_iff (leaves a p w) call now =
      let ia = is_none_or_iff a (args_hold call) (ArgsHold call) (args_hold_iff call) in
      let ip = is_none_or_iff p (path_holds call) (PathHolds call) (path_holds_iff call) in
      let iw = is_none_or_iff w (in_window now) (InWindow now) (in_window_iff now) in
      (
        λ e.
            let (xy, z) = (and_iff _ _).0 e in
            let (x, y) = (and_iff _ _).0 xy in (ia.0 x, ip.0 y, iw.0 z),
        λ (x, y, z). (and_iff _ _).1 ((and_iff _ _).1 (ia.1 x, ip.1 y), iw.1 z),
      )
  condition_iff (Condition.all children) call now = all_iff children call now
  condition_iff (Condition.any children) call now = some_iff children call now
  condition_iff (Condition.not child) call now =
      let i = condition_iff child call now in
      let n = not_iff (evaluate_condition child call now) in
      (λ e h. n.0 e (i.1 h), λ k. n.1 (λ e. k (i.0 e)))

  all_iff :
      (cs : Conditions) (call : PolicyCall) (now : Instant)
      → (evaluate_all cs call now ≡ true) ↔ HoldsAll cs call now
  all_iff nil call now = (λ e. tt, λ u. refl)
  all_iff (cons child rest) call now =
      let i = condition_iff child call now in
      let r = all_iff rest call now in
      let a = and_iff (evaluate_condition child call now) (evaluate_all rest call now) in
      (λ e. (i.0 (a.0 e).0, r.0 (a.0 e).1), λ h. a.1 (i.1 h.0, r.1 h.1))

  some_iff :
      (cs : Conditions) (call : PolicyCall) (now : Instant)
      → (evaluate_any cs call now ≡ true) ↔ HoldsAny cs call now
  some_iff nil call now = (λ e. cc, λ x. absurd x)
  some_iff (cons child rest) call now =
      let i = condition_iff child call now in
      let r = some_iff rest call now in
      let o = or_iff (evaluate_condition child call now) (evaluate_any rest call now) in
      (
        λ e. elim (o.0 e) [ inl x ↦ inl (i.0 x) | inr y ↦ inr (r.0 y) ],
        λ h. o.1 (elim h [ inl x ↦ inl (i.1 x) | inr y ↦ inr (r.1 y) ]),
      )

-- A rule's conditions evaluate to true exactly where its condition tree holds of the call: each leaf
-- given matches, `all` and `any` range over their children, `not` negates.
pub evaluate_at_iff :
    (rule : Rule) (call : PolicyCall) (now : Instant)
    → (evaluate_at rule call now ≡ true) ↔ Holds rule.condition call now
unfolding evaluate_at
evaluate_at_iff rule call now = condition_iff rule.condition call now
