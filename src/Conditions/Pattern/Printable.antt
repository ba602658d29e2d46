-- ===== src/Conditions/Pattern/Printable.antt =====
-- The patterns that the parser makes.
use hp_guardian.Prelude.{
  ℕ, Bool, true, false, List, [], ◌∷◌, ◌++◌, ◌≡◌, subst, arith, inl, inr, ◌==◌, nat_eq, ok,
  >>=-eq-ok, ok-injective, if-eq-ok, refuse-eq-ok, accept-eq-ok,
}
use hp_guardian.Conditions.Pattern.{
  Token, ArgsPattern, literal, any, plain, backslash, is_anchor, is_escapable, is_unsupported,
  repeat_last, add_character, parse_tokens, finish, parse_characters, star_after_star,
  misplaced_anchor, trailing_escape, unsupported_escape, unsupported_character,
}
use hp_guardian.Conditions.Pattern.Print.{ArePrintable, print_pattern, parse-print_pattern}

ArePrintable-append :
    (ts us : List Token) → ArePrintable ts → ArePrintable us → ArePrintable (ts ++ us)
ArePrintable-append [] us h k = k
ArePrintable-append (t ∷ ts) us h k = (h.0, ArePrintable-append ts us h.1 k)

repeat_last-ArePrintable :
    (ts us : List Token) → repeat_last ts ≡ ok us → ArePrintable ts → ArePrintable us
unfolding repeat_last
repeat_last-ArePrintable [] us e h = cc
repeat_last-ArePrintable (t ∷ []) us e h =
    let (once, k) = refuse-eq-ok t.repeated star_after_star _ e in
    subst ArePrintable (ok-injective k) h
repeat_last-ArePrintable (t ∷ u ∷ ts) us e h =
    let (vs, r, k) = >>=-eq-ok (repeat_last (u ∷ ts)) _ e in
    subst ArePrintable (ok-injective k) (h.0, repeat_last-ArePrintable (u ∷ ts) vs r h.1)

escapable-supported : (d : ℕ) → is_escapable d ≡ true → is_unsupported d ≡ false
unfolding is_escapable is_unsupported
escapable-supported d h = ground arith

add_character-ArePrintable :
    (c : ℕ) (ts us : List Token) → add_character c ts ≡ ok us → ArePrintable ts → ArePrintable us
unfolding add_character
add_character-ArePrintable c ts us e h = elim (if-eq-ok (c == b'*') _ _ e) [
  | inl (star, r) ↦ repeat_last-ArePrintable ts us r h
  | inr (no_star, r) ↦ elim (if-eq-ok (c == b'.') _ _ r) [
    | inl (dot, k) ↦
        subst ArePrintable (ok-injective k) (ArePrintable-append ts (plain any ∷ []) h (tt, tt))
    | inr (no_dot, k) ↦
        let (supported, k1) = refuse-eq-ok (is_unsupported c) (unsupported_character c) _ k in
        subst ArePrintable (ok-injective k1)
          (ArePrintable-append ts (plain (literal c) ∷ []) h (supported, tt))
  ]
]

parse_tokens-ArePrintable :
    (cs : List ℕ) (ts : List Token) (end : Bool) (us : List Token)
    → parse_tokens cs ts ≡ ok (end, us)
    → ArePrintable ts
    → ArePrintable us
unfolding parse_tokens
parse_tokens-ArePrintable [] ts end us e h =
    subst (λ (p : Bool × List Token). ArePrintable p.1) (ok-injective e) h
parse_tokens-ArePrintable (c ∷ []) ts end us e h = elim (if-eq-ok (c == b'$') _ _ e) [
  | inl (dollar, k) ↦ subst (λ (p : Bool × List Token). ArePrintable p.1) (ok-injective k) h
  | inr (no_dollar, k) ↦
      let (no_caret, k1) = refuse-eq-ok (c == b'^') misplaced_anchor _ k in
      let (no_escape, k2) = refuse-eq-ok (c == backslash) trailing_escape _ k1 in
      let (vs, r, k3) = >>=-eq-ok (add_character c ts) _ k2 in
      subst (λ (p : Bool × List Token). ArePrintable p.1) (ok-injective k3)
        (add_character-ArePrintable c ts vs r h)
]
parse_tokens-ArePrintable (c ∷ d ∷ rest) ts end us e h =
    let (no_anchor, k) = refuse-eq-ok (is_anchor c) misplaced_anchor _ e in
    elim (if-eq-ok (c == backslash) _ _ k) [
      | inl (escape, k1) ↦
          let (can, k2) = accept-eq-ok (is_escapable d) (unsupported_escape d) _ k1 in
          parse_tokens-ArePrintable rest (ts ++ plain (literal d) ∷ []) end us k2
            (ArePrintable-append ts (plain (literal d) ∷ []) h (escapable-supported d can, tt))
      | inr (no_escape, k1) ↦
          let (vs, r, k2) = >>=-eq-ok (add_character c ts) _ k1 in
          parse_tokens-ArePrintable (d ∷ rest) vs end us k2 (add_character-ArePrintable c ts vs r h)
    ]

finish-ArePrintable :
    (start : Bool) (rest : List ℕ) (p : ArgsPattern)
    → finish start rest ≡ ok p
    → ArePrintable p.tokens
unfolding finish
finish-ArePrintable start rest p e =
    let ((end, ts), r, k) = >>=-eq-ok (parse_tokens rest []) _ e in
    subst (λ (q : ArgsPattern). ArePrintable q.tokens) (ok-injective k)
      (parse_tokens-ArePrintable rest [] end ts r tt)

parse_characters-ArePrintable :
    (cs : List ℕ) (p : ArgsPattern) → parse_characters cs ≡ ok p → ArePrintable p.tokens
unfolding parse_characters
parse_characters-ArePrintable [] p e = finish-ArePrintable false [] p e
parse_characters-ArePrintable (c ∷ rest) p e = elim (if-eq-ok (c == b'^') _ _ e) [
  | inl (caret, k) ↦ finish-ArePrintable true rest p k
  | inr (other, k) ↦ finish-ArePrintable false (c ∷ rest) p k
]

-- Whatever text a pattern was parsed from, its printed text parses to the same pattern: printing is
-- a normal form of the patterns that the parser accepts.
pub parse_characters-print_pattern :
    (cs : List ℕ) (p : ArgsPattern)
    → parse_characters cs ≡ ok p
    → parse_characters (print_pattern p) ≡ ok p
parse_characters-print_pattern cs p e = parse-print_pattern p (parse_characters-ArePrintable cs p e)
