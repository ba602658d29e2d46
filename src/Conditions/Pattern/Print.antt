-- ===== src/Conditions/Pattern/Print.antt =====
-- Patterns written back as text, and the parser on what is written.
use hp_guardian.Prelude.{
  ℕ, Bool, true, false, List, [], ◌∷◌, ◌++◌, ◌≡◌, refl, ap, ◌∙◌, arith, inl, inr, if◌then◌else◌,
  ◌==◌, nat_eq, ok, ◌>>=◌, All, Bool-cases,
}
use mathlib.Core.List.{append_assoc, append-nil}
use hp_guardian.Conditions.Pattern.{
  TokenKind, literal, any, Token, ArgsPattern, backslash, is_anchor, is_escapable, is_unsupported,
  plain, repeat_last, add_character, parse_tokens, finish, parse_characters,
}

-- A literal is escaped where it would mean something else.
unfoldable pub print_kind : TokenKind → List ℕ
print_kind (literal c) = if is_escapable c then backslash ∷ c ∷ [] else c ∷ []
print_kind any = b'.' ∷ []

unfoldable pub print_tokens : List Token → List ℕ
unfolding print_kind
print_tokens [] = []
print_tokens (t ∷ ts) =
    print_kind t.kind ++ ((if t.repeated then b'*' ∷ [] else []) ++ print_tokens ts)

abbrev pub anchor_end : Bool → List ℕ
anchor_end end = if end then b'$' ∷ [] else []

unfoldable pub print_pattern : ArgsPattern → List ℕ
unfolding print_tokens
print_pattern p =
    (if p.start_anchored then b'^' ∷ [] else [])
    ++ (print_tokens p.tokens ++ anchor_end p.end_anchored)

-- The characters that no pattern can name have no escape.
abbrev pub IsPrintable : TokenKind → Type 0
IsPrintable (literal c) = is_unsupported c ≡ false
IsPrintable any = Unit

abbrev pub ArePrintable : List Token → Type 0
ArePrintable ts = All (λ (t : Token). IsPrintable t.kind) ts

parse_tokens-character :
    (c : ℕ) (rest : List ℕ) (ts : List Token)
    → is_anchor c ≡ false
    → (c == backslash) ≡ false
    → parse_tokens (c ∷ rest) ts ≡ (do ts' ← add_character c ts; parse_tokens rest ts')
unfolding parse_tokens
parse_tokens-character c [] ts a b = ground arith
parse_tokens-character c (d ∷ rest) ts a b = ground arith

parse_tokens-escape :
    (d : ℕ) (rest : List ℕ) (ts : List Token)
    → is_escapable d ≡ true
    → parse_tokens (backslash ∷ d ∷ rest) ts ≡ parse_tokens rest (ts ++ plain (literal d) ∷ [])
unfolding parse_tokens
parse_tokens-escape d rest ts e = ground arith

repeat_last-append :
    (ts : List Token) (t : Token)
    → t.repeated ≡ false
    → repeat_last (ts ++ t ∷ []) ≡ ok (ts ++ record t { repeated = true } ∷ [])
unfolding repeat_last
repeat_last-append [] t h = ground arith
repeat_last-append (u ∷ []) t h = ground arith
repeat_last-append (u ∷ v ∷ ts) t h = ground (arith, repeat_last-append (v ∷ ts) t h)

-- A printed kind parses to its plain token.
parse-print_kind :
    (k : TokenKind) (rest : List ℕ) (ts : List Token)
    → IsPrintable k
    → parse_tokens (print_kind k ++ rest) ts ≡ parse_tokens rest (ts ++ plain k ∷ [])
unfolding print_kind
parse-print_kind any rest ts h =
    parse_tokens-character b'.' rest ts refl refl ∙ (unfold add_character in refl)
parse-print_kind (literal c) rest ts h = elim (Bool-cases (is_escapable c)) [
  | inl e ↦ rw e (parse_tokens-escape c rest ts e)
  | inr e ↦ rw e (
      parse_tokens-character c rest ts (unfold is_escapable in ground arith)
        (unfold is_escapable in ground arith)
      ∙ (unfold is_escapable add_character in ground arith))
]

starred : Bool → List ℕ
starred b = if b then b'*' ∷ [] else []

-- The star of a printed token, read after its kind.
parse-starred :
    (k : TokenKind) (b : Bool) (rest : List ℕ) (ts : List Token)
    → parse_tokens (starred b ++ rest) (ts ++ plain k ∷ [])
      ≡ parse_tokens rest (ts ++ record { kind = k; repeated = b } ∷ [])
unfolding starred plain
parse-starred k false rest ts = refl
parse-starred k true rest ts =
    parse_tokens-character b'*' rest (ts ++ plain k ∷ []) refl refl
    ∙ (unfold add_character in rw (repeat_last-append ts (plain k) refl) refl)

parse-print_tokens :
    (ts : List Token) (end : Bool) (acc : List Token)
    → ArePrintable ts
    → parse_tokens (print_tokens ts ++ anchor_end end) acc ≡ ok (end, acc ++ ts)
unfolding print_tokens starred
parse-print_tokens [] true acc h = unfold parse_tokens in rw (append-nil acc) refl
parse-print_tokens [] false acc h = unfold parse_tokens in rw (append-nil acc) refl
parse-print_tokens (t ∷ ts) end acc (h, hs) =
    ap (λ cs. parse_tokens cs acc)
      (append_assoc (print_kind t.kind) (starred t.repeated ++ print_tokens ts) (anchor_end end))
    ∙ parse-print_kind t.kind ((starred t.repeated ++ print_tokens ts) ++ anchor_end end) acc h
    ∙ ap (λ cs. parse_tokens cs (acc ++ plain t.kind ∷ []))
        (append_assoc (starred t.repeated) (print_tokens ts) (anchor_end end))
    ∙ parse-starred t.kind t.repeated (print_tokens ts ++ anchor_end end) acc
    ∙ parse-print_tokens ts end (acc ++ t ∷ []) hs
    ∙ ap (λ us. ok (end, us)) (append_assoc acc (t ∷ []) ts)

-- What is printed never starts like an anchored pattern.
parse_characters-unanchored :
    (ts : List Token) (end : Bool)
    → parse_characters (print_tokens ts ++ anchor_end end)
      ≡ finish false (print_tokens ts ++ anchor_end end)
unfolding parse_characters print_tokens print_kind starred
parse_characters-unanchored [] true = refl
parse_characters-unanchored [] false = refl
parse_characters-unanchored (t ∷ ts) end =
    unanchored_kind t.kind (starred t.repeated ++ print_tokens ts)
  where
    unanchored_kind :
        (k : TokenKind) (rest : List ℕ)
        → parse_characters ((print_kind k ++ rest) ++ anchor_end end)
          ≡ finish false ((print_kind k ++ rest) ++ anchor_end end)
    unanchored_kind any rest = refl
    unanchored_kind (literal c) rest = elim (Bool-cases (is_escapable c)) [
      | inl e ↦ rw e refl
      | inr e ↦
          let no_caret : (c == b'^') ≡ false = unfold is_escapable in ground arith in
          rw (e, no_caret) refl
    ]

parse-print_parts :
    (s e : Bool) (ts : List Token)
    → ArePrintable ts
    → parse_characters ((if s then b'^' ∷ [] else []) ++ (print_tokens ts ++ anchor_end e))
      ≡ ok (record { start_anchored = s; end_anchored = e; tokens = ts })
unfolding finish
parse-print_parts true e ts h = unfold parse_characters in rw (parse-print_tokens ts e [] h) refl
parse-print_parts false e ts h =
    parse_characters-unanchored ts e ∙ rw (parse-print_tokens ts e [] h) refl

-- A pattern whose literals can all be named in a pattern (none of them is a character that
-- `parse_args_pattern` refuses) is what the parser reads from its printed text.
pub parse-print_pattern :
    (p : ArgsPattern) → ArePrintable p.tokens → parse_characters (print_pattern p) ≡ ok p
unfolding print_pattern
parse-print_pattern p h = parse-print_parts p.start_anchored p.end_anchored p.tokens h
