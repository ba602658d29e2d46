-- ===== src/Conditions/Pattern.antt =====
-- src/conditions.rs: the portable patterns of `args_match`, and their parser.
pub mod Print
pub mod Printable
use hp_guardian.Prelude.{
  ℕ, Bool, true, false, ◌||◌, List, [], ◌∷◌, ◌++◌, String, if◌then◌else◌, ◌==◌, nat_eq, Result, ok,
  err, ◌>>=◌, chars, ◌⧺◌,
}

pub data TokenKind : Type 0 where
  literal : ℕ → TokenKind
  any : TokenKind

pub record Token : Type 0 where
  pub kind : TokenKind
  pub repeated : Bool

-- `Token::matches`
kind_matches : TokenKind → ℕ → Bool
kind_matches (literal expected) character = expected == character
kind_matches any character = true

unfoldable pub token_matches : Token → ℕ → Bool
unfolding kind_matches
token_matches t character = kind_matches t.kind character

pub record ArgsPattern : Type 0 where
  pub start_anchored : Bool
  pub end_anchored : Bool
  pub tokens : List Token

-- The reasons why a pattern is refused, and their texts.
pub data Reason : Type 0 where
  misplaced_anchor trailing_escape star_without_token star_after_star : Reason
  unsupported_escape unsupported_character : ℕ → Reason

-- The text of a character is a parameter.
abbrev pub reason_text : (ℕ → String) → Reason → String
reason_text character_text misplaced_anchor = "anchors are only valid at pattern boundaries"
reason_text character_text trailing_escape = "pattern ends with an escape"
reason_text character_text star_without_token = "* must follow a literal or ."
reason_text character_text star_after_star = "* cannot repeat another *"
reason_text character_text (unsupported_escape c) = "unsupported escape: \\" ⧺ character_text c
reason_text character_text (unsupported_character c) =
    "unsupported pattern character: " ⧺ character_text c

abbrev pub backslash : ℕ
backslash = b'\\'

abbrev pub is_anchor : ℕ → Bool
is_anchor c = c == b'^' || c == b'$'

unfoldable pub is_escapable : ℕ → Bool
is_escapable c = c == backslash || c == b'.' || c == b'*' || c == b'^' || c == b'$'

unfoldable pub is_unsupported : ℕ → Bool
is_unsupported c =
    c == b'['
    || c == b']'
    || c == b'('
    || c == b')'
    || c == b'{'
    || c == b'}'
    || c == b'|'
    || c == b'+'
    || c == b'?'

abbrev pub plain : TokenKind → Token
plain k = record { kind = k; repeated = false }

-- `*`: the last token becomes repeated.
unfoldable pub repeat_last : List Token → Result Reason (List Token)
repeat_last [] = err star_without_token
repeat_last (t ∷ []) =
    if t.repeated then err star_after_star else ok (record t { repeated = true } ∷ [])
repeat_last (t ∷ u ∷ ts) = do rest ← repeat_last (u ∷ ts); ok (t ∷ rest)

-- The arms of the loop for a character that is neither an anchor nor an escape.
unfoldable pub add_character : ℕ → List Token → Result Reason (List Token)
unfolding repeat_last is_unsupported plain
add_character c tokens =
    if c == b'*'
    then repeat_last tokens
    else if c == b'.'
    then ok (tokens ++ plain any ∷ [])
    else if is_unsupported c
    then err (unsupported_character c)
    else ok (tokens ++ plain (literal c) ∷ [])

-- The loop over what is left of the pattern. It returns `end_anchored` and the tokens.
unfoldable pub parse_tokens : List ℕ → List Token → Result Reason (Bool × List Token)
unfolding add_character is_escapable plain
parse_tokens [] tokens = ok (false, tokens)
parse_tokens (c ∷ []) tokens =
    if c == b'$'
    then ok (true, tokens)
    else if c == b'^'
    then err misplaced_anchor
    else if c == backslash
    then err trailing_escape
    else do ts ← add_character c tokens; ok (false, ts)
parse_tokens (c ∷ d ∷ rest) tokens =
    let after_escape = parse_tokens rest (tokens ++ plain (literal d) ∷ []) in
    if is_anchor c
    then err misplaced_anchor
    else if c == backslash
    then if is_escapable d then after_escape else err (unsupported_escape d)
    else do ts ← add_character c tokens; parse_tokens (d ∷ rest) ts

finish : Bool → List ℕ → Result Reason ArgsPattern
finish start rest = do
  (end, ts) ← parse_tokens rest []
  ok (record { start_anchored = start; end_anchored = end; tokens = ts })

unfoldable pub parse_characters : List ℕ → Result Reason ArgsPattern
unfolding finish parse_tokens
parse_characters [] = finish false []
parse_characters (c ∷ rest) = if c == b'^' then finish true rest else finish false (c ∷ rest)

unfoldable pub parse_args_pattern : String → Result Reason ArgsPattern
unfolding parse_characters
parse_args_pattern pattern = parse_characters (chars pattern)

-- `validate_args_match` of src/conditions.rs
unfoldable pub validate_args_match : String → Result Reason (Unit {0})
unfolding parse_args_pattern
validate_args_match pattern = do p ← parse_args_pattern pattern; ok tt
