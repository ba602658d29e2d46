-- ===== src/Parser.antt =====
-- src/parser.rs: what the parser of policies reads, over the values of the YAML library.
pub mod Conditions
pub mod Targets
pub mod Rules
pub mod Policy
pub mod Trees
pub mod Bounds
pub mod Keeps
pub mod Limits
pub mod WellFormed
pub mod Versions
pub mod Scope
pub mod Agents
use Prim.Native.Char.{Char, code}
use Prim.Native.String
use hp_guardian.Prelude.{
  ℕ, ◌+◌, String, Bool, true, false, ◌&&◌, ◌||◌, Option, none, some, List, [], ◌∷◌, map,
  if◌then◌else◌, ltb, leb, any, all, ◌==◌, nat_eq, string_eq, list_eq, option_eq, Result, ok, err,
  ◌>>=◌, ok_or, map_err, chars, ◌⧺◌,
}
use hp_guardian.Models.{
  Action, allow, deny, throttle, log, require_approval, redirect, PolicyError, invalid_action,
  invalid_field,
}

-- An `i64` of the YAML library: `negsuc n` is `- (n + 1)`.
pub data ℤ : Type 0 where
  pos : ℕ → ℤ
  negsuc : ℕ → ℤ

-- What the parser uses of `serde_yaml`: the reader of documents, the views of a value, and the
-- text of a value and of an `i64`. A mapping is its entries in document order.
pub record Yaml : Type 1 where
  pub Value : Type 0
  pub from_str : String → Result String Value
  pub as_str : Value → Option String
  pub as_i64 : Value → Option ℤ
  pub as_u64 : Value → Option ℕ
  pub as_sequence : Value → Option (List Value)
  pub as_mapping : Value → Option (List (Value × Value))
  pub to_string : Value → Option String
  pub i64_text : ℤ → String

-- `char::is_whitespace`
abbrev pub is_whitespace : ℕ → Bool
is_whitespace c =
    (leb 9 c && leb c 13)
    || c == 32
    || c == 133
    || c == 160
    || c == 5760
    || (leb 8192 c && leb c 8202)
    || c == 8232
    || c == 8233
    || c == 8239
    || c == 8287
    || c == 12288

trim_start : String → String
trim_start String.[] = ""
trim_start (String.◌∷◌ c s) = if is_whitespace (code c) then trim_start s else String.◌∷◌ c s

abbrev pub is_empty_text : String → Bool
is_empty_text String.[] = true
is_empty_text (String.◌∷◌ c s) = false

trim_end : String → String
trim_end String.[] = ""
trim_end (String.◌∷◌ c s) =
    let rest = trim_end s in
    if is_whitespace (code c) && is_empty_text rest then "" else String.◌∷◌ c rest

-- `str::trim`
unfoldable pub trim : String → String
unfolding trim_start trim_end
trim s = trim_end (trim_start s)

-- `char::to_ascii_lowercase`
abbrev pub lower : ℕ → ℕ
lower c = if leb b'A' c && leb c b'Z' then c + 32 else c

abbrev pub is_ascii_digit : ℕ → Bool
is_ascii_digit c = leb b'0' c && leb c b'9'

-- The characters that may follow in a number, a time or a date.
abbrev pub is_number_character : ℕ → Bool
is_number_character c = is_ascii_digit c || any (chars "_:.+-eExXoObB") (λ mark. c == mark)

unfoldable pub is_ambiguous_characters : List ℕ → Bool
is_ambiguous_characters value =
    any ("y" ∷ "yes" ∷ "n" ∷ "no" ∷ "true" ∷ "false" ∷ "on" ∷ "off" ∷ "null" ∷ "~" ∷ [])
      (λ word. map lower value == chars word)
    || looks_numeric value
  where
    looks_numeric : List ℕ → Bool
    looks_numeric [] = false
    looks_numeric (first ∷ rest) =
        (is_ascii_digit first || first == b'+' || first == b'-')
        && all (first ∷ rest) is_number_character

unfoldable pub is_ambiguous_yaml_scalar : String → Bool
unfolding is_ambiguous_characters
is_ambiguous_yaml_scalar value = is_ambiguous_characters (chars value)

unfoldable pub parse_action : String → Result PolicyError Action
parse_action action =
    if action == "allow"
    then ok allow
    else if action == "deny"
    then ok deny
    else if action == "throttle"
    then ok throttle
    else if action == "log"
    then ok log
    else if action == "require_approval"
    then ok require_approval
    else if action == "redirect"
    then ok redirect
    else err (invalid_action action)

module _ (yaml : Yaml) where
  abbrev pub mapping : yaml.Value → String → Result PolicyError (List (yaml.Value × yaml.Value))
  mapping value description =
      ok_or (yaml.as_mapping value) (invalid_field (description ⧺ " must be a mapping"))

  abbrev pub field_name : yaml.Value → String → Result PolicyError String
  field_name field scope =
      ok_or (yaml.as_str field) (invalid_field (scope ⧺ " field names must be strings"))

  abbrev pub value_description : yaml.Value → String
  unfolding trim
  value_description value =
      trim (elim (yaml.to_string value) [ none ↦ "non-string value" | some text ↦ text ])

  -- `find_map` for the first field with a name.
  abbrev pub find_field : String → List (yaml.Value × yaml.Value) → Option yaml.Value
  find_field name [] = none
  find_field name ((field, value) ∷ fields) =
      if yaml.as_str field == some name then some value else find_field name fields
