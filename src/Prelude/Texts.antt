-- ===== src/Prelude/Texts.antt =====
-- Texts: code points, prefixes, joining.
use Prim.Native.Nat.{ℕ}
use Prim.Native.Char.{code}
use Prim.Native.String
use Prim.Native.String.{String}
use mathlib.Core.Path.{◌≡◌, refl, ap, ap₂, sym, ◌∙◌}
use mathlib.Core.Option.{Option, none, some, some-injective}
use mathlib.Core.List.{List, [], ◌∷◌}
use mathlib.Core.Logic.{◌↔◌, inl, inr}
use text.Mathlib.TextEquality.{Char-path}
use text.Mathlib.TextLemmas.{nil-append, cons-append, nil≢cons, cons-eq-cons}
use hp_guardian.Prelude.Tests.{eqb, eqb_iff, Bool-cases, if◌then◌else◌}

infixr 65 ◌⧺◌
-- The concatenation of texts.
abbrev pub ◌⧺◌ : String → String → String
s ⧺ t = String.◌++◌ s t

-- The code points of a text: `str::chars`.
abbrev pub chars : String → List ℕ
chars String.[] = []
chars (String.◌∷◌ c s) = code c ∷ chars s

-- `str::strip_prefix`
unfoldable pub strip_prefix : String → String → Option String
strip_prefix String.[] s = some s
strip_prefix (String.◌∷◌ c p) String.[] = none
strip_prefix (String.◌∷◌ c p) (String.◌∷◌ d s) =
    if eqb (code c) (code d) then strip_prefix p s else none

-- `[String]::join`
unfoldable pub join : String → List String → String
join sep [] = ""
join sep (s ∷ []) = s
join sep (s ∷ t ∷ rest) = s ⧺ sep ⧺ join sep (t ∷ rest)

strip_context : strip_prefix "context." "context.phase" ≡ some "phase"
unfolding strip_prefix
strip_context = refl

join_three : join " " ("a" ∷ "b" ∷ "c" ∷ []) ≡ "a b c"
unfolding join
join_three = refl

-- A prefix is stripped exactly where the text begins with it, and what is left is the rest.
pub strip_prefix_iff : (p s r : String) → (strip_prefix p s ≡ some r) ↔ (s ≡ p ⧺ r)
unfolding strip_prefix
strip_prefix_iff String.[] s r =
    (λ h. some-injective s r h ∙ sym (nil-append r), λ h. ap some (h ∙ nil-append r))
strip_prefix_iff (String.◌∷◌ c p) String.[] r =
    (λ h. cc, λ h. absurd (nil≢cons (h ∙ cons-append c p r)))
strip_prefix_iff (String.◌∷◌ c p) (String.◌∷◌ d s) r =
    let (sound, complete) = strip_prefix_iff p s r in
    elim (Bool-cases (eqb (code c) (code d))) [
      | inl same ↦
          let chars_equal = Char-path c d ((eqb_iff (code c) (code d)).0 same) in
          rw same (
            λ h. ap₂ String.◌∷◌ (sym chars_equal) (sound h) ∙ sym (cons-append c p r),
            λ h. complete ((cons-eq-cons.0 (h ∙ cons-append c p r)).1),
          )
      | inr other ↦ rw other (
        λ h. cc,
        λ h.
            let heads = (cons-eq-cons.0 (h ∙ cons-append c p r)).0 in
            let codes = (eqb_iff (code c) (code d)).1 (ap code (sym heads)) in cc (codes, other),
      )
    ]
