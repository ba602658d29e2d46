-- ===== src/Conditions/Matcher/Matches.antt =====
-- When a text matches the tokens of a pattern, with no search order and no table in it.
use hp_guardian.Prelude.{
  ℕ, Bool, true, false, not, ◌&&◌, ◌||◌, List, [], ◌∷◌, ◌≡◌, refl, inl, inr, ◌↔◌, arith,
  if◌then◌else◌, Bool-cases,
}
use hp_guardian.Conditions.Pattern.{Token, token_matches}
use hp_guardian.Conditions.Matcher.{is_empty}

-- The tokens match a prefix of the text; with `end` they match all of it.
pub data Matches (end : Bool) : List Token → List ℕ → Type 0 where
  anywhere : {cs : List ℕ} → end ≡ false → Matches end [] cs
  at_end : Matches end [] []
  one :
      {t : Token} {ts : List Token} {c : ℕ} {cs : List ℕ}
      → t.repeated ≡ false
      → token_matches t c ≡ true
      → Matches end ts cs
      → Matches end (t ∷ ts) (c ∷ cs)
  skip :
      {t : Token} {ts : List Token} {cs : List ℕ}
      → t.repeated ≡ true
      → Matches end ts cs
      → Matches end (t ∷ ts) cs
  more :
      {t : Token} {ts : List Token} {c : ℕ} {cs : List ℕ}
      → t.repeated ≡ true
      → token_matches t c ≡ true
      → Matches end (t ∷ ts) cs
      → Matches end (t ∷ ts) (c ∷ cs)

-- The recursion of `matches_from` without its table.
unfoldable pub plain : Bool → List Token → List ℕ → Bool
plain end [] cs = not end || is_empty cs
plain end (t ∷ ts) [] = t.repeated && plain end ts []
plain end (t ∷ ts) (c ∷ cs) =
    let skips = plain end ts (c ∷ cs) in
    let takes = plain end (t ∷ ts) cs in
    let next = plain end ts cs in
    if t.repeated then skips || (token_matches t c && takes) else token_matches t c && next

plain_sound :
    (end : Bool) (ts : List Token) (cs : List ℕ) → plain end ts cs ≡ true → Matches end ts cs
unfolding plain
plain_sound true [] [] h = at_end
plain_sound true [] (c ∷ cs) h = cc
plain_sound false [] cs h = anywhere refl
plain_sound end (t ∷ ts) [] h = skip (ground arith) (plain_sound end ts [] (ground arith))
plain_sound end (t ∷ ts) (c ∷ cs) h = elim (Bool-cases t.repeated) [
  | inl r ↦ elim (Bool-cases (plain end ts (c ∷ cs))) [
    | inl s ↦ skip r (plain_sound end ts (c ∷ cs) s)
    | inr n ↦ more r (ground arith) (plain_sound end (t ∷ ts) cs (ground arith))
  ]
  | inr r ↦ one r (ground arith) (plain_sound end ts cs (ground arith))
]

plain_complete :
    (end : Bool) {ts : List Token} {cs : List ℕ} → Matches end ts cs → plain end ts cs ≡ true
unfolding plain
plain_complete end (anywhere e) = ground arith
plain_complete end at_end = ground arith
plain_complete end (one r t m) = ground (arith, plain_complete end m)
plain_complete end (skip {cs = []} r m) = ground (arith, plain_complete end m)
plain_complete end (skip {cs = c ∷ cs} r m) = ground (arith, plain_complete end m)
plain_complete end (more r t m) = ground (arith, plain_complete end m)

pub plain_iff :
    (end : Bool) (ts : List Token) (cs : List ℕ) → (plain end ts cs ≡ true) ↔ Matches end ts cs
plain_iff end ts cs = (plain_sound end ts cs, plain_complete end)
