-- ===== src/Simulator/Digests.antt =====
-- The text of a digest is what the reader of traces accepts as one.
use hp_guardian.Prelude.{
  ℕ, zero, suc, ◌*◌, ◌/◌, ◌%◌, ◌<◌, String, ◌⧺◌, Bool, true, ◌&&◌, ◌||◌, List, [], ◌∷◌, all, All,
  length, leb, chars, ◌==◌, nat_eq, ==_iff, and_iff, get_elem?, none, some, ◌≡◌, refl, arith,
}
use Prim.Native.String.{len}
use Prim.Native.Char.{code}
use text.Mathlib.TextLemmas.{nil-append, cons-append}
use text.Mathlib.TextPositions.{len-append}
use hp_guardian.Parser.{is_ascii_digit}
use hp_guardian.Audit.Records.{to_hex, hex_digit, hex_digits}
use hp_guardian.Simulator.Trace.{is_lowercase_sha256}

abbrev is_hex : ℕ → Bool
is_hex c = is_ascii_digit c || (leb b'a' c && leb c b'f')

-- One byte, and a digit.
abbrev IsDigit : String → Type 0
IsDigit s = (len s ≡ 1) × (all (chars s) is_hex ≡ true)

in_table :
    (table : List String) (n : ℕ)
    → n < length table
    → All IsDigit table
    → IsDigit (elim (get_elem? table n) [ none ↦ "" | some digit ↦ digit ])
in_table [] n lt h = absurd (omega (arith, lt))
in_table (digit ∷ table) zero lt (h, hs) = h
in_table (digit ∷ table) (suc n) lt (h, hs) = in_table table n (omega (arith, lt)) hs

one : (s : String) → len s ≡ 1 → all (chars s) is_hex ≡ true → IsDigit s
one s a b = (a, b)

digits-ok : All IsDigit hex_digits
digits-ok = (
  one "0" refl refl,
  (
    one "1" refl refl,
    (
      one "2" refl refl,
      (
        one "3" refl refl,
        (
          one "4" refl refl,
          (
            one "5" refl refl,
            (
              one "6" refl refl,
              (
                one "7" refl refl,
                (
                  one "8" refl refl,
                  (
                    one "9" refl refl,
                    (
                      one "a" refl refl,
                      (
                        one "b" refl refl,
                        (
                          one "c" refl refl,
                          (one "d" refl refl, (one "e" refl refl, (one "f" refl refl, tt))),
                        ),
                      ),
                    ),
                  ),
                ),
              ),
            ),
          ),
        ),
      ),
    ),
  ),
)

all-chars_append :
    (s t : String)
    → all (chars s) is_hex ≡ true
    → all (chars t) is_hex ≡ true
    → all (chars (s ⧺ t)) is_hex ≡ true
all-chars_append String.[] t hs ht = rw (nil-append t) ht
all-chars_append (String.◌∷◌ c s) t hs ht =
    let (first, rest) = (and_iff (is_hex (code c)) (all (chars s) is_hex)).0 hs in
    rw (cons-append c s t) (
      (and_iff (is_hex (code c)) (all (chars (s ⧺ t)) is_hex)).1
        (first, all-chars_append s t rest ht))

to_hex-ok :
    (bytes : List ℕ)
    → All (λ b. b < 256) bytes
    → (len (to_hex bytes) ≡ 2 * length bytes) × (all (chars (to_hex bytes)) is_hex ≡ true)
unfolding to_hex
to_hex-ok [] h = (refl, refl)
to_hex-ok (byte ∷ bytes) (lt, h) =
    let (high, high_hex) = in_table hex_digits (byte / 16) (omega (arith, lt)) digits-ok in
    let (low, low_hex) = in_table hex_digits (byte % 16) (omega arith) digits-ok in
    let (rest, rest_hex) = to_hex-ok bytes h in
    let tail_length = len-append (hex_digit (byte % 16)) (to_hex bytes) in
    let whole_length = len-append (hex_digit (byte / 16)) (hex_digit (byte % 16) ⧺ to_hex bytes) in
    (
      omega (arith, whole_length, tail_length, high, low, rest),
      all-chars_append (hex_digit (byte / 16)) (hex_digit (byte % 16) ⧺ to_hex bytes) high_hex
          (all-chars_append (hex_digit (byte % 16)) (to_hex bytes) low_hex rest_hex),
    )

-- The text of 32 bytes is 64 lowercase hexadecimal digits, so that the identity of a policy in a
-- report is accepted as the expected identity in a trace.
pub to_hex-is_lowercase_sha256 :
    (bytes : List ℕ)
    → length bytes ≡ 32
    → All (λ b. b < 256) bytes
    → is_lowercase_sha256 (to_hex bytes) ≡ true
unfolding is_lowercase_sha256
to_hex-is_lowercase_sha256 bytes size small =
    let (digits, hex) = to_hex-ok bytes small in
    let length_64 : (len (to_hex bytes) == 64) ≡ true =
      (==_iff (len (to_hex bytes)) 64).1 (omega (arith, digits, size)) in
    rw (is_lowercase_sha256, length_64) hex
