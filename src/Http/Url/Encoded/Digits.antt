-- ===== src/Http/Url/Encoded/Digits.antt =====
-- src/whz_utils.hpp: two hexadecimal digits behind a `%`.
use work_horz.Base.{ℕ, ◌+◌, ◌*◌, ◌<◌, false, [], ◌∷◌, none, some, ◌≡◌, ◌≢◌, ◌==◌, Bytes, arith}
use work_horz.Http.Url.{
  hex_digit, more_digits, read_digits, read_prefixed, read_signed, extract_hex, escaped_byte,
  is_space,
}

hex_digit-lt : (c d : ℕ) → hex_digit c ≡ some d → d < 16
unfolding hex_digit
hex_digit-lt c d h = ground arith

-- A digit is no white space, no sign and no `x`.
hex_digit-char :
    (c d : ℕ)
    → hex_digit c ≡ some d
    → (is_space c ≡ false)
      × ((c == b'-') ≡ false)
      × ((c == b'+') ≡ false)
      × ((c == b'x') ≡ false)
      × ((c == b'X') ≡ false)
unfolding hex_digit
hex_digit-char c d h = ground arith

extract-digit :
    (a d : ℕ) (cs : Bytes) → hex_digit a ≡ some d → extract_hex (a ∷ cs) ≡ read_prefixed (a ∷ cs)
unfolding extract_hex read_signed
extract-digit a d cs h = ground (arith, hex_digit-char a d h)

two_digits :
    (a b d e : ℕ)
    → hex_digit a ≡ some d
    → hex_digit b ≡ some e
    → read_prefixed (a ∷ b ∷ []) ≡ some (d * 16 + e)
unfolding read_prefixed read_digits more_digits
two_digits a b d e h k = ground (arith, hex_digit-char b e k)

pub escaped_byte_lem :
    (a b d e : ℕ)
    → hex_digit a ≡ some d
    → hex_digit b ≡ some e
    → escaped_byte a b ≡ some (d * 16 + e)
unfolding escaped_byte
escaped_byte_lem a b d e h k = ground (
  arith,
  extract-digit a d (b ∷ []) h,
  two_digits a b d e h k,
  hex_digit-lt a d h,
  hex_digit-lt b e k,
)

-- The second character that is no digit is taken for the end of the number.
pub escaped_byte_short :
    (a b d : ℕ)
    → hex_digit a ≡ some d
    → hex_digit b ≡ none
    → b ≢ b'x'
    → b ≢ b'X'
    → escaped_byte a b ≡ some d
unfolding escaped_byte read_prefixed read_digits more_digits
escaped_byte_short a b d h k x y = ground (arith, extract-digit a d (b ∷ []) h, hex_digit-lt a d h)
