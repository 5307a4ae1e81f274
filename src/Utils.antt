-- ===== src/Utils.antt =====
-- src/whz_utils.hpp: `sanitize_utf8_string` and the conversions between strings. The UTF-8 converter of
-- the standard library is a parameter.
pub mod Sanitized
mod Tests
use work_horz.Base.{
  ℕ, zero, suc, ◌+◌, ◌-◌, ◌/◌, ◌%◌, Bool, true, false, ◌&&◌, ◌||◌, List, [], ◌∷◌, ◌++◌, map, Option,
  none, some, leb, ltb, if◌then◌else◌, Bytes, length, replicate, codes,
}
use work_horz.Encryption.{hex_char}

-- `std::wstring_convert`; `none` is a `std::range_error`.
pub record Converter : Type 0 where
  pub from_bytes : Bytes → Option (List ℕ)
  pub to_bytes : ℕ → Bytes

unfoldable pub is_printable : ℕ → Bool
is_printable c = (leb 0x20 c && leb c 0x7E) || (leb 0xA0 c && leb c 0x10FFFF)

-- `std::hex` on a number: its digits before `out`; the fuel is at least their number.
unfoldable pub hex_onto : ℕ → ℕ → Bytes → Bytes
hex_onto zero n out = out
hex_onto (suc fuel) n out =
    let more = hex_onto fuel (n / 16) (hex_char (n % 16) ∷ out) in
    if ltb n 16 then hex_char (n % 16) ∷ out else more

-- With `std::setw(4)` and `std::setfill('0')`.
unfoldable pub hex_padded : ℕ → Bytes
unfolding hex_onto
hex_padded n = let digits = hex_onto (suc n) n [] in replicate (4 - length digits) b'0' ++ digits

module _ (converter : Converter) where
  unfoldable pub sanitize_loop : Bytes → List ℕ → Bytes
  unfolding is_printable hex_padded
  sanitize_loop result [] = result
  sanitize_loop result (ch ∷ chars) =
      sanitize_loop
        (if is_printable ch
          then result ++ converter.to_bytes ch
          else result ++ (codes "\\u" ++ hex_padded ch))
        chars

  unfoldable pub sanitize_utf8_string : Bytes → Bytes
  unfolding sanitize_loop
  sanitize_utf8_string input = elim (converter.from_bytes input) [
    | some utf32_string ↦ sanitize_loop [] utf32_string
    | none ↦ sanitize_loop [] (0xFFFD ∷ [])
  ]

-- `stringToU8String`: a `char` of 128 or more is negative, and is a `wchar_t` near 2 ^ 32.
unfoldable pub string_to_u8_string : Bytes → Bytes
string_to_u8_string = map (λ c. (if ltb c 128 then c else 4294967040 + c) % 256)

unfoldable pub u8_string_to_string : Bytes → Bytes
u8_string_to_string = map (λ c. c % 256)
