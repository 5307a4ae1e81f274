-- ===== src/Http/Url.antt =====
-- src/whz_utils.hpp: `url_decode`.
pub mod Encoded
pub mod Malformed
use mathlib.Core.Option
use work_horz.Base.{
  ℕ, suc, ◌+◌, ◌-◌, ◌*◌, ◌/◌, ◌≤◌, ◌<◌, ◌%◌, Bool, true, false, not, ◌&&◌, ◌||◌, List, [], ◌∷◌,
  ◌++◌, Option, none, some, ◌≡◌, ◌≢◌, ◌↔◌, refl, sym, ap, ◌∙◌, ◌⊎◌, inl, inr, ◌==◌, leb, ltb,
  if◌then◌else◌, Bytes, is_empty, length, take, drop, replicate, All, All-append, length-append,
  take-append-drop, length-replicate, bytes_eq, bytes_eq_iff, bytes_eq_refl, starts_with, codes,
  String, map, append-nil, append_assoc, Option-cases, Bool-cases, arith,
}

-- std::isspace in the C locale.
abbrev pub is_space : ℕ → Bool
is_space c = c == b' ' || (leb 9 c && leb c 13)

unfoldable pub hex_digit : ℕ → Option ℕ
hex_digit c =
    if leb b'0' c && leb c b'9'
    then some (c - b'0')
    else if leb b'A' c && leb c b'F'
    then some (c - b'A' + 10)
    else if leb b'a' c && leb c b'f'
    then some (c - b'a' + 10)
    else none

-- The digits up to the first character that is none, after `acc`.
pub more_digits : ℕ → Bytes → ℕ
more_digits acc [] = acc
more_digits acc (c ∷ cs) = elim (hex_digit c) [
  | none ↦ acc
  | some d ↦ more_digits (acc * 16 + d) cs
]

pub read_digits : Bytes → Option ℕ
read_digits [] = none
read_digits (c ∷ cs) = Option.map (λ d. more_digits d cs) (hex_digit c)

-- Behind an optional `0x`.
pub read_prefixed : Bytes → Option ℕ
read_prefixed (z ∷ x ∷ cs) =
    if z == b'0' && (x == b'x' || x == b'X') then read_digits cs else read_digits (z ∷ x ∷ cs)
read_prefixed cs = read_digits cs

-- Behind an optional sign; a negative number is taken modulo 2 ^ 16.
pub read_signed : Bytes → Option ℕ
read_signed [] = none
read_signed (c ∷ cs) =
    if c == b'-'
    then Option.map (λ v. (65536 - v) % 65536) (read_prefixed cs)
    else if c == b'+'
    then read_prefixed cs
    else read_prefixed (c ∷ cs)

-- `is >> std::hex >> value` for a std::uint16_t, on a stream of at most four characters: white
-- space is skipped, and what follows the number is left.
pub extract_hex : Bytes → Option ℕ
extract_hex [] = none
extract_hex (c ∷ cs) = if is_space c then extract_hex cs else read_signed (c ∷ cs)

-- The escape's two characters, as the byte that `static_cast<char>` makes of their value.
pub escaped_byte : ℕ → ℕ → Option ℕ
escaped_byte a b = Option.map (λ v. v % 256) (extract_hex (a ∷ b ∷ []))

abbrev pub plain : ℕ → ℕ
plain c = if c == b'+' then b' ' else c

-- The bytes that the rest of the loop appends behind `c`.
abbrev pub behind : ℕ → Option Bytes → Option Bytes
behind c = Option.map (◌∷◌ c)

-- The loop, on the part of the url from position `i` on; a `%` wants two characters behind it.
unfoldable pub url_decode : Bytes → Option Bytes
url_decode [] = some []
url_decode (c ∷ []) = if c == b'%' then none else some (plain c ∷ [])
url_decode (c ∷ a ∷ []) =
    let next = url_decode (a ∷ []) in if c == b'%' then none else behind (plain c) next
url_decode (c ∷ a ∷ b ∷ cs) =
    let past = url_decode cs in
    let next = url_decode (a ∷ b ∷ cs) in
    if c == b'%'
    then elim (escaped_byte a b) [ none ↦ none | some v ↦ behind v past ]
    else behind (plain c) next
