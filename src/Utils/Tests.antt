-- ===== src/Utils/Tests.antt =====
-- A converter for which each code point is one byte of any size.
use mathlib.Core.Option
use work_horz.Base.{
  ℕ, Bool, true, ◌&&◌, ◌||◌, List, [], ◌∷◌, ◌++◌, Option, none, some, leb, ltb, if◌then◌else◌,
  Bytes, codes, All, ◌≡◌, ◌≢◌, refl, inl, inr, Bool-cases, Option-cases, arith,
}
use work_horz.Encryption.{hex_char}
use work_horz.Utils.{Converter, hex_padded, sanitize_utf8_string, is_printable}
use work_horz.Utils.Sanitized.{IsScalar, IsShown, IsUtf8, encoded, sanitize_utf8_string_idem}

is_scalar : ℕ → Bool
is_scalar c = ltb c 0xD800 || (leb 0xE000 c && leb c 0x10FFFF)

decode : Bytes → Option (List ℕ)
decode [] = some []
decode (c ∷ s) = if is_scalar c then Option.map (λ chars. c ∷ chars) (decode s) else none

abbrev wide : Converter
wide = record { from_bytes = decode; to_bytes = λ c. c ∷ [] }

is_scalar-true : (c : ℕ) → IsScalar c → is_scalar c ≡ true
unfolding is_scalar
is_scalar-true c (inl h) = ground (arith, h)
is_scalar-true c (inr (h, k)) = ground (arith, h, k)

true-IsScalar : (c : ℕ) → is_scalar c ≡ true → IsScalar c
unfolding is_scalar
true-IsScalar c e = elim (Bool-cases (ltb c 0xD800)) [
  | inl low ↦ inl (ground (arith, low))
  | inr high ↦ inr (ground (arith, e, high), ground (arith, e, high))
]

decode-encoded : (chars : List ℕ) → All IsScalar chars → decode (encoded wide chars) ≡ some chars
unfolding decode
decode-encoded [] h = refl
decode-encoded (c ∷ chars) (h, hs) = rw (is_scalar-true c h, decode-encoded chars hs) refl

some-inj : {o : Option (List ℕ)} {a b : List ℕ} → o ≡ some a → o ≡ some b → b ≡ a
some-inj e f = cc

none-some : {o : Option (List ℕ)} {a : List ℕ} → o ≡ none → o ≢ some a
none-some e f = cc

decode-IsScalar : (s : Bytes) (chars : List ℕ) → decode s ≡ some chars → All IsScalar chars
unfolding decode
decode-IsScalar [] [] e = tt
decode-IsScalar [] (c ∷ chars) e = cc
decode-IsScalar (b ∷ s) chars e = elim (Bool-cases (is_scalar b)) [
  | inl ok ↦ elim (Option-cases (decode s)) [
    | inl failed ↦
        let nothing : decode (b ∷ s) ≡ none = rw (ok, failed) refl in absurd (none-some nothing e)
    | inr (rest, there) ↦
        let all : decode (b ∷ s) ≡ some (b ∷ rest) = rw (ok, there) refl in
        let same : chars ≡ b ∷ rest = some-inj all e in
        rw same (true-IsScalar b ok, decode-IsScalar s rest there)
  ]
  | inr bad ↦ let nothing : decode (b ∷ s) ≡ none = rw bad refl in absurd (none-some nothing e)
]

wide-IsUtf8 : IsUtf8 wide
wide-IsUtf8 = record { ascii = λ c h. refl; decodes = decode-encoded; scalars = decode-IsScalar }

bell : sanitize_utf8_string wide (codes "a" ++ 7 ∷ 0x263A ∷ []) ≡ codes "a\\u0007" ++ 0x263A ∷ []
unfolding sanitize_utf8_string decode is_scalar is_printable hex_padded hex_char
bell = refl

sanitize_utf8_string_idem_example :
    ((chars : List ℕ) × (wide.from_bytes (sanitize_utf8_string wide (codes "a" ++ 7 ∷ 0x263A ∷ []))
        ≡ some chars)
      × All IsShown chars)
    × (sanitize_utf8_string wide (sanitize_utf8_string wide (codes "a" ++ 7 ∷ 0x263A ∷ []))
        ≡ sanitize_utf8_string wide (codes "a" ++ 7 ∷ 0x263A ∷ []))
sanitize_utf8_string_idem_example =
    sanitize_utf8_string_idem wide (codes "a" ++ 7 ∷ 0x263A ∷ []) wide-IsUtf8
