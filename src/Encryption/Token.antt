-- ===== src/Encryption/Token.antt =====
-- src/whz_encryption.cpp: what a CSRF token holds.
use work_horz.Base.{
  ℕ, zero, suc, ◌+◌, ◌*◌, ◌/◌, ◌%◌, ◌<◌, [], ◌∷◌, ◌++◌, Option, none, some, Bytes, length, ◌≡◌,
  refl, sym, ap, ◌∙◌, arith, append_assoc, append-nil, All, Bool-cases, inl, inr, ltb,
}
use work_horz.Base.Loop.{tabulate}
use work_horz.Http.Url.{hex_digit}
use work_horz.Encryption.{hex_char, format_hex, random_loop, format_loop, create_csrf_token}

-- A reader of pairs of hexadecimal digits.
abbrev pub read_pair : Option ℕ → Option ℕ → Option Bytes → Option Bytes
read_pair (some a) (some b) (some bytes) = some ((a * 16 + b) ∷ bytes)
read_pair a b bytes = none

abbrev pub read_hex : Bytes → Option Bytes
read_hex [] = some []
read_hex (a ∷ []) = none
read_hex (a ∷ b ∷ rest) = read_pair (hex_digit a) (hex_digit b) (read_hex rest)

hex_text : Bytes → Bytes
hex_text [] = []
hex_text (byte ∷ bytes) = format_hex byte ++ hex_text bytes

format_loop-hex_text : (token bytes : Bytes) → format_loop token bytes ≡ token ++ hex_text bytes
unfolding format_loop hex_text
format_loop-hex_text token [] = sym (append-nil token)
format_loop-hex_text token (byte ∷ bytes) =
    format_loop-hex_text (token ++ format_hex byte) bytes
    ∙ append_assoc token (format_hex byte) (hex_text bytes)

hex_digit-hex_char : (d : ℕ) → d < 16 → hex_digit (hex_char d) ≡ some d
unfolding hex_digit hex_char
hex_digit-hex_char d h = elim (Bool-cases (ltb d 10)) [
  | inl small ↦ rw small (ground (arith, small))
  | inr large ↦ rw large (ground (arith, large))
]

read_hex-hex_text :
    (bytes : Bytes) → All (λ b. b < 256) bytes → read_hex (hex_text bytes) ≡ some bytes
unfolding hex_text format_hex
read_hex-hex_text [] h = refl
read_hex-hex_text (byte ∷ bytes) (h, more) =
    let whole : byte / 16 * 16 + byte % 16 ≡ byte = omega arith in
    rw
      (
        hex_digit-hex_char (byte / 16) (omega (arith, h)),
        hex_digit-hex_char (byte % 16) (omega arith),
        read_hex-hex_text bytes more,
      )
      (ap (λ b. some (b ∷ bytes)) whole)

length-hex_text : (bytes : Bytes) → length (hex_text bytes) ≡ length bytes + length bytes
unfolding hex_text format_hex
length-hex_text [] = refl
length-hex_text (byte ∷ bytes) = omega (arith, length-hex_text bytes)

random_loop-tabulate :
    (generator : ℕ → ℕ) (n i : ℕ) → random_loop generator n i ≡ tabulate n i generator
unfolding random_loop
random_loop-tabulate generator zero i = refl
random_loop-tabulate generator (suc n) i =
    ap (λ bytes. generator i ∷ bytes) (random_loop-tabulate generator n (suc i))

All-tabulate :
    (generator : ℕ → ℕ) (n i : ℕ)
    → ((k : ℕ) → generator k < 256)
    → All (λ b. b < 256) (tabulate n i generator)
All-tabulate generator zero i h = tt
All-tabulate generator (suc n) i h = (h i, All-tabulate generator n (suc i) h)

-- A token has 64 characters, and they are the hexadecimal digits of the first 32 bytes that the
-- generator draws.
pub create_csrf_token-read_hex :
    (generator : ℕ → ℕ → ℕ) (seed : ℕ)
    → ((k : ℕ) → generator seed k < 256)
    → (length (create_csrf_token generator seed) ≡ 64)
      × (read_hex (create_csrf_token generator seed) ≡ some (tabulate 32 0 (generator seed)))
unfolding create_csrf_token
create_csrf_token-read_hex generator seed h =
    let drawn = random_loop-tabulate (generator seed) 32 0 in
    let text = format_loop-hex_text [] (random_loop (generator seed) 32 0) ∙ ap hex_text drawn in
    (
      ap length text ∙ length-hex_text (tabulate 32 0 (generator seed)),
      ap read_hex text
          ∙ read_hex-hex_text (tabulate 32 0 (generator seed))
              (All-tabulate (generator seed) 32 0 h),
    )
