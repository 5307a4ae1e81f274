-- ===== src/Utils/Sanitized.antt =====
-- src/whz_utils.hpp: a string that was sanitized.
use work_horz.Base.{
  ℕ, zero, suc, ◌-◌, ◌/◌, ◌%◌, ◌≤◌, ◌<◌, Bool, true, false, List, [], ◌∷◌, ◌++◌, some, ltb,
  if◌then◌else◌, Bytes, length, replicate, codes, All, All-append, append_assoc, append-nil, ◌≡◌,
  refl, sym, ap, ◌∙◌, ◌⊎◌, inl, inr, Bool-cases, Option-cases, arith,
}
use work_horz.Encryption.{hex_char}
use work_horz.Utils.{
  Converter, is_printable, hex_onto, hex_padded, sanitize_loop, sanitize_utf8_string,
}

-- The code points that UTF-8 encodes.
abbrev pub IsScalar : ℕ → Type 0
IsScalar c = (c < 0xD800) ⊎ ((0xE000 ≤ c) × (c ≤ 0x10FFFF))

abbrev pub encoded : Converter → List ℕ → Bytes
encoded converter [] = []
encoded converter (c ∷ chars) = converter.to_bytes c ++ encoded converter chars

-- What is documented of the converter.
pub record IsUtf8 (converter : Converter) : Type 0 where
  pub ascii : (c : ℕ) → c < 128 → converter.to_bytes c ≡ c ∷ []
  pub decodes :
      (chars : List ℕ)
      → All IsScalar chars
      → converter.from_bytes (encoded converter chars) ≡ some chars
  pub scalars :
      (s : Bytes) (chars : List ℕ) → converter.from_bytes s ≡ some chars → All IsScalar chars

-- A printable ASCII character.
abbrev IsPlain : ℕ → Type 0
IsPlain c = (0x20 ≤ c) × (c ≤ 0x7E)

abbrev pub IsShown : ℕ → Type 0
IsShown c = (is_printable c ≡ true) × IsScalar c

hex_char-IsPlain : (d : ℕ) → d < 16 → IsPlain (hex_char d)
unfolding hex_char
hex_char-IsPlain d h = ground (arith, h)

hex_onto-IsPlain : (fuel n : ℕ) (out : Bytes) → All IsPlain out → All IsPlain (hex_onto fuel n out)
unfolding hex_onto
hex_onto-IsPlain zero n out h = h
hex_onto-IsPlain (suc fuel) n out h =
    let digit = hex_char-IsPlain (n % 16) (omega arith) in
    elim (Bool-cases (ltb n 16)) [
      | inl last ↦ rw last (digit, h)
      | inr more ↦ rw more (hex_onto-IsPlain fuel (n / 16) (hex_char (n % 16) ∷ out) (digit, h))
    ]

replicate-IsPlain : (n c : ℕ) → IsPlain c → All IsPlain (replicate n c)
replicate-IsPlain zero c h = tt
replicate-IsPlain (suc n) c h = (h, replicate-IsPlain n c h)

hex_padded-IsPlain : (n : ℕ) → All IsPlain (hex_padded n)
unfolding hex_padded
hex_padded-IsPlain n =
    let digits = hex_onto (suc n) n [] in
    All-append IsPlain (replicate (4 - length digits) b'0') digits
      (replicate-IsPlain (4 - length digits) b'0' (omega arith, omega arith))
      (hex_onto-IsPlain (suc n) n [] tt)

IsPlain-IsShown : (chars : List ℕ) → All IsPlain chars → All IsShown chars
unfolding is_printable
IsPlain-IsShown [] h = tt
IsPlain-IsShown (c ∷ chars) ((l, u), h) =
    ((ground (arith, l, u), inl (omega (arith, u))), IsPlain-IsShown chars h)

-- The code points that stand for one code point, and for those of a text.
shown : ℕ → List ℕ
shown c = if is_printable c then c ∷ [] else codes "\\u" ++ hex_padded c

all_shown : List ℕ → List ℕ
all_shown [] = []
all_shown (c ∷ chars) = shown c ++ all_shown chars

shown-IsShown : (c : ℕ) → IsScalar c → All IsShown (shown c)
unfolding shown
shown-IsShown c h = elim (Bool-cases (is_printable c)) [
  | inl printable ↦ rw printable ((printable, h), tt)
  | inr hidden ↦ rw hidden (
      IsPlain-IsShown (codes "\\u" ++ hex_padded c)
        ((omega arith, omega arith), ((omega arith, omega arith), hex_padded-IsPlain c)))
]

all_shown-IsShown : (chars : List ℕ) → All IsScalar chars → All IsShown (all_shown chars)
unfolding all_shown
all_shown-IsShown [] h = tt
all_shown-IsShown (c ∷ chars) (h, hs) =
    All-append IsShown (shown c) (all_shown chars) (shown-IsShown c h) (all_shown-IsShown chars hs)

IsShown-IsScalar : (chars : List ℕ) → All IsShown chars → All IsScalar chars
IsShown-IsScalar [] h = tt
IsShown-IsScalar (c ∷ chars) ((_, h), hs) = (h, IsShown-IsScalar chars hs)

all_shown-shown : (chars : List ℕ) → All IsShown chars → all_shown chars ≡ chars
unfolding all_shown shown
all_shown-shown [] h = refl
all_shown-shown (c ∷ chars) ((p, _), hs) = rw p (ap (λ z. c ∷ z) (all_shown-shown chars hs))

module _ (converter : Converter) (utf8 : IsUtf8 converter) where
  encoded-append :
      (a b : List ℕ) → encoded converter (a ++ b) ≡ encoded converter a ++ encoded converter b
  encoded-append [] b = refl
  encoded-append (c ∷ a) b =
      ap (λ z. converter.to_bytes c ++ z) (encoded-append a b)
      ∙ sym (append_assoc (converter.to_bytes c) (encoded converter a) (encoded converter b))

  encoded_plain : (s : Bytes) → All IsPlain s → encoded converter s ≡ s
  encoded_plain [] h = refl
  encoded_plain (c ∷ s) ((_, u), h) =
      rw (utf8.ascii c (omega (arith, u))) (ap (λ z. c ∷ z) (encoded_plain s h))

  encoded-shown :
      (c : ℕ)
      → encoded converter (shown c)
        ≡ (if is_printable c then converter.to_bytes c else codes "\\u" ++ hex_padded c)
  unfolding shown
  encoded-shown c = elim (Bool-cases (is_printable c)) [
    | inl printable ↦ rw printable (append-nil (converter.to_bytes c))
    | inr hidden ↦ rw hidden (
        encoded_plain (codes "\\u" ++ hex_padded c)
          ((omega arith, omega arith), ((omega arith, omega arith), hex_padded-IsPlain c)))
  ]

  sanitize_loop-encoded :
      (result : Bytes) (chars : List ℕ)
      → sanitize_loop converter result chars ≡ result ++ encoded converter (all_shown chars)
  unfolding sanitize_loop all_shown
  sanitize_loop-encoded result [] = sym (append-nil result)
  sanitize_loop-encoded result (c ∷ chars) =
      sanitize_loop-encoded
        (if is_printable c
          then result ++ converter.to_bytes c
          else result ++ (codes "\\u" ++ hex_padded c))
        chars
      ∙ ap (λ z. z ++ encoded converter (all_shown chars))
          (front (is_printable c) ∙ ap (λ z. result ++ z) (sym (encoded-shown c)))
      ∙ append_assoc result (encoded converter (shown c)) (encoded converter (all_shown chars))
      ∙ ap (λ z. result ++ z) (sym (encoded-append (shown c) (all_shown chars)))
    where
      front :
          (b : Bool)
          → (if b then result ++ converter.to_bytes c else result ++ (codes "\\u" ++ hex_padded c))
            ≡ result ++ (if b then converter.to_bytes c else codes "\\u" ++ hex_padded c)
      front true = refl
      front false = refl

  sanitized :
      (input : Bytes)
      → (chars : List ℕ) × (sanitize_utf8_string converter input ≡ encoded converter chars)
        × All IsShown chars
  unfolding sanitize_utf8_string
  sanitized input = elim (Option-cases (converter.from_bytes input)) [
    | inl invalid ↦ (
      all_shown (0xFFFD ∷ []),
      rw (invalid, sanitize_utf8_string) (sanitize_loop-encoded [] (0xFFFD ∷ [])),
      all_shown-IsShown (0xFFFD ∷ []) (inr (omega arith, omega arith), tt),
    )
    | inr (chars, valid) ↦ (
      all_shown chars,
      rw (valid, sanitize_utf8_string) (sanitize_loop-encoded [] chars),
      all_shown-IsShown chars (utf8.scalars input chars valid),
    )
  ]

-- Whatever bytes are sanitized, the result is the UTF-8 of printable characters alone, and sanitizing it
-- again changes nothing.
pub sanitize_utf8_string_idem :
    (converter : Converter) (input : Bytes)
    → IsUtf8 converter
    → ((chars : List ℕ) × (converter.from_bytes (sanitize_utf8_string converter input) ≡ some chars)
        × All IsShown chars)
      × (sanitize_utf8_string converter (sanitize_utf8_string converter input)
          ≡ sanitize_utf8_string converter input)
unfolding sanitize_utf8_string
sanitize_utf8_string_idem converter input utf8 =
    let (chars, same, h) = sanitized converter utf8 input in
    let back : converter.from_bytes (sanitize_utf8_string converter input) ≡ some chars =
      ap converter.from_bytes same ∙ utf8.decodes chars (IsShown-IsScalar chars h) in
    (
      (chars, back, h),
      (rw (back, sanitize_utf8_string) (sanitize_loop-encoded converter utf8 [] chars))
          ∙ ap (encoded converter) (all_shown-shown chars h)
          ∙ sym same,
    )
