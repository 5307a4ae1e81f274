-- ===== src/Localization/Conversions.antt =====
-- src/LocalizationManager.hpp: the conversions, by the encoding of Unicode. Latin-1 is the code points
-- below 256.
use mathlib.Core.Option
use native.Mathlib.Decide.{dec_lt}
use work_horz.Base.{
  true, ℕ, ◌+◌, ◌-◌, ◌*◌, ◌/◌, ◌%◌, ◌≤◌, ◌<◌, ◌&&◌, [], ◌∷◌, Option, none, some, some-inj, map-some,
  ◌≡◌, refl, ap, ◌∙◌, sym, leb, ltb, if◌then◌else◌, Bytes, length, All, ◌⊎◌, Option-cases, inl, inr,
  arith, ◌==◌, take, replicate, append-nil, length-append, ◌++◌, take-length-append,
}
use work_horz.Localization.{Simdutf, convert_into, to_latin1, to_utf8}

-- The UTF-8 of code points below 256: one byte below 128, and two bytes otherwise.
unfoldable pub encode : Bytes → Bytes
encode [] = []
encode (c ∷ text) =
    if ltb c 128 then c ∷ encode text else (192 + c / 64) ∷ (128 + c % 64) ∷ encode text

-- The Latin-1 of a text in UTF-8; `none` where it is not UTF-8, or has a code point above 255. The
-- lead bytes of these code points are 194 and 195.
unfoldable pub decode : Bytes → Option Bytes
decode [] = some []
decode (b ∷ []) = if ltb b 128 then some (b ∷ []) else none
decode (b ∷ d ∷ text) =
    let one = Option.map (λ (l : Bytes). b ∷ l) (decode (d ∷ text)) in
    let two = Option.map (λ (l : Bytes). ((b - 192) * 64 + (d - 128)) ∷ l) (decode text) in
    if ltb b 128
    then one
    else if (b == 194) && (leb 128 d && ltb d 192)
    then two
    else if (b == 195) && (leb 128 d && ltb d 192)
    then two
    else none

-- What simdutf documents of its conversions: Latin-1 becomes its UTF-8; what has a Latin-1 becomes that,
-- and both return the length of what they write. For what has no Latin-1 zero is returned, and
-- what is written then fits into the output buffer that is asked for, of the size of the input.
pub record IsTranscoder (simdutf : Simdutf) : Type 0 where
  pub latin1_to_utf8 :
      (text : Bytes) → simdutf.convert_latin1_to_utf8 text ≡ (encode text, length (encode text))
  pub utf8_to_latin1 :
      (text latin1 : Bytes)
      → decode text ≡ some latin1
      → simdutf.convert_utf8_to_latin1 text ≡ (latin1, length latin1)
  pub not_latin1 :
      (text : Bytes)
      → decode text ≡ none
      → ((simdutf.convert_utf8_to_latin1 text).1 ≡ 0)
        × (length (simdutf.convert_utf8_to_latin1 text).0 ≤ length text)

abbrev pub counted : Option Bytes → Bytes × ℕ
counted none = ([], 0)
counted (some text) = (text, length text)

-- A transcoder that is this encoding, and takes every text for valid.
abbrev pub unicode : Simdutf
unicode = record {
  convert_utf8_to_latin1 = λ text. counted (decode text);
  convert_latin1_to_utf8 = λ text. (encode text, length (encode text));
  validate_utf8 = λ text. true;
}

pub unicode-IsTranscoder : IsTranscoder unicode
unicode-IsTranscoder = record {
  latin1_to_utf8 = λ text. refl;
  utf8_to_latin1 = λ text latin1 e. rw e refl;
  not_latin1 = λ text e. rw e (refl, omega arith);
}

length-encode :
    (text : Bytes) → (length (encode text) ≤ length text * 2) × (length text ≤ length (encode text))
unfolding encode
length-encode [] = (omega arith, omega arith)
length-encode (c ∷ text) = let (a, b) = length-encode text in ground (arith, a, b)

decode_one :
    (b : ℕ) (text : Bytes)
    → b < 128
    → decode (b ∷ text) ≡ Option.map (λ (l : Bytes). b ∷ l) (decode text)
unfolding decode
decode_one b [] h = ground arith
decode_one b (d ∷ text) h = ground arith

decode_two :
    (b d : ℕ) (text : Bytes)
    → (b ≡ 194) ⊎ (b ≡ 195)
    → 128 ≤ d
    → d < 192
    → decode (b ∷ d ∷ text)
      ≡ Option.map (λ (l : Bytes). ((b - 192) * 64 + (d - 128)) ∷ l) (decode text)
unfolding decode
decode_two b d text (inl e) l h = ground (arith, e, l, h)
decode_two b d text (inr e) l h = ground (arith, e, l, h)

decode_pair :
    (c : ℕ) (text : Bytes)
    → 128 ≤ c
    → c < 256
    → decode ((192 + c / 64) ∷ (128 + c % 64) ∷ text)
      ≡ Option.map (λ (l : Bytes). c ∷ l) (decode text)
decode_pair c text l h =
    let same : (192 + c / 64 - 192) * 64 + (128 + c % 64 - 128) ≡ c = omega arith in
    decode_two (192 + c / 64) (128 + c % 64) text (ground arith) (omega arith) (omega arith)
    ∙ ap (λ (n : ℕ). Option.map (λ (l : Bytes). n ∷ l) (decode text)) same

decode-encode : (text : Bytes) → All (λ c. c < 256) text → decode (encode text) ≡ some text
unfolding encode
decode-encode [] h = unfold decode in refl
decode-encode (c ∷ text) h = elim (dec_lt c 128) [
  | yes l ↦ ground (arith, decode_one c (encode text) l, decode-encode text h.1)
  | no l ↦ ground (arith, decode_pair c (encode text) (omega arith) h.0, decode-encode text h.1)
]

decode-cases :
    (b d : ℕ) (text latin1 : Bytes)
    → decode (b ∷ d ∷ text) ≡ some latin1
    → ((b < 128) × (Option.map (λ (l : Bytes). b ∷ l) (decode (d ∷ text)) ≡ some latin1))
      ⊎ (((b ≡ 194) ⊎ (b ≡ 195))
          × (128 ≤ d)
          × (d < 192)
          × (Option.map (λ (l : Bytes). ((b - 192) * 64 + (d - 128)) ∷ l) (decode text)
              ≡ some latin1))
unfolding decode
decode-cases b d text latin1 h = ground arith

encode_one : (b : ℕ) (text : Bytes) → b < 128 → encode (b ∷ text) ≡ b ∷ encode text
unfolding encode
encode_one b text h = ground arith

encode_two :
    (b d : ℕ) (text : Bytes)
    → (b ≡ 194) ⊎ (b ≡ 195)
    → 128 ≤ d
    → d < 192
    → encode (((b - 192) * 64 + (d - 128)) ∷ text) ≡ b ∷ d ∷ encode text
unfolding encode
encode_two b d text e l h =
    let c = (b - 192) * 64 + (d - 128) in
    let high : 192 + c / 64 ≡ b = ground arith in
    let low : 128 + c % 64 ≡ d = ground arith in ground (arith, high, low)

decode_last :
    (b : ℕ) (latin1 : Bytes) → decode (b ∷ []) ≡ some latin1 → (b < 128) × (b ∷ [] ≡ latin1)
unfolding decode
decode_last b latin1 h = elim (dec_lt b 128) [
  | yes l ↦ (l, some-inj (sym (ground arith) ∙ h))
  | no l ↦ ground arith
]

-- What is decoded is encoded to the text that it was.
encode-decode : (text latin1 : Bytes) → decode text ≡ some latin1 → encode latin1 ≡ text
encode-decode [] latin1 h =
    let e : [] ≡ latin1 = unfold decode in cc in ap encode (sym e) ∙ (unfold encode in refl)
encode-decode (b ∷ []) latin1 h =
    let (l, e) = decode_last b latin1 h in
    ap encode (sym e) ∙ encode_one b [] l ∙ (unfold encode in refl)
encode-decode (b ∷ d ∷ text) latin1 h = elim (decode-cases b d text latin1 h) [
  | inl (l, e) ↦
      let (rest, f, g) = map-some _ _ _ e in
      ap encode (sym g) ∙ encode_one b rest l ∙ ap (◌∷◌ b) (encode-decode (d ∷ text) rest f)
  | inr (lead, l, k, e) ↦
      let (rest, f, g) = map-some _ _ _ e in
      ap encode (sym g)
      ∙ encode_two b d rest lead l k
      ∙ ap (λ (z : Bytes). b ∷ d ∷ z) (encode-decode text rest f)
]

-- A conversion that returns the length of what it writes, and one that returns zero.
convert_into-counted :
    (size : ℕ) (out : Bytes) → length out ≤ size → convert_into size (out, length out) ≡ some out
unfolding convert_into
convert_into-counted size out h =
    let fits : leb (length out) size ≡ true = ground arith in
    let rest : Bytes = replicate (size - length out) 0 in
    let none_more : length out - length (out ++ rest) ≡ 0 =
      omega (arith, length-append {0} out rest) in
    rw fits (
      ap some (
        ap (λ n. take (length out) (out ++ rest) ++ replicate n 0) none_more
        ∙ append-nil (take (length out) (out ++ rest))
        ∙ take-length-append out rest))

convert_into-zero :
    (size : ℕ) (out : Bytes × ℕ) → out.1 ≡ 0 → length out.0 ≤ size → convert_into size out ≡ some []
unfolding convert_into
convert_into-zero size out e h =
    let fits : leb (length out.0) size ≡ true = ground arith in
    let rest : Bytes = out.0 ++ replicate (size - length out.0) 0 in
    let none_more : 0 - length rest ≡ 0 = omega arith in
    rw fits (
      ap some (
        ap (λ n. take n rest ++ replicate (n - length rest) 0) e
        ∙ ap (λ n. replicate n 0) none_more))

module _ (simdutf : Simdutf) (t : IsTranscoder simdutf) where
  to_latin1-decode :
      (text latin1 : Bytes) → decode text ≡ some latin1 → to_latin1 simdutf text ≡ some latin1
  unfolding to_latin1
  to_latin1-decode text latin1 h = rw (t.utf8_to_latin1 text latin1 h) (
      convert_into-counted (length text) latin1
        (omega (arith, (length-encode latin1).1, ap length (encode-decode text latin1 h))))

  to_latin1-empty : (text : Bytes) → decode text ≡ none → to_latin1 simdutf text ≡ some []
  unfolding to_latin1
  to_latin1-empty text h =
      let (returned, written) = t.not_latin1 text h in
      convert_into-zero (length text) (simdutf.convert_utf8_to_latin1 text) returned written

  pub to_latin1-total : (text : Bytes) → (latin1 : Bytes) × (to_latin1 simdutf text ≡ some latin1)
  to_latin1-total text = elim (Option-cases (decode text)) [
    | inl e ↦ ([], to_latin1-empty text e)
    | inr (latin1, e) ↦ (latin1, to_latin1-decode text latin1 e)
  ]

  pub to_utf8-encode : (latin1 : Bytes) → to_utf8 simdutf latin1 ≡ some (encode latin1)
  unfolding to_utf8
  to_utf8-encode latin1 =
      rw (t.latin1_to_utf8 latin1)
        (convert_into-counted (length latin1 * 2) (encode latin1) (length-encode latin1).0)

  -- No text makes `toLatin1` or `toUtf8` write behind its buffer. A text in UTF-8 whose code points are
  -- below 256 becomes its Latin-1, and that becomes the text again; any other one becomes empty.
  -- Every text in Latin-1 becomes its UTF-8, and that becomes the text again. The conversions of
  -- simdutf are those of Unicode, and return zero for a text that has no Latin-1.
  pub to_utf8-to_latin1 :
      (text : Bytes)
      → ((latin1 : Bytes)
          → decode text ≡ some latin1
          → (to_latin1 simdutf text ≡ some latin1) × (to_utf8 simdutf latin1 ≡ some text))
        × (decode text ≡ none → to_latin1 simdutf text ≡ some [])
        × (to_utf8 simdutf text ≡ some (encode text))
        × (All (λ c. c < 256) text → to_latin1 simdutf (encode text) ≡ some text)
  to_utf8-to_latin1 text = (
    λ latin1 e. (
      to_latin1-decode text latin1 e,
      to_utf8-encode latin1 ∙ ap some (encode-decode text latin1 e),
    ),
    to_latin1-empty text,
    to_utf8-encode text,
    λ h. to_latin1-decode (encode text) text (decode-encode text h),
  )
