-- ===== src/Http/Url/Malformed.antt =====
-- src/whz_utils.hpp: `url_decode` on urls that are no encoding of a text.
use work_horz.Base.{
  ℕ, ◌+◌, ◌≤◌, ◌<◌, false, [], ◌∷◌, ◌++◌, Option, none, some, ◌≡◌, ◌≢◌, refl, ◌∙◌, inl, inr, ◌==◌,
  Bytes, length, All, Option-cases, Bool-cases, arith,
}
use work_horz.Http.Url.{hex_digit, escaped_byte, plain, behind, url_decode}
use work_horz.Http.Url.Encoded.{url_decode-plain, url_decode-escape}
use work_horz.Http.Url.Encoded.Digits.{escaped_byte_short}

-- A `%` with fewer than two characters behind it, and no `%` before it, makes the whole url
-- invalid.
pub url_decode_truncated :
    (before tail : Bytes)
    → All (λ c. (c == b'%') ≡ false) before
    → length tail < 2
    → url_decode (before ++ b'%' ∷ tail) ≡ none
unfolding url_decode
url_decode_truncated [] [] h l = refl
url_decode_truncated [] (a ∷ []) h l = refl
url_decode_truncated [] (a ∷ b ∷ t) h l = absurd (omega arith)
url_decode_truncated (c ∷ s) tail h l =
    url_decode-plain c (s ++ b'%' ∷ tail) h.0 ∙ rw (url_decode_truncated s tail h.1 l)

-- An escape at the start of a url whose first character is a hexadecimal digit, and whose second
-- one is none and neither `x` nor `X`, is not refused: the second character is dropped, and the
-- first digit alone is decoded.
pub url_decode_half_escape :
    (a b d : ℕ) (cs : Bytes)
    → hex_digit a ≡ some d
    → hex_digit b ≡ none
    → b ≢ b'x'
    → b ≢ b'X'
    → url_decode (b'%' ∷ a ∷ b ∷ cs) ≡ behind d (url_decode cs)
url_decode_half_escape a b d cs h k x y =
    url_decode-escape b'%' a b d cs refl (escaped_byte_short a b d h k x y)

abbrev pub FitsIn : Bytes → Option Bytes → Type 0
FitsIn url none = Unit
FitsIn url (some out) = (length out ≤ length url) × All (λ c. c < 256) out

FitsIn-behind :
    (v : ℕ) (cs url : Bytes) (o : Option Bytes)
    → v < 256
    → length cs + 1 ≤ length url
    → FitsIn cs o
    → FitsIn url (behind v o)
FitsIn-behind v cs url none b l h = tt
FitsIn-behind v cs url (some out) b l h = (omega arith, (b, h.1))

escaped_byte-lt : (a b v : ℕ) → escaped_byte a b ≡ some v → v < 256
unfolding escaped_byte
escaped_byte-lt a b v h = ground arith

plain-lt : (c : ℕ) → c < 256 → plain c < 256
plain-lt c h = ground arith

-- Where a url of bytes is decoded, the result is no longer than the url, and holds bytes.
url_decode-FitsIn : (url : Bytes) → All (λ c. c < 256) url → FitsIn url (url_decode url)
unfolding url_decode
url_decode-FitsIn [] h = (omega arith, tt)
url_decode-FitsIn (c ∷ []) h = ground (arith, plain-lt c h.0)
url_decode-FitsIn (c ∷ a ∷ []) h = elim (Bool-cases (c == b'%')) [
  | inl e ↦ rw (e, url_decode) tt
  | inr e ↦ rw (url_decode-plain c (a ∷ []) e) (
      FitsIn-behind (plain c) (a ∷ []) (c ∷ a ∷ []) _ (plain-lt c h.0) (omega arith)
        (url_decode-FitsIn (a ∷ []) h.1))
]
url_decode-FitsIn (c ∷ a ∷ b ∷ cs) h = elim (Bool-cases (c == b'%')) [
  | inl e ↦ elim (Option-cases (escaped_byte a b)) [
    | inl n ↦ rw (e, n, url_decode) tt
    | inr (v, n) ↦ rw (url_decode-escape c a b v cs e n) (
        FitsIn-behind v cs (c ∷ a ∷ b ∷ cs) _ (escaped_byte-lt a b v n) (omega arith)
          (url_decode-FitsIn cs h.1.1.1))
  ]
  | inr e ↦ rw (url_decode-plain c (a ∷ b ∷ cs) e) (
      FitsIn-behind (plain c) (a ∷ b ∷ cs) (c ∷ a ∷ b ∷ cs) _ (plain-lt c h.0) (omega arith)
        (url_decode-FitsIn (a ∷ b ∷ cs) h.1))
]
