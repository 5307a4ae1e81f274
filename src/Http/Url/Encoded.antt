-- ===== src/Http/Url/Encoded.antt =====
-- src/whz_utils.hpp: `url_decode` reads back every encoding of a text.
pub mod Digits
use mathlib.Core.Option
use work_horz.Base.{
  ℕ, suc, ◌+◌, ◌-◌, ◌*◌, ◌/◌, ◌≤◌, ◌<◌, ◌%◌, Bool, true, false, not, ◌&&◌, ◌||◌, List, [], ◌∷◌,
  ◌++◌, Option, none, some, ◌≡◌, ◌≢◌, ◌↔◌, refl, sym, ap, ◌∙◌, ◌⊎◌, inl, inr, ◌==◌, leb, ltb,
  if◌then◌else◌, Bytes, is_empty, length, take, drop, replicate, All, All-append, length-append,
  take-append-drop, length-replicate, bytes_eq, bytes_eq_iff, bytes_eq_refl, starts_with, codes,
  String, map, append-nil, append_assoc, Option-cases, Bool-cases, arith,
}
use work_horz.Http.Url.{hex_digit, escaped_byte, extract_hex, plain, behind, url_decode}
use Digits.{escaped_byte_lem}

-- The url encodes the text: each byte as it is, a space as `+`, or a byte as `%` and two digits.
pub data Encodes : Bytes → Bytes → Type 0 where
  done : Encodes [] []
  as_is :
      {cs out : Bytes} (c : ℕ) → c ≢ b'%' → c ≢ b'+' → Encodes cs out → Encodes (c ∷ cs) (c ∷ out)
  as_plus :
      {cs out : Bytes} (c s : ℕ) → c ≡ b'+' → s ≡ b' ' → Encodes cs out → Encodes (c ∷ cs) (s ∷ out)
  as_hex :
      {cs out : Bytes} (c h l a b v : ℕ)
      → c ≡ b'%'
      → hex_digit h ≡ some a
      → hex_digit l ≡ some b
      → v ≡ a * 16 + b
      → Encodes cs out
      → Encodes (c ∷ h ∷ l ∷ cs) (v ∷ out)

-- One round at a character that is no escape.
pub url_decode-plain :
    (c : ℕ) (cs : Bytes)
    → (c == b'%') ≡ false
    → url_decode (c ∷ cs) ≡ behind (plain c) (url_decode cs)
unfolding url_decode
url_decode-plain c [] h = ground arith
url_decode-plain c (a ∷ []) h = ground arith
url_decode-plain c (a ∷ b ∷ cs) h = ground arith

-- One round at an escape that can be read.
pub url_decode-escape :
    (c a b v : ℕ) (cs : Bytes)
    → (c == b'%') ≡ true
    → escaped_byte a b ≡ some v
    → url_decode (c ∷ a ∷ b ∷ cs) ≡ behind v (url_decode cs)
unfolding url_decode
url_decode-escape c a b v cs h e = ground arith

-- Every encoding of a text, each byte as it is, a space as `+`, or any byte as `%` and two
-- hexadecimal digits of either case, is decoded to that text.
pub url_decode-Encodes : {url out : Bytes} → Encodes url out → url_decode url ≡ some out
url_decode-Encodes done = unfold url_decode in refl
url_decode-Encodes (as_is {cs} {out} c h k t) =
    url_decode-plain c cs (ground arith) ∙ rw (url_decode-Encodes t) (ground arith)
url_decode-Encodes (as_plus {cs} {out} c s h k t) =
    url_decode-plain c cs (ground arith) ∙ rw (url_decode-Encodes t) (ground arith)
url_decode-Encodes (as_hex {cs} {out} c h l a b v e p q w t) =
    url_decode-escape c h l v cs (ground arith) (escaped_byte_lem h l a b p q ∙ ap some (sym w))
    ∙ rw (url_decode-Encodes t)
