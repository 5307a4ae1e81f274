-- ===== src/Http/Chars.antt =====
-- src/whz_request_parser.cpp: the character classes. A `char` is a byte here, and the `int` that it
-- converts to is negative from 128 on (a signed char), so `c >= 0` is `nonneg`.
use work_horz.Base.{ℕ, Bool, true, false, not, ◌&&◌, ◌||◌, ◌≡◌, ◌==◌, leb, arith}

abbrev nonneg : ℕ → Bool
nonneg c = leb c 127

unfoldable pub is_char : ℕ → Bool
is_char c = nonneg c && leb c 127

unfoldable pub is_ctl : ℕ → Bool
is_ctl c = (nonneg c && leb c 31) || c == 127

unfoldable pub is_tspecial : ℕ → Bool
is_tspecial c =
    c == b'('
    || c == b')'
    || c == b'<'
    || c == b'>'
    || c == b'@'
    || c == b','
    || c == b';'
    || c == b':'
    || c == b'\\'
    || c == b'"'
    || c == b'/'
    || c == b'['
    || c == b']'
    || c == b'?'
    || c == b'='
    || c == b'{'
    || c == b'}'
    || c == b' '
    || c == b'\t'

unfoldable pub is_digit : ℕ → Bool
is_digit c = leb b'0' c && leb c b'9'

-- The test by which the parser refuses a byte of a method or of a header's name.
unfoldable pub not_token : ℕ → Bool
not_token c = not (is_char c) || is_ctl c || is_tspecial c

pub token-ne_space : (c : ℕ) → not_token c ≡ false → (c == b' ') ≡ false
unfolding not_token is_tspecial
token-ne_space c h = ground arith

pub token-ne_tab : (c : ℕ) → not_token c ≡ false → (c == b'\t') ≡ false
unfolding not_token is_tspecial
token-ne_tab c h = ground arith

pub token-ne_colon : (c : ℕ) → not_token c ≡ false → (c == b':') ≡ false
unfolding not_token is_tspecial
token-ne_colon c h = ground arith

pub token-not-ctl : (c : ℕ) → not_token c ≡ false → is_ctl c ≡ false
unfolding not_token
token-not-ctl c h = ground arith

-- No control character is CR or LF or NUL.
pub not-ctl-ne_cr : (c : ℕ) → is_ctl c ≡ false → (c == b'\r') ≡ false
unfolding is_ctl
not-ctl-ne_cr c h = ground arith

ctl-not_token : (c : ℕ) → is_ctl c ≡ true → not_token c ≡ true
unfolding not_token
ctl-not_token c h = ground arith
