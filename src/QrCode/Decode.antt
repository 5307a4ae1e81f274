-- ===== src/QrCode/Decode.antt =====
-- src/whz_qrcode_generator.hpp: what `base64Encode` returns can be decoded.
use Prim.Native.Nat.{min, max, digits, bit_and, bit_or, bit_and-bitwise, bit_or-bitwise}
use native.Mathlib.Nat.{mul-add, le_refl}
use work_horz.Base.{
  ℕ, zero, suc, ◌+◌, ◌-◌, ◌*◌, ◌/◌, ◌%◌, ◌==◌, ◌≤◌, ◌<◌, Bool, true, false, not, ◌&&◌, [], ◌∷◌,
  Option, none, some, leb, if◌then◌else◌, Bytes, get_elem?, ◌≡◌, refl, ap, ◌∙◌, arith, Bool-cases,
  inl, inr, ==_iff, is_empty, All,
}
use work_horz.Base.Loop.{any, any_intro}
use work_horz.QrCode.Base64.{base64_chars, base64_char, base64_encode}

-- `bit_or x b` is `x + b` where `x` is a multiple of `w`, a power of two, and `b` is below `w`.
abbrev Joins : ℕ → Type 0
Joins w = (n q x b : ℕ) → x ≤ n → x ≡ q * w → b < w → digits (λ y. y) max n x b ≡ x + b

one-Joins : Joins 1
one-Joins zero q x b h e l = omega (arith, h, l)
one-Joins (suc n) q zero b h e l = omega arith
one-Joins (suc n) q (suc x) zero h e l =
    let rest = one-Joins n (suc x / 2) (suc x / 2) 0 (omega (arith, h)) (omega arith) l in
    omega (arith, rest)
one-Joins (suc n) q (suc x) (suc b) h e l = absurd (omega (arith, l))

double-Joins : (w : ℕ) → Joins w → Joins (w + w)
double-Joins w ih zero q zero b h e l = omega arith
double-Joins w ih zero q (suc x) b h e l = absurd (omega (arith, h))
double-Joins w ih (suc n) q zero b h e l = omega arith
double-Joins w ih (suc n) q (suc x) b h e l =
    let twice : suc x ≡ q * w + q * w = e ∙ mul-add q w w in
    let even : suc x % 2 ≡ 0 = omega (arith, twice) in
    let rest =
      ih n q (suc x / 2) (b / 2) (omega (arith, h)) (omega (arith, twice)) (omega (arith, l)) in
    rw even (omega (arith, rest, even))

-- `bit_and v m` is `v % w`, for the mask `m` of the numbers below `w`.
abbrev Masks : ℕ → ℕ → Type 0
Masks m w = (n v : ℕ) → v ≤ n → digits (λ y. zero) min n v m ≡ v % w

zero-Masks : Masks 0 1
zero-Masks zero v h = omega (arith, h)
zero-Masks (suc n) zero h = refl
zero-Masks (suc n) (suc v) h =
    let rest = zero-Masks n (suc v / 2) (omega (arith, h)) in omega (arith, rest)

double-Masks :
    (m w : ℕ)
    → ((v : ℕ) → v % (w + w) ≡ v / 2 % w * 2 + v % 2)
    → Masks m w
    → Masks (suc (m + m)) (w + w)
double-Masks m w halves ih zero zero h =
    let same = halves 0 in let rest = ih 0 0 h in omega (arith, same, rest)
double-Masks m w halves ih zero (suc v) h = absurd (omega (arith, h))
double-Masks m w halves ih (suc n) zero h =
    let same = halves 0 in let rest = ih 0 0 (omega arith) in omega (arith, same, rest)
double-Masks m w halves ih (suc n) (suc v) h =
    let rest = ih n (suc v / 2) (omega (arith, h)) in
    let odd : suc (m + m) % 2 ≡ 1 = omega arith in
    let half : suc (m + m) / 2 ≡ m = omega arith in
    let same = halves (suc v) in rw (half, odd) (omega (arith, rest, same))

sextet_mask : (v : ℕ) → bit_and v 63 ≡ v % 64
sextet_mask v = simp bit_and-bitwise (
    double-Masks 31 32 (λ u. omega arith)
      (double-Masks 15 16 (λ u. omega arith)
        (double-Masks 7 8 (λ u. omega arith)
          (double-Masks 3 4 (λ u. omega arith)
            (double-Masks 1 2 (λ u. omega arith)
              (double-Masks 0 1 (λ u. omega arith) zero-Masks)))))
      v v (le_refl v))

byte-Joins : Joins 256
byte-Joins = double-Joins 128 (
    double-Joins 64 (
      double-Joins 32 (
        double-Joins 16
          (double-Joins 8 (double-Joins 4 (double-Joins 2 (double-Joins 1 one-Joins)))))))

join_low : (q b : ℕ) → b < 256 → bit_or (q * 256) b ≡ q * 256 + b
join_low q b h = simp bit_or-bitwise (byte-Joins (q * 256) q (q * 256) b (le_refl (q * 256)) refl h)

join_high : (q b : ℕ) → b < 256 → bit_or (q * 65536) (b * 256) ≡ q * 65536 + b * 256
join_high q b h = simp bit_or-bitwise (
    double-Joins 32768
      (double-Joins 16384 (
        double-Joins 8192 (
          double-Joins 4096 (
            double-Joins 2048
              (double-Joins 1024 (double-Joins 512 (double-Joins 256 byte-Joins)))))))
      (q * 65536) q (q * 65536) (b * 256) (le_refl (q * 65536)) refl (omega (arith, h)))

value_two : (a b : ℕ) → b < 256 → bit_or (a * 65536) (b * 256) ≡ a * 65536 + b * 256
value_two = join_high

value_three :
    (a b c : ℕ)
    → b < 256
    → c < 256
    → bit_or (bit_or (a * 65536) (b * 256)) c ≡ a * 65536 + b * 256 + c
value_three a b c h k =
    let whole : a * 65536 + b * 256 ≡ (a * 256 + b) * 256 = omega arith in
    rw (join_high a b h, whole) (join_low (a * 256 + b) c k)

-- The value of a character of the alphabet of RFC 4648.
abbrev base64_value : ℕ → Option ℕ
base64_value c =
    if leb b'A' c && leb c b'Z'
    then some (c - b'A')
    else if leb b'a' c && leb c b'z'
    then some (c - b'a' + 26)
    else if leb b'0' c && leb c b'9'
    then some (c - b'0' + 52)
    else if c == b'+'
    then some 62
    else if c == b'/'
    then some 63
    else none

infixl 20 ◌>>=◌
abbrev ◌>>=◌ : {A B : Type 0} → Option A → (A → Option B) → Option B
none >>= f = none
some a >>= f = f a

abbrev one_byte : Option ℕ → Option ℕ → Option Bytes
one_byte p q = do x ← p; y ← q; some ((x * 64 + y) / 16 ∷ [])

abbrev two_bytes : Option ℕ → Option ℕ → Option ℕ → Option Bytes
two_bytes p q r = do
  x ← p
  y ← q
  z ← r
  some ((x * 4096 + y * 64 + z) / 1024 ∷ (x * 4096 + y * 64 + z) / 4 % 256 ∷ [])

abbrev three_bytes : Option ℕ → Option ℕ → Option ℕ → Option ℕ → Option Bytes → Option Bytes
three_bytes p q r s more = do
  x ← p
  y ← q
  z ← r
  w ← s
  bytes ← more
  some ((x * 64 + y) / 16 ∷ (x * 4096 + y * 64 + z) / 4 % 256 ∷ (z * 64 + w) % 256 ∷ bytes)

-- The decoder of RFC 4648: four characters to three bytes, the last four with `=` to fewer.
abbrev pub base64_decode : Bytes → Option Bytes
base64_decode [] = some []
base64_decode (a ∷ []) = none
base64_decode (a ∷ b ∷ []) = none
base64_decode (a ∷ b ∷ c ∷ []) = none
base64_decode (a ∷ b ∷ c ∷ d ∷ rest) =
    let more = base64_decode rest in
    if is_empty rest && d == b'='
    then if c == b'='
      then one_byte (base64_value a) (base64_value b)
      else two_bytes (base64_value a) (base64_value b) (base64_value c)
    else three_bytes (base64_value a) (base64_value b) (base64_value c) (base64_value d) more

symbol : ℕ → ℕ
unfolding base64_char
symbol v = elim (get_elem? base64_chars v) [ some c ↦ c | none ↦ 0 ]

holds_value : Option ℕ → ℕ → Bool
holds_value (some u) v = u == v
holds_value none v = false

holds_value_lem : (o : Option ℕ) (v : ℕ) → holds_value o v ≡ true → o ≡ some v
unfolding holds_value
holds_value_lem (some u) v e = ap some ((==_iff u v).0 e)
holds_value_lem none v e = cc

-- Each of the 64 symbols has its value.
table_test : any 64 0 (λ v. not (holds_value (base64_value (symbol v)) v)) ≡ false
unfolding symbol holds_value
table_test = refl

base64_value-symbol : (v : ℕ) → v < 64 → base64_value (symbol v) ≡ some v
base64_value-symbol v h = elim (Bool-cases (holds_value (base64_value (symbol v)) v)) [
  | inl here ↦ holds_value_lem (base64_value (symbol v)) v here
  | inr wrong ↦
      let found =
        any_intro 64 0 v (λ v. not (holds_value (base64_value (symbol v)) v)) (omega arith)
          (omega (arith, h)) (rw wrong refl) in
      let test = table_test in cc
]

base64_char-symbol : (value scale : ℕ) → base64_char value scale ≡ symbol (value / scale % 64)
unfolding base64_char symbol
base64_char-symbol value scale = rw (sextet_mask (value / scale), base64_char) refl

-- A character with a value is no padding.
value-not_padding : (c v : ℕ) → base64_value c ≡ some v → (c == b'=') ≡ false
value-not_padding c v e = elim (Bool-cases (c == b'=')) [
  | inl pad ↦
      let same : c ≡ b'=' = (==_iff c b'=').0 pad in
      let gone : base64_value c ≡ none = rw same refl in cc
  | inr other ↦ other
]

decode_one :
    (p q : ℕ)
    → p < 64
    → q < 64
    → base64_decode (symbol p ∷ symbol q ∷ b'=' ∷ b'=' ∷ []) ≡ some ((p * 64 + q) / 16 ∷ [])
decode_one p q h i = rw (base64_value-symbol p h, base64_value-symbol q i) refl

decode_two :
    (p q r : ℕ)
    → p < 64
    → q < 64
    → r < 64
    → base64_decode (symbol p ∷ symbol q ∷ symbol r ∷ b'=' ∷ [])
      ≡ some ((p * 4096 + q * 64 + r) / 1024 ∷ (p * 4096 + q * 64 + r) / 4 % 256 ∷ [])
decode_two p q r h i j =
    rw (value-not_padding (symbol r) r (base64_value-symbol r j))
      (rw (base64_value-symbol p h, base64_value-symbol q i, base64_value-symbol r j) refl)

decode_three :
    (p q r s : ℕ) (rest : Bytes)
    → p < 64
    → q < 64
    → r < 64
    → s < 64
    → base64_decode (symbol p ∷ symbol q ∷ symbol r ∷ symbol s ∷ rest)
      ≡ three_bytes (some p) (some q) (some r) (some s) (base64_decode rest)
decode_three p q r s rest h i j k =
    rw (value-not_padding (symbol s) s (base64_value-symbol s k), and_false (is_empty rest))
      (rw
        (
          base64_value-symbol p h,
          base64_value-symbol q i,
          base64_value-symbol r j,
          base64_value-symbol s k,
        )
        refl)
  where
    and_false : (b : Bool) → b && false ≡ false
    and_false true = refl
    and_false false = refl

-- Decoding what the encoder makes of a list of bytes, of any length, gives the bytes back.
pub base64_decode-base64_encode :
    (bytes : Bytes) → All (λ b. b < 256) bytes → base64_decode (base64_encode bytes) ≡ some bytes
unfolding base64_encode
base64_decode-base64_encode [] h = refl
base64_decode-base64_encode (a ∷ []) (h, _) =
    let value = a * 65536 in
    rw (base64_char-symbol value 262144, base64_char-symbol value 4096)
      (decode_one (value / 262144 % 64) (value / 4096 % 64) (omega arith) (omega arith)
        ∙ ap (λ x. some (x ∷ [])) (omega (arith, h)))
base64_decode-base64_encode (a ∷ b ∷ []) (h, (i, _)) =
    let value = bit_or (a * 65536) (b * 256) in
    let sum : value ≡ a * 65536 + b * 256 = join_high a b i in
    rw (base64_char-symbol value 262144, base64_char-symbol value 4096, base64_char-symbol value 64)
      (decode_two (value / 262144 % 64) (value / 4096 % 64) (value / 64 % 64) (omega arith)
          (omega arith) (omega arith)
        ∙ pair (let e = sum in omega (arith, h, i, e)) (let e = sum in omega (arith, h, i, e)))
  where
    pair : {x y z w : ℕ} → x ≡ z → y ≡ w → some (x ∷ y ∷ []) ≡ some (z ∷ w ∷ [])
    pair e f = cc
base64_decode-base64_encode (a ∷ b ∷ c ∷ rest) (h, (i, (j, k))) =
    let value = bit_or (bit_or (a * 65536) (b * 256)) c in
    let sum : value ≡ a * 65536 + b * 256 + c = value_three a b c i j in
    rw
      (
        base64_char-symbol value 262144,
        base64_char-symbol value 4096,
        base64_char-symbol value 64,
        base64_char-symbol value 1,
      )
      (decode_three (value / 262144 % 64) (value / 4096 % 64) (value / 64 % 64) (value / 1 % 64)
          (base64_encode rest) (omega arith) (omega arith) (omega arith) (omega arith)
        ∙ rw (base64_decode-base64_encode rest k) (
            triple (let e = sum in omega (arith, h, i, j, e))
              (let e = sum in omega (arith, h, i, j, e))
              (let e = sum in omega (arith, h, i, j, e))))
  where
    triple :
        {x y z u v w : ℕ}
        → x ≡ u
        → y ≡ v
        → z ≡ w
        → some (x ∷ y ∷ z ∷ rest) ≡ some (u ∷ v ∷ w ∷ rest)
    triple e f g = cc
