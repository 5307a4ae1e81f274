-- ===== src/QrCode/Base64.antt =====
-- src/whz_qrcode_generator.hpp: `base64Encode`.
use work_horz.Base.{ℕ, ◌*◌, ◌/◌, [], ◌∷◌, none, some, Bytes, codes, get_elem?}
use Prim.Native.Nat.{bit_and, bit_or}

abbrev pub base64_chars : Bytes
base64_chars = codes "ABCDEFGHIJKLMNOPQRSTUVWXYZabcdefghijklmnopqrstuvwxyz0123456789+/"

-- `base64Chars[(value >> shift) & 0x3F]`, for `scale = 2 ^ shift`; the index is always in range.
unfoldable pub base64_char : ℕ → ℕ → ℕ
base64_char value scale = elim (get_elem? base64_chars (bit_and (value / scale) 0x3F)) [
  | some c ↦ c
  | none ↦ 0
]

-- The loop, three bytes in a round; the last round may have one or two.
unfoldable pub base64_encode : Bytes → Bytes
base64_encode [] = []
base64_encode (a ∷ []) =
    let value = a * 65536 in base64_char value 262144 ∷ base64_char value 4096 ∷ b'=' ∷ b'=' ∷ []
base64_encode (a ∷ b ∷ []) =
    let value = bit_or (a * 65536) (b * 256) in
    base64_char value 262144 ∷ base64_char value 4096 ∷ base64_char value 64 ∷ b'=' ∷ []
base64_encode (a ∷ b ∷ c ∷ rest) =
    let value = bit_or (bit_or (a * 65536) (b * 256)) c in
    base64_char value 262144
    ∷ base64_char value 4096
    ∷ base64_char value 64
    ∷ base64_char value 1
    ∷ base64_encode rest
