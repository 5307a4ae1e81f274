-- ===== src/QrCode/Tests.antt =====
-- A code of three dark modules, drawn in squares of two pixels with a border of one.
use work_horz.Base.{◌==◌, not, ◌&&◌, [], ◌∷◌, some, ◌≡◌, refl, codes, arith, ◌≤◌}
use work_horz.QrCode.{QrCode, QrCodeParams, png_rows, base64_rows, image_size}
use work_horz.QrCode.Base64.{base64_char, base64_encode}
use work_horz.QrCode.Bitmap.{bitmap}
use work_horz.QrCode.Painted.{png_rows-base64_rows}
use work_horz.QrCode.Decode.{base64_decode, base64_decode-base64_encode}

abbrev corner : QrCode
corner = record { size = 2; get_module = λ x y. not (x == 1 && y == 1) }

abbrev params : QrCodeParams
params = record {
  scale = 2;
  border = 1;
  foreground_color = codes "black";
  background_color = codes "white";
}

corner_rows :
    png_rows corner params
    ≡ some (
        (255 ∷ 255 ∷ 255 ∷ 255 ∷ 255 ∷ 255 ∷ [])
        ∷ (255 ∷ 0 ∷ 0 ∷ 0 ∷ 0 ∷ 255 ∷ [])
        ∷ (255 ∷ 0 ∷ 0 ∷ 0 ∷ 0 ∷ 255 ∷ [])
        ∷ (255 ∷ 0 ∷ 0 ∷ 255 ∷ 255 ∷ 255 ∷ [])
        ∷ (255 ∷ 0 ∷ 0 ∷ 255 ∷ 255 ∷ 255 ∷ [])
        ∷ (255 ∷ 255 ∷ 255 ∷ 255 ∷ 255 ∷ 255 ∷ [])
        ∷ [])
unfolding png_rows image_size
corner_rows = refl

-- The example of RFC 4648.
man_text : base64_encode (codes "fooba") ≡ codes "Zm9vYmE="
unfolding base64_encode base64_char
man_text = refl

corner-small : image_size corner params ≤ 46340
unfolding image_size
corner-small = omega arith

png_rows-base64_rows_example :
    (png_rows corner params ≡ some (bitmap corner params))
    × (base64_rows corner params ≡ some (bitmap corner params))
png_rows-base64_rows_example = png_rows-base64_rows corner params (omega arith) corner-small

base64_decode-base64_encode_example :
    base64_decode (base64_encode (codes "fooba")) ≡ some (codes "fooba")
base64_decode-base64_encode_example =
    base64_decode-base64_encode (codes "fooba")
      (omega arith, (omega arith, (omega arith, (omega arith, (omega arith, tt)))))
