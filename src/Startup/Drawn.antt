-- ===== src/Startup/Drawn.antt =====
-- src/whz_qrcode_generator.hpp, as src/whz-core.cpp uses it: both ways of drawing end.
use work_horz.Base.{
  ℕ, ◌<◌, Bool, true, false, List, [], ◌++◌, Option, some, ◌≡◌, refl, inl, inr, Bytes, codes,
  bytes_eq, Option-cases, ◌≤◌,
}
use work_horz.QrCode.{QrCode, QrCodeParams, generate_qr_code, image_size, encode_base64_png}
use work_horz.QrCode.Base64.{base64_encode}
use work_horz.QrCode.Bitmap.{bitmap}
use work_horz.QrCode.Painted.{png_rows-base64_rows}

pub generate_svg :
    (write_png : List (List ℕ) → Option Bytes) (can_open : Bool) (qr : QrCode) (p : QrCodeParams)
    → (r : Bool × Option Bytes) × (generate_qr_code write_png can_open qr (codes "svg") p ≡ some r)
unfolding generate_qr_code bytes_eq
generate_svg write_png true qr p = (_, refl)
generate_svg write_png false qr p = (_, refl)

-- Drawing the code has no undefined behaviour.
pub encode_base64_png-total :
    (write_png : List (List ℕ) → Option Bytes) (qr : QrCode) (p : QrCodeParams)
    → 0 < p.scale
    → image_size qr p ≤ 46340
    → (text : Bytes) × (encode_base64_png write_png qr p ≡ some text)
unfolding encode_base64_png
encode_base64_png-total write_png qr p h small =
    let rows = (png_rows-base64_rows qr p h small).1 in
    elim (Option-cases (write_png (bitmap qr p))) [
      | inl failed ↦ ([], rw (rows, encode_base64_png) (rw failed refl))
      | inr (png, wrote) ↦ (
        codes "data:image/png;base64," ++ base64_encode png,
        rw (rows, encode_base64_png) (rw wrote refl),
      )
    ]
