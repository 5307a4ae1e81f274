-- ===== src/QrCode.antt =====
-- src/whz_qrcode_generator.hpp: `whz_qrcode_generator`. The QR code library is a parameter, a matrix of
-- modules, and so is the PNG library: what it writes for the rows that it is given. The scale and the
-- border are not negative here. The sizes are of type `int`: where one comes to 2 ^ 31, which is undefined
-- behaviour, the rows are `none`.
pub mod Bitmap
pub mod Pixels
pub mod Painted
pub mod Base64
pub mod Decode
pub mod Path
mod Tests
use work_horz.Base.{
  ℕ, zero, suc, ◌+◌, ◌-◌, ◌*◌, ◌/◌, ◌==◌, ◌≤◌, ◌<◌, Bool, true, false, not, ◌&&◌, ◌||◌, List, [],
  ◌∷◌, ◌++◌, Option, none, some, leb, ltb, if◌then◌else◌, Bytes, replicate, length, take, drop,
  codes, bytes_eq,
}
use work_horz.Base.Decimal.{to_decimal}
use work_horz.Base.Loop.{for_each, set_elem}
use Base64.{base64_encode}

-- `qrcodegen::QrCode`: `get_module x y` for coordinates below the size.
pub record QrCode : Type 0 where
  pub size : ℕ
  pub get_module : ℕ → ℕ → Bool

-- `QRCodeParams`, with the fields that this class reads itself.
pub record QrCodeParams : Type 0 where
  pub scale : ℕ
  pub border : ℕ
  pub foreground_color : Bytes
  pub background_color : Bytes

abbrev pub int_limit : ℕ
int_limit = 2147483648

-- Both products in it are at most as large, so that none overflows where it does not.
unfoldable pub image_size : QrCode → QrCodeParams → ℕ
image_size qr params = qr.size * params.scale + 2 * params.border

-- `writePNG`: the test on one pixel. The source counts `x` and `y` from `-border` on; `col` and `row`
-- are these plus the border, so that `x >= 0` is `border <= col`.
unfoldable pub is_dark : QrCode → QrCodeParams → ℕ → ℕ → Bool
is_dark qr params row col =
    leb params.border row
    && (ltb ((row - params.border) / params.scale) qr.size
        && (leb params.border col
            && (ltb ((col - params.border) / params.scale) qr.size
                && qr.get_module ((col - params.border) / params.scale)
                    ((row - params.border) / params.scale))))

unfoldable pub png_row : QrCode → QrCodeParams → ℕ → Option (List ℕ)
unfolding is_dark
png_row qr params row =
    for_each (image_size qr params) 0
      (λ col pixels. if is_dark qr params row col then set_elem col 0 pixels else some pixels)
      (replicate (image_size qr params) 255)

-- The rows that `writePNG` gives to `png_write_row`.
unfoldable pub png_rows : QrCode → QrCodeParams → Option (List (List ℕ))
unfolding png_row
png_rows qr params =
    if ltb (image_size qr params) int_limit
    then for_each (image_size qr params) 0
        (λ row rows. elim (png_row qr params row) [
          | none ↦ none
          | some pixels ↦ some (rows ++ pixels ∷ [])
        ])
        []
    else none

-- `encodeBase64Png`: the square of pixels of one module.
unfoldable pub paint_module : QrCode → QrCodeParams → ℕ → ℕ → List ℕ → Option (List ℕ)
paint_module qr params y x = for_each params.scale 0 (λ dy. for_each params.scale 0 (λ dx.
    set_elem
      ((y * params.scale + dy + params.border) * image_size qr params
        + (x * params.scale + dx + params.border))
      0))

-- The image, row by row in one vector, whose size is computed as an `int` too and bounds every index.
unfoldable pub paint_image : QrCode → QrCodeParams → Option (List ℕ)
unfolding paint_module
paint_image qr params =
    if ltb (image_size qr params) int_limit
      && ltb (image_size qr params * image_size qr params) int_limit
    then for_each qr.size 0
        (λ y.
          for_each qr.size 0
            (λ x image. if qr.get_module x y then paint_module qr params y x image else some image))
        (replicate (image_size qr params * image_size qr params) 255)
    else none

-- `&image[y * imageSize]`, for as many pixels as a row has.
unfoldable pub image_row : ℕ → List ℕ → ℕ → Option (List ℕ)
image_row width image y =
    if leb (y * width + width) (length image)
    then some (take width (drop (y * width) image))
    else none

-- The rows that `encodeBase64Png` gives to `png_write_row`.
unfoldable pub base64_rows : QrCode → QrCodeParams → Option (List (List ℕ))
unfolding paint_image image_row
base64_rows qr params = elim (paint_image qr params) [
  | none ↦ none
  | some image ↦
      for_each (image_size qr params) 0
        (λ y rows. elim (image_row (image_size qr params) image y) [
          | none ↦ none
          | some pixels ↦ some (rows ++ pixels ∷ [])
        ])
        []
]

-- `encodeBase64Png`. `write_png` is the file that the PNG library makes of the rows, or `none` where
-- one of its calls or the temporary file fails; the outer `none` is undefined behaviour.
unfoldable pub encode_base64_png :
    (List (List ℕ) → Option Bytes) → QrCode → QrCodeParams → Option Bytes
unfolding base64_rows
encode_base64_png write_png qr params = elim (base64_rows qr params) [
  | none ↦ none
  | some rows ↦ elim (write_png rows) [
    | none ↦ some []
    | some png ↦ some (codes "data:image/png;base64," ++ base64_encode png)
  ]
]

-- `writePNG`, with the file that it leaves and the value that it returns.
unfoldable pub write_png_file :
    (List (List ℕ) → Option Bytes) → QrCode → QrCodeParams → Option (Bool × Option Bytes)
unfolding png_rows
write_png_file write_png qr params = elim (png_rows qr params) [
  | none ↦ none
  | some rows ↦ elim (write_png rows) [
    | none ↦ some (false, none)
    | some png ↦ some (true, some png)
  ]
]

-- `writeSVG`: one module of the path.
unfoldable pub path_module : QrCode → QrCodeParams → ℕ → ℕ → Bytes → Bytes
path_module qr params y x file =
    if qr.get_module x y
    then (if not (x == 0) || not (y == 0) then file ++ codes " " else file)
      ++ (codes "M"
          ++ (to_decimal (x + params.border)
              ++ (codes "," ++ (to_decimal (y + params.border) ++ codes "h1v1h-1z"))))
    else file

-- `for (x = start; x < start + n; x++)`.
unfoldable pub path_row : QrCode → QrCodeParams → ℕ → ℕ → ℕ → Bytes → Bytes
unfolding path_module
path_row qr params y zero x file = file
path_row qr params y (suc n) x file =
    path_row qr params y n (suc x) (path_module qr params y x file)

unfoldable pub path_rows : QrCode → QrCodeParams → ℕ → ℕ → Bytes → Bytes
unfolding path_row
path_rows qr params zero y file = file
path_rows qr params (suc n) y file =
    path_rows qr params n (suc y) (path_row qr params y qr.size 0 file)

unfoldable pub svg_text : QrCode → QrCodeParams → Bytes
unfolding path_rows
svg_text qr params =
    let side = to_decimal (qr.size + params.border * 2) in
    let start : Bytes =
      codes
        "<svg xmlns='http://www.w3.org/2000/svg' xmlns:xlink='http://www.w3.org/1999/xlink' viewBox='0 0 "
      ++ (side ++ (codes " " ++ (side ++ codes "' stroke='none'>\n"))) in
    let rect : Bytes =
      codes "<rect width='100%' height='100%' fill='"
      ++ (params.background_color ++ codes "'/>\n") in
    path_rows qr params qr.size 0 (start ++ (rect ++ codes "<path d='"))
    ++ (codes "' fill='" ++ (params.foreground_color ++ codes "'/>\n</svg>\n"))

-- What `generateQRCode` leaves in the output file, and the value that it returns; `can_open` says whether
-- the SVG file can be opened.
unfoldable pub generate_qr_code :
    (List (List ℕ) → Option Bytes)
    → Bool
    → QrCode
    → Bytes
    → QrCodeParams
    → Option (Bool × Option Bytes)
unfolding write_png_file svg_text
generate_qr_code write_png can_open qr format params =
    if bytes_eq format (codes "png")
    then write_png_file write_png qr params
    else if bytes_eq format (codes "svg")
    then if can_open then some (true, some (svg_text qr params)) else some (false, none)
    else some (false, none)
