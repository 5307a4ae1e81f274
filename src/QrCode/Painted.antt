-- ===== src/QrCode/Painted.antt =====
-- src/whz_qrcode_generator.hpp: the image that `encodeBase64Png` paints.
use native.Mathlib.Nat.{mod-lt, mul-le-mul_right}
use work_horz.Base.{
  ℕ, suc, ◌+◌, ◌-◌, ◌*◌, ◌/◌, ◌%◌, ◌==◌, ◌≤◌, ◌<◌, Bool, true, false, ◌&&◌, List, [], some, leb,
  if◌then◌else◌, replicate, length-replicate, length, take, drop, length-drop, get_elem?, ◌≡◌, refl,
  sym, ap, ◌∙◌, arith, Bool-cases, inl, inr, ==_iff, ltb,
}
use work_horz.Base.Loop.{
  for_each, set_elem, length-tabulate, list_ext, any, any_intro, any_elim, Paints, nothing-Paints,
  set_elem-Paints, for_each-Paints, length-take, get_elem?-take, get_elem?-drop,
}
use work_horz.QrCode.{
  QrCode, QrCodeParams, image_size, is_dark, png_row, png_rows, paint_module, paint_image,
  image_row, base64_rows, int_limit,
}
use work_horz.QrCode.Bitmap.{
  bitmap_row, bitmap, black, get_elem?-replicate, for_each-tabulate, bitmap_elem, png_row-bitmap,
}
use work_horz.QrCode.Pixels.{
  cell_lt, cell_div, Bool_ext, pixel-module, module-pixel, pixel_lt, is_dark_intro, is_dark_elim,
}

module _ (qr : QrCode) (params : QrCodeParams) where
  -- The pixels that a module paints, and those of all dark modules.
  abbrev index : ℕ → ℕ → ℕ → ℕ → ℕ
  index y x dy dx =
      (y * params.scale + dy + params.border) * image_size qr params
      + (x * params.scale + dx + params.border)

  abbrev module_painted : ℕ → ℕ → ℕ → Bool
  module_painted y x k = any params.scale 0 (λ dy. any params.scale 0 (λ dx. k == index y x dy dx))

  abbrev image_painted : ℕ → Bool
  image_painted k =
      any qr.size 0 (λ y. any qr.size 0 (λ x. qr.get_module x y && module_painted y x k))

  paint_module-Paints :
      (y x : ℕ)
      → y < qr.size
      → x < qr.size
      → Paints
          (image_size qr params * image_size qr params)
          black
          (module_painted y x)
          (paint_module qr params y x)
  unfolding paint_module
  paint_module-Paints y x h k =
      let area = image_size qr params * image_size qr params in
      for_each-Paints area black params.scale 0
        (λ dy pixel. any params.scale 0 (λ dx. pixel == index y x dy dx))
        (λ dy. for_each params.scale 0 (λ dx. set_elem (index y x dy dx) 0))
        (λ dy a b.
          for_each-Paints area black params.scale 0 (λ dx pixel. pixel == index y x dy dx)
            (λ dx. set_elem (index y x dy dx) 0)
            (λ dx c d. set_elem-Paints area black (index y x dy dx) (
              cell_lt (y * params.scale + dy + params.border)
                (x * params.scale + dx + params.border) (image_size qr params)
                (image_size qr params) (pixel_lt qr params y dy h (omega (arith, b)))
                (pixel_lt qr params x dx k (omega (arith, d))))))

  module_or_nothing-Paints :
      (y x : ℕ)
      → y < qr.size
      → x < qr.size
      → Paints
          (image_size qr params * image_size qr params)
          black
          (λ k. qr.get_module x y && module_painted y x k)
          (λ image. if qr.get_module x y then paint_module qr params y x image else some image)
  module_or_nothing-Paints y x h k = elim (Bool-cases (qr.get_module x y)) [
    | inl dark ↦ rw dark (paint_module-Paints y x h k)
    | inr light ↦
        rw light
          (nothing-Paints (image_size qr params * image_size qr params) black some (λ xs. refl))
  ]

  -- No size overflows up to 46340 pixels.
  image_size-fits :
      image_size qr params ≤ 46340
      → (ltb (image_size qr params) int_limit ≡ true)
        × (ltb (image_size qr params * image_size qr params) int_limit ≡ true)
  image_size-fits h =
      let n = image_size qr params in
      let wide : n * n ≤ 46340 * n = mul-le-mul_right {m = n} {n = 46340} n h in
      let square : n * n < int_limit = omega (arith, wide, h) in
      (ground (arith, h), ground (arith, square))

  -- What the painted image holds.
  paint_image_lem :
      image_size qr params ≤ 46340
      → (image : List ℕ) × (paint_image qr params ≡ some image)
        × (length image ≡ image_size qr params * image_size qr params)
        × ((k : ℕ)
            → get_elem? image k ≡ (
                if image_painted k
                then some black
                else get_elem? (replicate (image_size qr params * image_size qr params) 255) k))
  unfolding paint_image
  paint_image_lem small =
      let (narrow, square) = image_size-fits small in
      let area = image_size qr params * image_size qr params in
      rw (narrow, square)
        (for_each-Paints area black qr.size 0
          (λ y k. any qr.size 0 (λ x. qr.get_module x y && module_painted y x k))
          (λ y.
            for_each qr.size 0 (λ x image.
              if qr.get_module x y then paint_module qr params y x image else some image))
          (λ y a b.
            for_each-Paints area black qr.size 0 (λ x k. qr.get_module x y && module_painted y x k)
              (λ x image.
                if qr.get_module x y then paint_module qr params y x image else some image)
              (λ x c d. module_or_nothing-Paints y x (omega (arith, b)) (omega (arith, d))))
          (replicate area 255) (length-replicate area 255))

  painted-is_dark :
      (row col : ℕ)
      → row < image_size qr params
      → col < image_size qr params
      → image_painted (row * image_size qr params + col) ≡ true
      → is_dark qr params row col ≡ true
  painted-is_dark row col h k e =
      let (y, _, y_lt, e2) =
        any_elim qr.size 0
          (λ y.
            any qr.size 0
              (λ x. qr.get_module x y && module_painted y x (row * image_size qr params + col)))
          e in
      let (x, _, x_lt, e3) =
        any_elim qr.size 0
          (λ x. qr.get_module x y && module_painted y x (row * image_size qr params + col)) e2 in
      let (dark, e4) =
        both (qr.get_module x y) (module_painted y x (row * image_size qr params + col)) e3 in
      let (dy, _, dy_lt, e5) =
        any_elim params.scale 0
          (λ dy. any params.scale 0 (λ dx. row * image_size qr params + col == index y x dy dx))
          e4 in
      let (dx, _, dx_lt, e6) =
        any_elim params.scale 0 (λ dx. row * image_size qr params + col == index y x dy dx) e5 in
      let same = (==_iff (row * image_size qr params + col) (index y x dy dx)).0 e6 in
      let at_row : y * params.scale + dy + params.border ≡ row =
        sym (
          cell_div (y * params.scale + dy + params.border) (x * params.scale + dx + params.border)
            (image_size qr params)
            (pixel_lt qr params x dx (omega (arith, x_lt)) (omega (arith, dx_lt))))
        ∙ ap (λ z. z / image_size qr params) (sym same)
        ∙ cell_div row col (image_size qr params) k in
      let lines : (y * params.scale + dy + params.border) * image_size qr params
          ≡ row * image_size qr params =
        ap (λ z. z * image_size qr params) at_row in
      let at_col : x * params.scale + dx + params.border ≡ col = omega (arith, same, lines) in
      let (row_in, row_of) =
        pixel-module params.scale params.border row y dy (omega (arith, dy_lt)) at_row in
      let (col_in, col_of) =
        pixel-module params.scale params.border col x dx (omega (arith, dx_lt)) at_col in
      is_dark_intro qr params row col y x row_in col_in row_of col_of (omega (arith, y_lt))
        (omega (arith, x_lt)) dark
    where
      both : (p q : Bool) → p && q ≡ true → (p ≡ true) × (q ≡ true)
      both true q e = (refl, e)
      both false q e = cc

  is_dark-painted :
      (row col : ℕ)
      → 0 < params.scale
      → is_dark qr params row col ≡ true
      → image_painted (row * image_size qr params + col) ≡ true
  is_dark-painted row col s e =
      let (row_in, col_in, y_lt, x_lt, dark) = is_dark_elim qr params row col e in
      let y = (row - params.border) / params.scale in
      let x = (col - params.border) / params.scale in
      let dy = (row - params.border) % params.scale in
      let dx = (col - params.border) % params.scale in
      let at_row = module-pixel params.scale params.border row row_in in
      let at_col = module-pixel params.scale params.border col col_in in
      let here : row * image_size qr params + col ≡ index y x dy dx = rw (at_row, at_col) refl in
      any_intro qr.size 0 y
        (λ y.
          any qr.size 0
            (λ x. qr.get_module x y && module_painted y x (row * image_size qr params + col)))
        (omega arith) (omega (arith, y_lt))
        (any_intro qr.size 0 x
          (λ x. qr.get_module x y && module_painted y x (row * image_size qr params + col))
          (omega arith) (omega (arith, x_lt))
          (rw dark (
            any_intro params.scale 0 dy
              (λ dy. any params.scale 0 (λ dx. row * image_size qr params + col == index y x dy dx))
              (omega arith) (omega (arith, mod-lt (row - params.border) s))
              (any_intro params.scale 0 dx
                (λ dx. row * image_size qr params + col == index y x dy dx) (omega arith)
                (omega (arith, mod-lt (col - params.border) s))
                ((==_iff (row * image_size qr params + col) (index y x dy dx)).1 here)))))

  image_row-bitmap :
      (image : List ℕ) (row : ℕ)
      → 0 < params.scale
      → row < image_size qr params
      → length image ≡ image_size qr params * image_size qr params
      → ((k : ℕ)
          → get_elem? image k ≡ (
              if image_painted k
              then some black
              else get_elem? (replicate (image_size qr params * image_size qr params) 255) k))
      → image_row (image_size qr params) image row ≡ some (bitmap_row qr params row)
  unfolding image_row
  image_row-bitmap image row s h l g =
      let size = image_size qr params in
      let last : row * size + size ≤ size * size =
        omega (arith, mul-le-mul_right {m = suc row} {n = size} size (omega (arith, h))) in
      let fits : leb (row * size + size) (length image) ≡ true = ground (arith, last, l) in
      let dropped : size ≤ length (drop (row * size) image) =
        omega (arith, length-drop (row * size) image, last, l) in
      let pixels : List ℕ = take size (drop (row * size) image) in
      let long : length pixels ≡ size = length-take size (drop (row * size) image) dropped in
      rw fits (
        ap some (
          list_ext pixels (bitmap_row qr params row)
            (long
              ∙ sym (length-tabulate size 0 (λ col. if is_dark qr params row col then 0 else 255)))
            (λ col c.
              let col_lt : col < size = omega (arith, c, long) in
              get_elem?-take size col (drop (row * size) image) col_lt
              ∙ get_elem?-drop (row * size) col image
              ∙ g (row * size + col)
              ∙ bitmap_elem size col (image_painted (row * size + col)) (is_dark qr params row)
                  (get_elem? (replicate (size * size) 255) (row * size + col)) col_lt
                  (Bool_ext (image_painted (row * size + col)) (is_dark qr params row col)
                    (painted-is_dark row col h col_lt) (is_dark-painted row col s))
                  (get_elem?-replicate (size * size) (row * size + col) 255
                    (cell_lt row col size size h col_lt)))))

-- Where the scale is positive and the image is at most 46340 pixels wide, no size overflows an `int` and no
-- pixel is read or written outside its array; and the rows that `writePNG` tests pixel by pixel
-- and those that `encodeBase64Png` paints module by module are the rows of one bitmap.
pub png_rows-base64_rows :
    (qr : QrCode) (params : QrCodeParams)
    → 0 < params.scale
    → image_size qr params ≤ 46340
    → (png_rows qr params ≡ some (bitmap qr params))
      × (base64_rows qr params ≡ some (bitmap qr params))
unfolding png_rows base64_rows
png_rows-base64_rows qr params s small =
    let size = image_size qr params in
    let (image, e, l, g) = paint_image_lem qr params small in
    let (narrow, _) = image_size-fits qr params small in
    (
      rw narrow (
          for_each-tabulate size 0 (png_row qr params) (bitmap_row qr params) []
            (λ row a b. png_row-bitmap qr params row)),
      rw (e, base64_rows)
          (for_each-tabulate size 0 (image_row size image) (bitmap_row qr params) []
            (λ row a b. image_row-bitmap qr params image row s (omega (arith, b)) l g)),
    )
