-- ===== src/QrCode/Pixels.antt =====
-- src/whz_qrcode_generator.hpp: which module of a QR code a pixel shows.
use native.Mathlib.Nat.{mul-add-div_right, div-eq_of_lt, div-add-mod', mul-le-mul_right}
use work_horz.Base.{
  ℕ, suc, ◌+◌, ◌-◌, ◌*◌, ◌/◌, ◌%◌, ◌≤◌, ◌<◌, Bool, true, ◌&&◌, leb, ltb, ◌≡◌, ap, ◌∙◌, arith,
  Bool-cases, inl, inr,
}
use work_horz.QrCode.{QrCode, QrCodeParams, image_size, is_dark}

-- Cell `b` of line `a`, in lines of `w` cells.
pub cell_lt : (a b w n : ℕ) → a < n → b < w → a * w + b < n * w
cell_lt a b w n h k = omega (arith, mul-le-mul_right {m = suc a} {n = n} w (omega (arith, h)))

pub cell_div : (a b w : ℕ) → b < w → (a * w + b) / w ≡ a
cell_div a b w h =
    mul-add-div_right {m = w} (omega (arith, h)) a b
    ∙ ap (λ z. a + z) (div-eq_of_lt h)
    ∙ (omega arith)

pub Bool_ext : (p q : Bool) → (p ≡ true → q ≡ true) → (q ≡ true → p ≡ true) → p ≡ q
Bool_ext p q f g = elim (Bool-cases p) [
  | inl yes_p ↦ let yes_q = f yes_p in cc
  | inr no_p ↦ elim (Bool-cases q) [ inl yes_q ↦ let again = g yes_q in cc | inr no_q ↦ cc ]
]

-- The pixel of cell `d` of module `n`, and the module and the cell of a pixel.
pub pixel-module : (s b p n d : ℕ) → d < s → n * s + d + b ≡ p → (b ≤ p) × ((p - b) / s ≡ n)
pixel-module s b p n d h e =
    let at : p - b ≡ n * s + d = omega (arith, e) in
    (omega (arith, e), ap (λ z. z / s) at ∙ cell_div n d s h)

pub module-pixel : (s b p : ℕ) → b ≤ p → (p - b) / s * s + (p - b) % s + b ≡ p
module-pixel s b p h = let whole = div-add-mod' (p - b) s in omega (arith, whole, h)

tests :
    (b r q c p n : ℕ) (module_is_dark : Bool)
    → b ≤ r
    → q < n
    → b ≤ c
    → p < n
    → module_is_dark ≡ true
    → leb b r && (ltb q n && (leb b c && (ltb p n && module_is_dark))) ≡ true
tests b r q c p n module_is_dark h i j k l = ground (arith, h, i, j, k, l)

passed :
    (b r q c p n : ℕ) (module_is_dark : Bool)
    → leb b r && (ltb q n && (leb b c && (ltb p n && module_is_dark))) ≡ true
    → (b ≤ r) × (b ≤ c) × (q < n) × (p < n) × (module_is_dark ≡ true)
passed b r q c p n module_is_dark h =
    (ground (arith, h), ground (arith, h), ground (arith, h), ground (arith, h), ground (arith, h))

module _ (qr : QrCode) (params : QrCodeParams) where
  -- A pixel of a module stands in the image.
  pub pixel_lt :
      (y dy : ℕ)
      → y < qr.size
      → dy < params.scale
      → y * params.scale + dy + params.border < image_size qr params
  unfolding image_size
  pixel_lt y dy h k = omega (arith, cell_lt y dy params.scale qr.size h k)

  pub is_dark_intro :
      (row col y x : ℕ)
      → params.border ≤ row
      → params.border ≤ col
      → (row - params.border) / params.scale ≡ y
      → (col - params.border) / params.scale ≡ x
      → y < qr.size
      → x < qr.size
      → qr.get_module x y ≡ true
      → is_dark qr params row col ≡ true
  unfolding is_dark
  is_dark_intro row col y x a b c d h k e =
      rw (c, d) (tests params.border row y col x qr.size (qr.get_module x y) a h b k e)

  pub is_dark_elim :
      (row col : ℕ)
      → is_dark qr params row col ≡ true
      → (params.border ≤ row)
        × (params.border ≤ col)
        × ((row - params.border) / params.scale < qr.size)
        × ((col - params.border) / params.scale < qr.size)
        × (qr.get_module
              ((col - params.border) / params.scale)
              ((row - params.border) / params.scale)
            ≡ true)
  unfolding is_dark
  is_dark_elim row col e =
      passed params.border row ((row - params.border) / params.scale) col
        ((col - params.border) / params.scale) qr.size
        (qr.get_module ((col - params.border) / params.scale)
          ((row - params.border) / params.scale))
        e
