-- ===== src/QrCode/Bitmap.antt =====
-- src/whz_qrcode_generator.hpp: the bitmap of a QR code, and the rows of `writePNG`.
use work_horz.Base.{
  ℕ, zero, suc, ◌+◌, ◌==◌, ◌≤◌, ◌<◌, Bool, true, false, ◌&&◌, List, [], ◌∷◌, ◌++◌, Option, none,
  some, if◌then◌else◌, replicate, length-replicate, get_elem?, ◌≡◌, refl, sym, ap, ◌∙◌, arith,
  Bool-cases, inl, inr, append_assoc, append-nil, ==_iff,
}
use work_horz.Base.Loop.{
  for_each, set_elem, tabulate, length-tabulate, get_elem?-tabulate, list_ext, any, any_intro,
  any_elim, Paints, nothing-Paints, set_elem-Paints, for_each-Paints,
}
use work_horz.QrCode.{QrCode, QrCodeParams, image_size, is_dark, png_row}

abbrev pub black : ℕ
black = 0

-- The bitmap: a pixel is black if it stands in the square of a dark module.
abbrev pub bitmap_row : QrCode → QrCodeParams → ℕ → List ℕ
bitmap_row qr params row =
    tabulate (image_size qr params) 0 (λ col. if is_dark qr params row col then 0 else 255)

abbrev pub bitmap : QrCode → QrCodeParams → List (List ℕ)
bitmap qr params = tabulate (image_size qr params) 0 (bitmap_row qr params)

pub get_elem?-replicate {ℓ} :
    {A : Type ℓ} (n k : ℕ) (a : A) → k < n → get_elem? (replicate n a) k ≡ some a
get_elem?-replicate zero k a h = absurd (omega (arith, h))
get_elem?-replicate (suc n) zero a h = refl
get_elem?-replicate (suc n) (suc k) a h = get_elem?-replicate n k a (omega (arith, h))

-- A loop that appends a value in each round makes the list of the values.
pub for_each-tabulate {ℓ} :
    {A : Type ℓ} (n start : ℕ) (make : ℕ → Option A) (value : ℕ → A) (done : List A)
    → ((i : ℕ) → start ≤ i → i < start + n → make i ≡ some (value i))
    → for_each n start
        (λ i rows. elim (make i) [ none ↦ none | some row ↦ some (rows ++ row ∷ []) ])
        done
      ≡ some (done ++ tabulate n start value)
for_each-tabulate zero start make value done h = ap some (sym (append-nil done))
for_each-tabulate (suc n) start make value done h =
    rw (h start (omega arith) (omega arith), for_each)
      (for_each-tabulate n (suc start) make value (done ++ value start ∷ [])
          (λ i a b. h i (omega (arith, a)) (omega (arith, b)))
        ∙ ap some (append_assoc done (value start ∷ []) (tabulate n (suc start) value)))

any-same : (n k : ℕ) (p : ℕ → Bool) → k < n → any n 0 (λ i. p i && k == i) ≡ p k
any-same n k p h = elim (Bool-cases (p k)) [
  | inl e ↦
      any_intro n 0 k (λ i. p i && k == i) (omega arith) (omega (arith, h)) (ground (arith, e))
      ∙ sym e
  | inr e ↦ elim (Bool-cases (any n 0 (λ i. p i && k == i))) [
    | inl found ↦
        let (i, a, b, f) = any_elim n 0 (λ i. p i && k == i) found in
        let same : k ≡ i = (==_iff k i).0 (ground (arith, f)) in cc
    | inr lost ↦ lost ∙ sym e
  ]
]

-- A pixel of a row that is painted as `dark` says, on white.
pub bitmap_elem :
    (size k : ℕ) (painted : Bool) (dark : ℕ → Bool) (was : Option ℕ)
    → k < size
    → painted ≡ dark k
    → was ≡ some 255
    → (if painted then some black else was)
      ≡ get_elem? (tabulate size 0 (λ col. if dark col then 0 else 255)) k
bitmap_elem size k painted dark was h e f =
    let at : 0 + k ≡ k = omega arith in
    ap (λ b. if b then some black else was) e
    ∙ ap (λ o. if dark k then some black else o) f
    ∙ pixel (dark k)
    ∙ ap (λ c. some (if dark c then 0 else 255)) (sym at)
    ∙ sym (get_elem?-tabulate size 0 (λ col. if dark col then 0 else 255) k h)
  where
    pixel : (b : Bool) → (if b then some black else some 255) ≡ some (if b then 0 else 255)
    pixel true = refl
    pixel false = refl

module _ (qr : QrCode) (params : QrCodeParams) where
  pub png_row-bitmap : (row : ℕ) → png_row qr params row ≡ some (bitmap_row qr params row)
  unfolding png_row
  png_row-bitmap row =
      let size = image_size qr params in
      let (ys, e, l, g) =
        for_each-Paints size black size 0 (λ col k. is_dark qr params row col && k == col)
          (λ col pixels. if is_dark qr params row col then set_elem col 0 pixels else some pixels)
          one (replicate size 255) (length-replicate size 255) in
      e
      ∙ ap some (
          list_ext ys (bitmap_row qr params row)
            (l ∙ sym (length-tabulate size 0 (λ col. if is_dark qr params row col then 0 else 255)))
            (λ k h.
              g k
              ∙ bitmap_elem size k (any size 0 (λ i. is_dark qr params row i && k == i))
                  (is_dark qr params row) (get_elem? (replicate size 255) k) (omega (arith, h, l))
                  (any-same size k (is_dark qr params row) (omega (arith, h, l)))
                  (get_elem?-replicate size k 255 (omega (arith, h, l)))))
    where
      one :
          (col : ℕ)
          → 0 ≤ col
          → col < 0 + image_size qr params
          → Paints
              (image_size qr params)
              black
              (λ k. is_dark qr params row col && k == col)
              (λ pixels. if is_dark qr params row col then set_elem col 0 pixels else some pixels)
      one col a b = elim (Bool-cases (is_dark qr params row col)) [
        | inl dark ↦ rw dark (set_elem-Paints (image_size qr params) black col (omega (arith, b)))
        | inr light ↦ rw light (nothing-Paints (image_size qr params) black some (λ xs. refl))
      ]
