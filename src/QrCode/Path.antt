-- ===== src/QrCode/Path.antt =====
-- src/whz_qrcode_generator.hpp: the path data of `writeSVG`.
use work_horz.Base.{
  ℕ, zero, suc, ◌+◌, ◌-◌, ◌==◌, ◌<◌, Bool, true, false, not, ◌||◌, List, [], ◌∷◌, ◌++◌,
  if◌then◌else◌, Bytes, codes, ◌≡◌, refl, sym, ap, ◌∙◌, arith, append_assoc, append-nil,
}
use work_horz.Base.Decimal.{to_decimal}
use work_horz.QrCode.{QrCode, QrCodeParams, path_module, path_row, path_rows}

-- The square of a module, and the squares of the dark modules, row by row.
abbrev square : QrCodeParams → ℕ → ℕ → Bytes
square params y x =
    codes "M"
    ++ (to_decimal (x + params.border)
        ++ (codes "," ++ (to_decimal (y + params.border) ++ codes "h1v1h-1z")))

abbrev row_squares : QrCode → QrCodeParams → ℕ → ℕ → ℕ → List Bytes
row_squares qr params y zero x = []
row_squares qr params y (suc n) x =
    let rest = row_squares qr params y n (suc x) in
    if qr.get_module x y then square params y x ∷ rest else rest

abbrev pub squares : QrCode → QrCodeParams → ℕ → ℕ → List Bytes
squares qr params zero y = []
squares qr params (suc n) y = row_squares qr params y qr.size 0 ++ squares qr params n (suc y)

-- The texts with a space between each two.
abbrev pub joined : List Bytes → Bytes
joined [] = []
joined (s ∷ []) = s
joined (s ∷ t ∷ rest) = s ++ (codes " " ++ joined (t ∷ rest))

spaced : List Bytes → Bytes
spaced [] = []
spaced (s ∷ rest) = codes " " ++ (s ++ spaced rest)

joined-spaced : (s : Bytes) (rest : List Bytes) → joined (s ∷ rest) ≡ s ++ spaced rest
unfolding spaced
joined-spaced s [] = sym (append-nil s)
joined-spaced s (t ∷ rest) = ap (λ z. s ++ (codes " " ++ z)) (joined-spaced t rest)

spaced-append : (xs ys : List Bytes) → spaced (xs ++ ys) ≡ spaced xs ++ spaced ys
unfolding spaced
spaced-append [] ys = refl
spaced-append (x ∷ xs) ys =
    ap (λ z. codes " " ++ (x ++ z)) (spaced-append xs ys)
    ∙ ap (λ z. codes " " ++ z) (sym (append_assoc x (spaced xs) (spaced ys)))

module _ (qr : QrCode) (params : QrCodeParams) where
  -- A module that is not the first one.
  path_module_later :
      (y x : ℕ) (file : Bytes)
      → 0 < x + y
      → path_module qr params y x file
        ≡ (if qr.get_module x y then file ++ spaced (square params y x ∷ []) else file)
  unfolding path_module spaced
  path_module_later y x file h =
      let behind : not (x == 0) || not (y == 0) ≡ true = ground (arith, h) in
      rw (behind, path_module) (write (qr.get_module x y))
    where
      write :
          (dark : Bool)
          → (if dark then (file ++ codes " ") ++ square params y x else file)
            ≡ (if dark then file ++ spaced (square params y x ∷ []) else file)
      write true =
          append_assoc file (codes " ") (square params y x)
          ∙ ap (λ z. file ++ (codes " " ++ z)) (sym (append-nil (square params y x)))
      write false = refl

  path_row-spaced :
      (y n x : ℕ) (file : Bytes)
      → 0 < x + y
      → path_row qr params y n x file ≡ file ++ spaced (row_squares qr params y n x)
  unfolding path_row spaced
  path_row-spaced y zero x file h = sym (append-nil file)
  path_row-spaced y (suc n) x file h =
      path_row-spaced y n (suc x) (path_module qr params y x file) (omega (arith, h))
      ∙ ap (λ z. z ++ spaced (row_squares qr params y n (suc x))) (path_module_later y x file h)
      ∙ step (qr.get_module x y) (square params y x) (row_squares qr params y n (suc x))
    where
      step :
          (dark : Bool) (s : Bytes) (rest : List Bytes)
          → (if dark then file ++ spaced (s ∷ []) else file) ++ spaced rest
            ≡ file ++ spaced (if dark then s ∷ rest else rest)
      step true s rest =
          append_assoc file (spaced (s ∷ [])) (spaced rest)
          ∙ ap (λ z. file ++ z) (sym (spaced-append (s ∷ []) rest))
      step false s rest = refl

  path_rows-spaced :
      (n y : ℕ) (file : Bytes)
      → 0 < y
      → path_rows qr params n y file ≡ file ++ spaced (squares qr params n y)
  unfolding path_rows spaced
  path_rows-spaced zero y file h = sym (append-nil file)
  path_rows-spaced (suc n) y file h =
      path_rows-spaced n (suc y) (path_row qr params y qr.size 0 file) (omega arith)
      ∙ ap (λ z. z ++ spaced (squares qr params n (suc y)))
          (path_row-spaced y qr.size 0 file (omega (arith, h)))
      ∙ append_assoc file (spaced (row_squares qr params y qr.size 0))
          (spaced (squares qr params n (suc y)))
      ∙ ap (λ z. file ++ z)
          (sym (spaced-append (row_squares qr params y qr.size 0) (squares qr params n (suc y))))

  path_row-first :
      (n : ℕ) (file : Bytes)
      → qr.get_module 0 0 ≡ true
      → path_row qr params 0 (suc n) 0 file
        ≡ file ++ (square params 0 0 ++ spaced (row_squares qr params 0 n 1))
  unfolding path_row path_module
  path_row-first n file dark = rw dark (
      path_row-spaced 0 n 1 (file ++ square params 0 0) (omega arith)
      ∙ append_assoc file (square params 0 0) (spaced (row_squares qr params 0 n 1)))

  path_rows-first :
      (n m : ℕ) (file : Bytes)
      → qr.size ≡ suc m
      → qr.get_module 0 0 ≡ true
      → path_rows qr params (suc n) 0 file ≡ file ++ joined (squares qr params (suc n) 0)
  unfolding path_rows
  path_rows-first n m file e dark =
      let row = row_squares qr params 0 m 1 in
      let below = squares qr params n 1 in
      let all : squares qr params (suc n) 0 ≡ square params 0 0 ∷ row ++ below =
        ap (λ z. row_squares qr params 0 z 0 ++ below) e ∙ rw dark refl in
      path_rows-spaced n 1 (path_row qr params 0 qr.size 0 file) (omega arith)
      ∙ ap (λ z. z ++ spaced below)
          (ap (λ z. path_row qr params 0 z 0 file) e ∙ path_row-first m file dark)
      ∙ append_assoc file (square params 0 0 ++ spaced row) (spaced below)
      ∙ ap (λ z. file ++ z)
          (append_assoc (square params 0 0) (spaced row) (spaced below)
            ∙ ap (λ z. square params 0 0 ++ z) (sym (spaced-append row below))
            ∙ sym (joined-spaced (square params 0 0) (row ++ below))
            ∙ ap joined (sym all))

-- Where the module at (0, 0) is dark, as the finder pattern of a QR code makes it, the path data that is
-- written behind `file` is the squares of the dark modules, row by row, with one space between each two.
path_rows-joined :
    (qr : QrCode) (params : QrCodeParams) (file : Bytes)
    → 0 < qr.size
    → qr.get_module 0 0 ≡ true
    → path_rows qr params qr.size 0 file ≡ file ++ joined (squares qr params qr.size 0)
path_rows-joined qr params file h dark =
    let last : qr.size ≡ suc (qr.size - 1) = omega (arith, h) in
    ap (λ z. path_rows qr params z 0 file) last
    ∙ path_rows-first qr params (qr.size - 1) (qr.size - 1) file last dark
    ∙ ap (λ z. file ++ joined (squares qr params z 0)) (sym last)
