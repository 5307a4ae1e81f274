-- ===== src/Base/Decimal.antt =====
-- std::to_string on an unsigned number, and its inverse.
use Prim.Native.Nat.{ℕ, zero, suc, ◌+◌, ◌-◌, ◌*◌, ◌/◌, ◌%◌, ◌≤◌, ◌<◌}
use mathlib.Core.List.{[], ◌∷◌}
use mathlib.Core.Logic.{inl, inr}
use mathlib.Core.Path.{◌≡◌, refl, ap, ◌∙◌}
use native.Mathlib.Omega.{arith}
use work_horz.Base.Lists.{Bytes, All}
use work_horz.Base.Tests.{ltb, if◌then◌else◌, Bool-cases}

-- The digits of `n` before `out`; the fuel is at least the number of digits.
decimal_onto : ℕ → ℕ → Bytes → Bytes
decimal_onto zero n out = out
decimal_onto (suc f) n out =
    let more = decimal_onto f (n / 10) ((b'0' + n % 10) ∷ out) in
    if ltb n 10 then (b'0' + n) ∷ out else more

unfoldable pub to_decimal : ℕ → Bytes
unfolding decimal_onto
to_decimal n = decimal_onto (suc n) n []

-- The number that a run of digits stands for, after `acc`.
unfoldable pub of_decimal : ℕ → Bytes → ℕ
of_decimal acc [] = acc
of_decimal acc (c ∷ cs) = of_decimal (acc * 10 + (c - b'0')) cs

abbrev pub IsDigit : ℕ → Type 0
IsDigit c = (b'0' ≤ c) × (c ≤ b'9')

decimal_onto-IsDigit :
    (f n : ℕ) (out : Bytes) → All IsDigit out → All IsDigit (decimal_onto f n out)
unfolding decimal_onto
decimal_onto-IsDigit zero n out h = h
decimal_onto-IsDigit (suc f) n out h =
    ground (arith, decimal_onto-IsDigit f (n / 10) ((b'0' + n % 10) ∷ out))

pub to_decimal-IsDigit : (n : ℕ) → All IsDigit (to_decimal n)
unfolding to_decimal
to_decimal-IsDigit n = decimal_onto-IsDigit (suc n) n [] tt

-- Reading back one digit that was split off.
split_digit : (n : ℕ) → n / 10 * 10 + (b'0' + n % 10 - b'0') ≡ n
split_digit n = omega arith

one_digit : (n : ℕ) → 0 * 10 + (b'0' + n - b'0') ≡ n
one_digit n = omega arith

decimal_onto_lem :
    (f n : ℕ) (out : Bytes) → n < f → of_decimal 0 (decimal_onto f n out) ≡ of_decimal n out
unfolding decimal_onto of_decimal
decimal_onto_lem zero n out h = elim h [ ]
decimal_onto_lem (suc f) n out h = elim (Bool-cases (ltb n 10)) [
  | inl small ↦ rw small (ap (λ k. of_decimal k out) (one_digit n))
  | inr big ↦ rw big (
      decimal_onto_lem f (n / 10) ((b'0' + n % 10) ∷ out) (ground arith)
      ∙ ap (λ k. of_decimal k out) (split_digit n))
]

-- Reading the digits of a number gives the number.
pub of_decimal-to_decimal : (n : ℕ) → of_decimal 0 (to_decimal n) ≡ n
unfolding to_decimal of_decimal
of_decimal-to_decimal n = decimal_onto_lem (suc n) n [] (omega arith)

decimal_onto-cons :
    (f n c : ℕ) (out : Bytes) → (d : ℕ) × (ds : Bytes) × (decimal_onto f n (c ∷ out) ≡ d ∷ ds)
unfolding decimal_onto
decimal_onto-cons zero n c out = (c, out, refl)
decimal_onto-cons (suc f) n c out = elim (Bool-cases (ltb n 10)) [
  | inl small ↦ (b'0' + n, c ∷ out, rw small)
  | inr big ↦
      let (d, ds, e) = decimal_onto-cons f (n / 10) (b'0' + n % 10) (c ∷ out) in (d, ds, rw big e)
]

-- A number has at least one digit.
pub to_decimal-cons : (n : ℕ) → (d : ℕ) × (ds : Bytes) × (to_decimal n ≡ d ∷ ds)
unfolding to_decimal decimal_onto
to_decimal-cons n = elim (Bool-cases (ltb n 10)) [
  | inl small ↦ (b'0' + n, [], rw (small, decimal_onto))
  | inr big ↦
      let (d, ds, e) = decimal_onto-cons n (n / 10) (b'0' + n % 10) [] in
      (d, ds, rw (big, decimal_onto) e)
]
