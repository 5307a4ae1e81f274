-- ===== src/Base/Split.antt =====
-- Splitting a text at a separator.
use work_horz.Base.Tests.{◌==◌, if◌then◌else◌}
use work_horz.Base.Lists.{Bytes, All}
use Prim.Native.Nat.{ℕ}
use mathlib.Core.Path.{◌≡◌, refl}
use mathlib.Core.Bool.{false}
use mathlib.Core.List.{List, [], ◌∷◌, ◌++◌}
use native.Mathlib.Omega.{arith}

abbrev pub Lacks : ℕ → Bytes → Type 0
Lacks c = All (λ x. (x == c) ≡ false)

on_head : ℕ → List Bytes → List Bytes
on_head x [] = (x ∷ []) ∷ []
on_head x (p ∷ ps) = (x ∷ p) ∷ ps

-- The pieces between the separators.
unfoldable pub split : ℕ → Bytes → List Bytes
unfolding on_head
split c [] = [] ∷ []
split c (x ∷ xs) = let pieces = split c xs in if x == c then [] ∷ pieces else on_head x pieces

pub split-append : (c : ℕ) (a rest : Bytes) → Lacks c a → split c (a ++ c ∷ rest) ≡ a ∷ split c rest
unfolding split on_head
split-append c [] rest h = ground arith
split-append c (x ∷ a) rest h = rw (h.0, split-append c a rest h.1)

pub split_one : (c : ℕ) (a : Bytes) → Lacks c a → split c a ≡ a ∷ []
unfolding split on_head
split_one c [] h = refl
split_one c (x ∷ a) h = rw (h.0, split_one c a h.1)
