-- ===== src/Base/Loop.antt =====
-- Counting loops over a mutable array, and the list of the values of a counter.
use Prim.Native.Nat.{ℕ, zero, suc, ◌+◌, ◌≤◌, ◌<◌}
use mathlib.Core.Path.{◌≡◌, refl, ap, ◌∙◌}
use mathlib.Core.Logic.{inl, inr}
use mathlib.Core.Bool.{Bool, true, false, ◌||◌}
use mathlib.Core.Option.{Option, none, some}
use mathlib.Core.Option
use mathlib.Core.List.{List, [], ◌∷◌}
use native.Mathlib.Omega.{arith}
use work_horz.Base.Tests.{◌==◌, if◌then◌else◌, Bool-cases, ==_iff}
use work_horz.Base.Lists.{length, get_elem?, take, drop}

module _ {ℓ} {A : Type ℓ} where
  -- `for (i = start; i < start + n; i++) body(i)`; `none` is undefined behaviour.
  abbrev pub for_each : ℕ → ℕ → (ℕ → A → Option A) → A → Option A
  for_each zero start body a = some a
  for_each (suc n) start body a = elim (body start a) [
    | none ↦ none
    | some b ↦ for_each n (suc start) body b
  ]

  -- `a[i] = v`.
  abbrev pub set_elem : ℕ → A → List A → Option (List A)
  set_elem i v [] = none
  set_elem zero v (x ∷ xs) = some (v ∷ xs)
  set_elem (suc i) v (x ∷ xs) = Option.map (◌∷◌ x) (set_elem i v xs)

  abbrev pub tabulate : ℕ → ℕ → (ℕ → A) → List A
  tabulate zero start f = []
  tabulate (suc n) start f = f start ∷ tabulate n (suc start) f

  pub length-tabulate : (n start : ℕ) (f : ℕ → A) → length (tabulate n start f) ≡ n
  length-tabulate zero start f = refl
  length-tabulate (suc n) start f = ap suc (length-tabulate n (suc start) f)

  pub get_elem?-tabulate :
      (n start : ℕ) (f : ℕ → A) (k : ℕ)
      → k < n
      → get_elem? (tabulate n start f) k ≡ some (f (start + k))
  get_elem?-tabulate zero start f k h = absurd (omega (arith, h))
  get_elem?-tabulate (suc n) start f zero h =
      let e : start ≡ start + 0 = omega arith in ap (λ i. some (f i)) e
  get_elem?-tabulate (suc n) start f (suc k) h =
      let e : suc start + k ≡ start + suc k = omega arith in
      get_elem?-tabulate n (suc start) f k (omega (arith, h)) ∙ ap (λ i. some (f i)) e

  -- Two lists of one length with the same elements are equal.
  pub list_ext :
      (xs ys : List A)
      → length xs ≡ length ys
      → ((k : ℕ) → k < length xs → get_elem? xs k ≡ get_elem? ys k)
      → xs ≡ ys
  list_ext [] [] e h = refl
  list_ext [] (y ∷ ys) e h = absurd (omega (arith, e))
  list_ext (x ∷ xs) [] e h = absurd (omega (arith, e))
  list_ext (x ∷ xs) (y ∷ ys) e h =
      let front : some x ≡ some y = h 0 (omega arith) in
      let rest = list_ext xs ys (omega (arith, e)) (λ k l. h (suc k) (omega (arith, l))) in cc

  at_zero :
      (v x : A) (xs : List A) (k : ℕ)
      → get_elem? (v ∷ xs) k ≡ (if k == 0 then some v else get_elem? (x ∷ xs) k)
  at_zero v x xs zero = refl
  at_zero v x xs (suc k) = ground arith

  at_suc :
      (i : ℕ) (v x : A) (xs ys : List A)
      → ((k : ℕ) → get_elem? ys k ≡ (if k == i then some v else get_elem? xs k))
      → (k : ℕ) → get_elem? (x ∷ ys) k ≡ (if k == suc i then some v else get_elem? (x ∷ xs) k)
  at_suc i v x xs ys g zero = ground arith
  at_suc i v x xs ys g (suc k) = ground (arith, g k)

  pub set_elem_lem :
      (i : ℕ) (v : A) (xs : List A)
      → i < length xs
      → (ys : List A) × (set_elem i v xs ≡ some ys)
        × (length ys ≡ length xs)
        × ((k : ℕ) → get_elem? ys k ≡ (if k == i then some v else get_elem? xs k))
  set_elem_lem i v [] h = absurd (omega (arith, h))
  set_elem_lem zero v (x ∷ xs) h = (v ∷ xs, refl, refl, at_zero v x xs)
  set_elem_lem (suc i) v (x ∷ xs) h =
      let (ys, e, l, g) = set_elem_lem i v xs (omega (arith, h)) in
      (x ∷ ys, rw e, ap suc l, at_suc i v x xs ys g)

  pub length-take : (n : ℕ) (xs : List A) → n ≤ length xs → length (take n xs) ≡ n
  length-take zero xs h = refl
  length-take (suc n) [] h = absurd (omega (arith, h))
  length-take (suc n) (x ∷ xs) h = ap suc (length-take n xs (omega (arith, h)))

  pub get_elem?-take : (n k : ℕ) (xs : List A) → k < n → get_elem? (take n xs) k ≡ get_elem? xs k
  get_elem?-take zero k xs h = absurd (omega (arith, h))
  get_elem?-take (suc n) k [] h = refl
  get_elem?-take (suc n) zero (x ∷ xs) h = refl
  get_elem?-take (suc n) (suc k) (x ∷ xs) h = get_elem?-take n k xs (omega (arith, h))

  pub get_elem?-drop : (n k : ℕ) (xs : List A) → get_elem? (drop n xs) k ≡ get_elem? xs (n + k)
  get_elem?-drop zero k xs = let e : k ≡ 0 + k = omega arith in ap (get_elem? xs) e
  get_elem?-drop (suc n) k [] = refl
  get_elem?-drop (suc n) k (x ∷ xs) =
      let e : suc (n + k) ≡ suc n + k = omega arith in
      get_elem?-drop n k xs ∙ ap (get_elem? (x ∷ xs)) e

-- Some value of the counter passes the test.
abbrev pub any : ℕ → ℕ → (ℕ → Bool) → Bool
any zero start p = false
any (suc n) start p = p start || any n (suc start) p

pub any_intro :
    (n start i : ℕ) (p : ℕ → Bool) → start ≤ i → i < start + n → p i ≡ true → any n start p ≡ true
any_intro zero start i p l h e = absurd (omega (arith, l, h))
any_intro (suc n) start i p l h e = elim (Bool-cases (start == i)) [
  | inl same ↦ let here : start ≡ i = (==_iff start i).0 same in rw (here, e)
  | inr other ↦ elim (Bool-cases (p start)) [
    | inl first ↦ rw first
    | inr later ↦ rw later (any_intro n (suc start) i p (ground (arith, l)) (omega (arith, h)) e)
  ]
]

pub any_elim :
    (n start : ℕ) (p : ℕ → Bool)
    → any n start p ≡ true
    → (i : ℕ) × (start ≤ i) × (i < start + n) × (p i ≡ true)
any_elim zero start p h = cc
any_elim (suc n) start p h = elim (Bool-cases (p start)) [
  | inl here ↦ (start, omega arith, omega arith, here)
  | inr later ↦
      let (i, l, u, e) = any_elim n (suc start) p (rw later at h) in
      (i, omega (arith, l), omega (arith, u), e)
]

-- Running `body` on any array of length `size` succeeds, sets the elements that `painted` says to `v`,
-- and leaves the others.
abbrev pub Paints {ℓ} : {A : Type ℓ} → ℕ → A → (ℕ → Bool) → (List A → Option (List A)) → Type ℓ
Paints {A} size v painted body =
    (xs : List A)
    → length xs ≡ size
    → (ys : List A) × (body xs ≡ some ys)
      × (length ys ≡ size)
      × ((k : ℕ) → get_elem? ys k ≡ (if painted k then some v else get_elem? xs k))

module _ {ℓ} {A : Type ℓ} (size : ℕ) (v : A) where
  pub nothing-Paints :
      (body : List A → Option (List A))
      → ((xs : List A) → body xs ≡ some xs)
      → Paints size v (λ k. false) body
  nothing-Paints body h xs l = (xs, h xs, l, λ k. refl)

  pub set_elem-Paints : (i : ℕ) → i < size → Paints size v (λ k. k == i) (set_elem i v)
  set_elem-Paints i h xs l =
      let (ys, e, m, g) = set_elem_lem i v xs (omega (arith, h, l)) in (ys, e, m ∙ l, g)

  -- A loop paints what some round of it paints.
  pub for_each-Paints :
      (n start : ℕ) (painted : ℕ → ℕ → Bool) (body : ℕ → List A → Option (List A))
      → ((i : ℕ) → start ≤ i → i < start + n → Paints size v (painted i) (body i))
      → Paints size v (λ k. any n start (λ i. painted i k)) (for_each n start body)
  for_each-Paints zero start painted body h xs l = (xs, refl, l, λ k. refl)
  for_each-Paints (suc n) start painted body h xs l =
      let (ys, e, m, g) = h start (omega arith) (omega arith) xs l in
      let (zs, f, o, k) =
        for_each-Paints n (suc start) painted body
          (λ i a b. h i (omega (arith, a)) (omega (arith, b))) ys m in
      (
        zs,
        rw (e, for_each) f,
        o,
        λ j.
            both (get_elem? xs j) (get_elem? ys j) (get_elem? zs j) (painted start j)
              (any n (suc start) (λ i. painted i j)) (g j) (k j),
      )
    where
      both :
          (x y z : Option A) (p q : Bool)
          → y ≡ (if p then some v else x)
          → z ≡ (if q then some v else y)
          → z ≡ (if p || q then some v else x)
      both x y z true true e f = f
      both x y z true false e f = f ∙ e
      both x y z false true e f = f
      both x y z false false e f = f ∙ e
