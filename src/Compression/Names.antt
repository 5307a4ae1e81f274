-- ===== src/Compression/Names.antt =====
-- src/whz_datacompression.hpp: the names of entries, and the paths that they lead to.
use work_horz.Base.{
  ℕ, suc, ◌==◌, [], ◌∷◌, Option, none, some, Bytes, drop, ◌≡◌, ◌≢◌, refl, Bool-cases, Option-cases,
  inl, inr,
}
use work_horz.Base.Split.{Lacks}
use work_horz.Encryption.{find_last_of}
use work_horz.Compression.Paths.{filename}

none_found : {o : Option ℕ} {n : ℕ} → o ≡ none → o ≢ some n
none_found h k = cc

some_lem : {o : Option ℕ} {m n : ℕ} → o ≡ some m → o ≡ some n → n ≡ m
some_lem h k = cc

find_last_of-none : (c : ℕ) (s : Bytes) → find_last_of c s ≡ none → Lacks c s
unfolding find_last_of
find_last_of-none c [] h = tt
find_last_of-none c (x ∷ s) h = elim (Option-cases (find_last_of c s)) [
  | inl rest ↦ elim (Bool-cases (x == c)) [
    | inl here ↦
        let found : find_last_of c (x ∷ s) ≡ some 0 = rw (rest, find_last_of) (rw here refl) in
        absurd (none_found h found)
    | inr apart ↦ (apart, find_last_of-none c s rest)
  ]
  | inr (n, later) ↦
      let found : find_last_of c (x ∷ s) ≡ some (suc n) = rw (later, find_last_of) refl in
      absurd (none_found h found)
]

find_last_of-some : (c n : ℕ) (s : Bytes) → find_last_of c s ≡ some n → Lacks c (drop (suc n) s)
unfolding find_last_of
find_last_of-some c n [] h = tt
find_last_of-some c n (x ∷ s) h = elim (Option-cases (find_last_of c s)) [
  | inl rest ↦ elim (Bool-cases (x == c)) [
    | inl here ↦
        let found : find_last_of c (x ∷ s) ≡ some 0 = rw (rest, find_last_of) (rw here refl) in
        let first : n ≡ 0 = some_lem found h in rw first (find_last_of-none c s rest)
    | inr apart ↦
        let found : find_last_of c (x ∷ s) ≡ none = rw (rest, find_last_of) (rw apart refl) in
        absurd (none_found found h)
  ]
  | inr (m, later) ↦
      let found : find_last_of c (x ∷ s) ≡ some (suc m) = rw (later, find_last_of) refl in
      let next : n ≡ suc m = some_lem found h in rw next (find_last_of-some c m s later)
]

pub filename-Lacks : (path : Bytes) → Lacks b'/' (filename path)
unfolding filename
filename-Lacks path = elim (Option-cases (find_last_of b'/' path)) [
  | inl lacking ↦ rw (lacking, filename) (find_last_of-none b'/' path lacking)
  | inr (n, found) ↦ rw (found, filename) (find_last_of-some b'/' n path found)
]
