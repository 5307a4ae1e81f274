-- ===== src/Compression/Paths.antt =====
-- std::filesystem::path as src/whz_datacompression.hpp uses it: names without `//` and without a root
-- name.
use work_horz.Base.{
  suc, ◌==◌, Bool, false, ◌||◌, [], ◌∷◌, ◌++◌, none, some, if◌then◌else◌, Bytes, codes, bytes_eq,
  take, drop, starts_with, is_empty,
}
use work_horz.Encryption.{find_last_of}

infixr 30 ◌\◌
unfoldable pub ends_slash : Bytes → Bool
ends_slash [] = false
ends_slash (c ∷ []) = c == b'/'
ends_slash (c ∷ d ∷ s) = ends_slash (d ∷ s)

-- `p / q`.
unfoldable pub ◌\◌ : Bytes → Bytes → Bytes
unfolding ends_slash
p \ q =
    if starts_with q (codes "/") || is_empty p
    then q
    else if ends_slash p
    then p ++ q
    else p ++ b'/' ∷ q

-- The part before the last slash, and the slash itself where it is the first character.
unfoldable pub parent_path : Bytes → Bytes
parent_path path = elim (find_last_of b'/' path) [
  | none ↦ []
  | some n ↦ if n == 0 then codes "/" else take n path
]

unfoldable pub filename : Bytes → Bytes
filename path = elim (find_last_of b'/' path) [ none ↦ path | some n ↦ drop (suc n) path ]

-- From the last dot on, unless that is the first character of the filename.
unfoldable pub extension : Bytes → Bytes
unfolding filename
extension path = elim (find_last_of b'.' (filename path)) [
  | none ↦ []
  | some n ↦ if n == 0 || bytes_eq (filename path) (codes "..") then [] else drop n (filename path)
]
