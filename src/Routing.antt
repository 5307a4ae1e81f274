-- ===== src/Routing.antt =====
-- src/http_routing.cpp and .hpp: `http_routing`. The URL library is a parameter: `parse_path` is the
-- path of a URI, or `none` where it is none.
pub mod Found
mod Tests
use work_horz.Base.{
  ℕ, zero, suc, ◌+◌, ◌-◌, Bool, true, false, not, List, [], ◌∷◌, ◌++◌, Option, none, some, ◌==◌,
  leb, if◌then◌else◌, Bytes, is_empty, length, take, drop, bytes_eq, ◌&&◌,
}

-- The multimap, in some order of its entries.
pub record HttpRouting : Type 0 where
  pub basedomain : Bytes
  pub page_path_resources : List (Bytes × Bytes)

-- The constructor.
unfoldable pub make : Bytes → HttpRouting
make basedomain = record { basedomain = basedomain; page_path_resources = [] }

abbrev or_else : Option ℕ → Option ℕ → Option ℕ
or_else none other = other
or_else (some i) other = some i

-- `s.rfind(c, pos)` on the part of the string from position `i` on.
pub rfind_from : ℕ → Bytes → ℕ → ℕ → Option ℕ
rfind_from i [] c pos = none
rfind_from i (x ∷ s) c pos =
    or_else (rfind_from (suc i) s c pos) (if x == c && leb i pos then some i else none)

pub rfind : Bytes → ℕ → ℕ → Option ℕ
unfolding rfind_from
rfind s c pos = rfind_from 0 s c pos

-- `s.substr(pos, count)`, for a `pos` that is not behind the end.
pub substr : Bytes → ℕ → ℕ → Bytes
substr s pos count = take count (drop pos s)

pub insert : Bytes → Bytes → HttpRouting → HttpRouting
insert name path r = record r { page_path_resources = r.page_path_resources ++ (name, path) ∷ [] }

-- `addPathResource` on the path of the URI, with the value that it returns. The bound of the first
-- `rfind` is `npos`, for which the string's length serves. Where the second one
-- fails, `npos + 1` is 0.
pub add_path : Bytes → HttpRouting → Bool × HttpRouting
add_path s r = elim (rfind s b'/' (length s)) [
  | none ↦ (false, r)
  | some pos ↦
      if pos == length s - 1
      then elim (rfind s b'/' (length s - 1)) [
        | none ↦ (true, insert (substr s 0 pos) s r)
        | some spos ↦ (true, insert (substr s (suc spos) pos) s r)
      ]
      else (true, insert (substr s (suc pos) (length s)) s r)
]

pub add_path_resource : (Bytes → Option Bytes) → Bytes → HttpRouting → Bool × HttpRouting
add_path_resource parse_path path r = elim (parse_path path) [
  | none ↦ (false, r)
  | some s ↦ add_path s r
]

-- The loop of `findPath`: the entries with the name.
pub matching : Bytes → List (Bytes × Bytes) → List (Bytes × Bytes)
matching fpath [] = []
matching fpath ((name, path) ∷ rest) =
    let found = matching fpath rest in if bytes_eq name fpath then (name, path) ∷ found else found

pub find_path : Bytes → HttpRouting → Option (List (Bytes × Bytes))
unfolding matching
find_path fpath r =
    if not (is_empty fpath) then some (matching fpath r.page_path_resources) else none
