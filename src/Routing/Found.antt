-- ===== src/Routing/Found.antt =====
-- src/http_routing.cpp: what `findPath` finds of what `addPathResource` has added.
use work_horz.Base.{
  ℕ, zero, suc, ◌+◌, ◌-◌, ◌≤◌, true, false, List, [], ◌∷◌, ◌++◌, Option, none, some, ◌==◌,
  if◌then◌else◌, Bytes, length, take, drop, bytes_eq, length-append, append-nil, ◌≡◌, ◌≢◌, refl, ap,
  ◌∙◌, arith,
}
use work_horz.Base.Split.{Lacks}
use work_horz.Routing.{
  HttpRouting, rfind_from, rfind, substr, insert, add_path, add_path_resource, matching, find_path,
}

rfind_none : (i : ℕ) (s : Bytes) (c pos : ℕ) → Lacks c s → rfind_from i s c pos ≡ none
unfolding rfind_from
rfind_none i [] c pos h = refl
rfind_none i (x ∷ s) c pos h = rw (rfind_none (suc i) s c pos h.1, h.0)

-- The last occurrence is found.
rfind_last :
    (i : ℕ) (a b : Bytes) (c pos : ℕ)
    → Lacks c b
    → i + length a ≤ pos
    → rfind_from i (a ++ c ∷ b) c pos ≡ some (i + length a)
unfolding rfind_from
rfind_last i [] b c pos h l = rw (rfind_none (suc i) b c pos h) (ground arith)
rfind_last i (x ∷ a) b c pos h l =
    rw (rfind_last (suc i) a b c pos h (omega (arith, l))) (ap some (omega arith))

drop-append : (a b : Bytes) (c : ℕ) → drop (suc (length a)) (a ++ c ∷ b) ≡ b
drop-append [] b c = refl
drop-append (x ∷ a) b c = drop-append a b c

take_all : (n : ℕ) (s : Bytes) → length s ≤ n → take n s ≡ s
take_all zero [] h = refl
take_all zero (x ∷ s) h = absurd (omega (arith, h))
take_all (suc n) [] h = refl
take_all (suc n) (x ∷ s) h = ap (◌∷◌ x) (take_all n s (omega (arith, h)))

matching-append :
    (f : Bytes) (xs ys : List (Bytes × Bytes))
    → matching f (xs ++ ys) ≡ matching f xs ++ matching f ys
unfolding matching
matching-append f [] ys = refl
matching-append f ((name, path) ∷ xs) ys = ground (arith, matching-append f xs ys)

-- What the table finds under a name behind an insertion under another one, and under the same.
find_path-insert :
    (f name path : Bytes) (r : HttpRouting)
    → f ≢ []
    → find_path f (insert name path r)
      ≡ some
          (matching f r.page_path_resources ++ (if bytes_eq name f then (name, path) ∷ [] else []))
unfolding find_path insert matching
find_path-insert [] name path r h = absurd (h refl)
find_path-insert (c ∷ f) name path r h =
    ap some (matching-append (c ∷ f) r.page_path_resources ((name, path) ∷ []))

substr_behind :
    (dir name : Bytes) (c n k : ℕ)
    → n ≡ length dir
    → length name ≤ k
    → substr (dir ++ c ∷ name) (suc n) k ≡ name
unfolding substr
substr_behind dir name c n k e l =
    ap (λ m. take k (drop (suc m) (dir ++ c ∷ name))) e
    ∙ ap (take k) (drop-append dir name c)
    ∙ take_all k name l

-- Where `name` stands behind the last slash, `addPathResource` inserts the path under `name`.
add_file :
    (dir name : Bytes) (r : HttpRouting)
    → Lacks b'/' name
    → name ≢ []
    → add_path (dir ++ b'/' ∷ name) r ≡ (true, insert name (dir ++ b'/' ∷ name) r)
unfolding add_path rfind substr
add_file dir [] r h ne = absurd (ne refl)
add_file dir (c ∷ name) r h ne =
    let s : Bytes = dir ++ b'/' ∷ c ∷ name in
    let long : length s ≡ suc (suc (length dir + length name)) =
      omega (arith, length-append dir (b'/' ∷ c ∷ name)) in
    let last : rfind_from 0 s b'/' (length s) ≡ some (0 + length dir) =
      rfind_last 0 dir (c ∷ name) b'/' (length s) h (omega (arith, long)) in
    let apart : (0 + length dir == length s - 1) ≡ false = ground (arith, long) in
    rw (last, add_path)
      (rw apart (
        ap (λ z. (true, insert z s r))
          (substr_behind dir (c ∷ name) b'/' (0 + length dir) (length s) (omega arith)
            (omega (arith, long)))))

-- A path that ends with a slash is inserted under the empty name.
add_page :
    (dir : Bytes) (r : HttpRouting)
    → add_path (dir ++ b'/' ∷ []) r ≡ (true, insert [] (dir ++ b'/' ∷ []) r)
unfolding add_path rfind substr
add_page dir r =
    let s : Bytes = dir ++ b'/' ∷ [] in
    let long : length s ≡ suc (length dir) = omega (arith, length-append dir (b'/' ∷ [])) in
    let last : rfind_from 0 s b'/' (length s) ≡ some (0 + length dir) =
      rfind_last 0 dir [] b'/' (length s) tt (omega (arith, long)) in
    let again : rfind_from 0 s b'/' (length s - 1) ≡ some (0 + length dir) =
      rfind_last 0 dir [] b'/' (length s - 1) tt (omega (arith, long)) in
    let there : (0 + length dir == length s - 1) ≡ true = ground (arith, long) in
    rw (last, add_path)
      (rw (there, again)
        (ap (λ z. (true, insert z s r))
          (substr_behind dir [] b'/' (0 + length dir) (0 + length dir) (omega arith)
            (omega arith))))

-- Where the path of a URI has a name behind its last slash, adding it gives true, and a search
-- for any name that is not empty finds what it found before and, if it is that name, the path.
pub find_path-add_path_resource :
    (parse_path : Bytes → Option Bytes) (url dir name f : Bytes) (r : HttpRouting)
    → parse_path url ≡ some (dir ++ b'/' ∷ name)
    → Lacks b'/' name
    → name ≢ []
    → f ≢ []
    → (r' : HttpRouting) × (add_path_resource parse_path url r ≡ (true, r'))
      × (find_path f r'
          ≡ some (
              matching f r.page_path_resources
              ++ (if bytes_eq name f then (name, dir ++ b'/' ∷ name) ∷ [] else [])))
unfolding add_path_resource
find_path-add_path_resource parse_path url dir name f r e h ne nf = (
  insert name (dir ++ b'/' ∷ name) r,
  rw (e, add_path_resource) (add_file dir name r h ne),
  find_path-insert f name (dir ++ b'/' ∷ name) r nf,
)

-- Where the path of a URI ends with a slash, adding it gives true, and every search comes to
-- what it came to before.
pub find_path-add_page :
    (parse_path : Bytes → Option Bytes) (url dir f : Bytes) (r : HttpRouting)
    → parse_path url ≡ some (dir ++ b'/' ∷ [])
    → (r' : HttpRouting) × (add_path_resource parse_path url r ≡ (true, r'))
      × (find_path f r' ≡ find_path f r)
unfolding add_path_resource find_path bytes_eq
find_path-add_page parse_path url dir f r e =
    (insert [] (dir ++ b'/' ∷ []) r, rw (e, add_path_resource) (add_page dir r), same f)
  where
    same : (f : Bytes) → find_path f (insert [] (dir ++ b'/' ∷ []) r) ≡ find_path f r
    same [] = refl
    same (c ∷ f) =
        find_path-insert (c ∷ f) [] (dir ++ b'/' ∷ []) r (λ e. cc)
        ∙ ap some (append-nil (matching (c ∷ f) r.page_path_resources))
