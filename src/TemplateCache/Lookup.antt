-- ===== src/TemplateCache/Lookup.antt =====
-- src/whz_templateCache.hpp: what `getTemplate` finds behind `loadTemplates` and `reloadTemplates`.
use work_horz.Base.{
  true, false, ◌&&◌, List, [], ◌∷◌, ◌++◌, some, ◌≡◌, ◌≢◌, refl, sym, ap, ◌∙◌, Bytes, codes, All,
  bytes_eq, bytes_eq_iff, bytes_eq_refl, append_assoc, append-nil, arith, inl, inr, Option-cases,
  Bool-cases,
}
use work_horz.TemplateCache.{
  Entry, Templates, System, load_entry, load_loop, get_template, load_templates, reload_templates,
}

-- What each entry adds.
collected : List Entry → Templates
collected [] = []
collected (x ∷ xs) = load_entry x [] ++ collected xs

load_entry_lem : (x : Entry) (ts : Templates) → load_entry x ts ≡ ts ++ load_entry x []
unfolding load_entry
load_entry_lem x ts =
    elim (Bool-cases (x.is_regular_file && bytes_eq x.extension (codes ".whzt"))) [
      | inl good ↦ elim (Option-cases x.content) [
        | inl missing ↦ rw (good, missing) (sym (append-nil ts))
        | inr (c, e) ↦ rw (good, e)
      ]
      | inr bad ↦ rw bad (sym (append-nil ts))
    ]

load_loop_lem : (xs : List Entry) (ts : Templates) → load_loop xs ts ≡ ts ++ collected xs
unfolding load_loop collected
load_loop_lem [] ts = sym (append-nil ts)
load_loop_lem (x ∷ xs) ts =
    load_loop_lem xs (load_entry x ts)
    ∙ ap (λ z. z ++ collected xs) (load_entry_lem x ts)
    ∙ append_assoc ts (load_entry x []) (collected xs)

collected-append : (xs ys : List Entry) → collected (xs ++ ys) ≡ collected xs ++ collected ys
unfolding collected
collected-append [] ys = refl
collected-append (x ∷ xs) ys =
    ap (λ z. load_entry x [] ++ z) (collected-append xs ys)
    ∙ sym (append_assoc (load_entry x []) (collected xs) (collected ys))

bytes_eq_ne : (a b : Bytes) → a ≢ b → bytes_eq a b ≡ false
bytes_eq_ne a b h = ground (arith, bytes_eq_iff a b)

get_template-load_entry :
    (p : Bytes) (x : Entry) (rest : Templates)
    → x.path ≢ p
    → get_template p (load_entry x [] ++ rest) ≡ get_template p rest
unfolding load_entry get_template
get_template-load_entry p x rest h =
    elim (Bool-cases (x.is_regular_file && bytes_eq x.extension (codes ".whzt"))) [
      | inl good ↦ elim (Option-cases x.content) [
        | inl missing ↦ rw (good, missing)
        | inr (c, e) ↦ rw (good, e) (rw (bytes_eq_ne x.path p h))
      ]
      | inr bad ↦ rw bad
    ]

get_template-collected :
    (p : Bytes) (xs : List Entry) (rest : Templates)
    → All (λ (x : Entry). x.path ≢ p) xs
    → get_template p (collected xs ++ rest) ≡ get_template p rest
unfolding collected
get_template-collected p [] rest h = refl
get_template-collected p (x ∷ xs) rest h =
    ap (get_template p) (append_assoc (load_entry x []) (collected xs) rest)
    ∙ get_template-load_entry p x (collected xs ++ rest) h.0
    ∙ get_template-collected p xs rest h.1

-- Behind a reload, whatever was loaded before it, the template of a regular `.whzt` file that
-- can be opened is the file's content, if no other entry of the directory has its path.
pub get_template-reload_templates :
    (system : System) (before after : List Entry) (x : Entry) (old : Templates) (content : Bytes)
    → x.is_regular_file ≡ true
    → x.extension ≡ codes ".whzt"
    → x.content ≡ some content
    → All (λ (y : Entry). y.path ≢ x.path) before
    → All (λ (y : Entry). y.path ≢ x.path) after
    → get_template x.path (reload_templates system (before ++ x ∷ after) old).0 ≡ content
unfolding reload_templates load_templates collected
get_template-reload_templates system before after x old content r s c h k =
    ap (get_template x.path)
      (load_loop_lem (before ++ x ∷ after) [] ∙ collected-append before (x ∷ after))
    ∙ get_template-collected x.path before (collected (x ∷ after)) h
    ∙ found
  where
    found : get_template x.path (load_entry x [] ++ collected after) ≡ content
    found =
        let good : (x.is_regular_file && bytes_eq x.extension (codes ".whzt")) ≡ true =
          rw (r, s) (bytes_eq_refl (codes ".whzt")) in
        unfold load_entry get_template in rw (good, c) (rw (bytes_eq_refl x.path))

-- Behind a reload, whatever was loaded before it, a path that no entry of the directory has
-- gives the empty text.
pub get_template-reload_missing :
    (system : System) (entries : List Entry) (old : Templates) (path : Bytes)
    → All (λ (y : Entry). y.path ≢ path) entries
    → get_template path (reload_templates system entries old).0 ≡ []
unfolding reload_templates load_templates get_template
get_template-reload_missing system entries old path h =
    ap (get_template path) (load_loop_lem entries [] ∙ sym (append-nil (collected entries)))
    ∙ get_template-collected path entries [] h
