-- ===== src/TemplateCache/Image.antt =====
-- src/whz_templateCache.cpp: the memory-mapped image of the templates.
use work_horz.Base.{
  take-length-append, ℕ, suc, ◌+◌, ◌-◌, ◌≤◌, true, List, [], ◌∷◌, ◌++◌, some, ◌≡◌, ◌≢◌, refl, sym,
  ap, ◌∙◌, leb, Bytes, length, take, drop, All, length-append, length-drop, append_assoc, arith,
  inl, inr, Option-cases,
}
use work_horz.Base.Split.{Lacks, split, split-append}
use work_horz.TemplateCache.{
  Templates, System, total_size, memcpy, copy_loop, written, overrun, memory_map_templates,
}

-- The image: every path and every content, each with a terminator.
abbrev pub encoded : Templates → Bytes
encoded [] = []
encoded ((name, content) ∷ rest) = name ++ (0 ∷ (content ++ (0 ∷ encoded rest)))

drop-append : (a b : Bytes) (n : ℕ) → drop (length a + n) (a ++ b) ≡ drop n b
drop-append [] b n = let e : 0 + n ≡ n = omega arith in ap (λ k. drop k b) e
drop-append (x ∷ a) b n =
    let e : suc (length a) + n ≡ suc (length a + n) = omega arith in
    ap (λ k. drop k (x ∷ (a ++ b))) e ∙ drop-append a b n

-- A copy behind what is written.
memcpy_behind :
    (ptr : ℕ) (done source rest : Bytes)
    → ptr ≡ length done
    → length source ≤ length rest
    → memcpy ptr source (done ++ rest) ≡ some (done ++ (source ++ drop (length source) rest))
unfolding memcpy
memcpy_behind ptr done source rest e l =
    let fits : leb (ptr + length source) (length (done ++ rest)) ≡ true =
      ground (arith, length-append done rest) in
    rw fits (
      ap (λ p. some (take p (done ++ rest) ++ (source ++ drop (p + length source) (done ++ rest))))
        e
      ∙ rw (take-length-append done rest, drop-append done rest (length source)))

copy_loop_lem :
    (ts : Templates) (ptr : ℕ) (done rest : Bytes)
    → ptr ≡ length done
    → length rest ≡ total_size ts
    → copy_loop ptr ts (done ++ rest) ≡ some (done ++ encoded ts)
unfolding copy_loop total_size
copy_loop_lem [] ptr done [] e l = refl
copy_loop_lem [] ptr done (x ∷ rest) e l = absurd (omega (arith, l))
copy_loop_lem ((name, content) ∷ ts) ptr done rest e l =
    let first : Bytes = name ++ 0 ∷ [] in
    let second : Bytes = content ++ 0 ∷ [] in
    let a : length first ≡ length name + 1 = length-append name (0 ∷ []) in
    let b : length second ≡ length content + 1 = length-append content (0 ∷ []) in
    let rest' : Bytes = drop (length first) rest in
    let c : length rest' ≡ length rest - length first = length-drop (length first) rest in
    let d : length (drop (length second) rest') ≡ length rest' - length second =
      length-drop (length second) rest' in
    let one = memcpy_behind ptr done first rest e (omega (arith, l, a)) in
    let two =
      memcpy_behind (ptr + length name + 1) (done ++ first) second rest'
        (omega (arith, e, a, length-append done first)) (omega (arith, l, a, b, c)) in
    let more =
      copy_loop_lem ts (ptr + length name + 1 + length content + 1) ((done ++ first) ++ second)
        (drop (length second) rest')
        (omega (arith, e, a, b, length-append done first, length-append (done ++ first) second))
        (omega (arith, l, a, b, c, d)) in
    let two' : memcpy (ptr + length name + 1) second (done ++ (first ++ rest'))
        ≡ some (((done ++ first) ++ second) ++ drop (length second) rest') =
      ap (memcpy (ptr + length name + 1) second) (sym (append_assoc done first rest'))
      ∙ two
      ∙ ap some (sym (append_assoc (done ++ first) second (drop (length second) rest'))) in
    rw (one, copy_loop) (rw two' (more ∙ ap some (simp append_assoc)))

length-encoded : (ts : Templates) → length (encoded ts) ≡ total_size ts
unfolding total_size
length-encoded [] = refl
length-encoded ((name, content) ∷ ts) = omega (
  arith,
  length-encoded ts,
  length-append name (0 ∷ (content ++ (0 ∷ encoded ts))),
  length-append content (0 ∷ encoded ts),
)

-- The texts of the templates, in turn.
abbrev pub texts : Templates → List Bytes
texts [] = []
texts ((name, content) ∷ ts) = name ∷ content ∷ texts ts

split-encoded :
    (ts : Templates) → All (Lacks 0) (texts ts) → split 0 (encoded ts) ≡ texts ts ++ ([] ∷ [])
unfolding split
split-encoded [] h = refl
split-encoded ((name, content) ∷ ts) h =
    split-append 0 name (content ++ (0 ∷ encoded ts)) h.0
    ∙ ap (◌∷◌ name)
        (split-append 0 content (encoded ts) h.1.0 ∙ ap (◌∷◌ content) (split-encoded ts h.1.1))

-- Where the system calls succeed and the mapping has the size that was asked for, the templates are
-- written with no write outside of the mapping, and the image fills it. If no path and no content
-- holds a NUL, a reader that splits the image at the terminators gets the paths and contents in turn.
pub memory_map_templates-split :
    (system : System) (ts : Templates) (map : Bytes)
    → system.opens ≡ true
    → system.truncates (total_size ts) ≡ true
    → system.maps (total_size ts) ≡ some map
    → length map ≡ total_size ts
    → All (Lacks 0) (texts ts)
    → (image : Bytes) × (memory_map_templates system ts ≡ written image)
      × (length image ≡ length map)
      × (split 0 image ≡ texts ts ++ ([] ∷ []))
unfolding memory_map_templates
memory_map_templates-split system ts map o t m l h = (
  encoded ts,
  rw (o, t, m, memory_map_templates) (rw (copy_loop_lem ts 0 [] map refl l)),
  length-encoded ts ∙ sym l,
  split-encoded ts h,
)

-- Whatever the system calls bring, if a mapping has the size that was asked for, nothing is written
-- outside of it; the templates may hold any bytes.
pub memory_map_templates-safe :
    (system : System) (ts : Templates)
    → ((map : Bytes) → system.maps (total_size ts) ≡ some map → length map ≡ total_size ts)
    → memory_map_templates system ts ≢ overrun
unfolding memory_map_templates
memory_map_templates-safe system ts sized e = elim (Option-cases (system.maps (total_size ts))) [
  | inl none_ ↦ ground (arith, none_)
  | inr (map, m) ↦
      let done = copy_loop_lem ts 0 [] map refl (sized map m) in ground (arith, m, done)
]
