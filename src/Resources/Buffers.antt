-- ===== src/Resources/Buffers.antt =====
-- src/whz_resources.cpp: the byte buffers of an object.
use work_horz.Base.{
  ℕ, suc, ==_iff, Bool, true, false, List, [], ◌∷◌, Option, none, some, if◌then◌else◌, Bytes, ◌≡◌,
  refl, ap, ◌∙◌, Bool-cases, Option-cases, inl, inr, ◌↔◌, some-inj, sym,
}
use work_horz.Compression.Paths.{extension}
use work_horz.Resources.{
  Memory, FileSystem, unknown, error, edit, type_of, is_image, is_unknown,
  check_resource_file_exists, allocate, load_resource, remove, delete, unload_resource, destroy,
  Call, load, unload, run,
}

-- The pointer is null, or points to a buffer that is allocated.
abbrev Valid : Option ℕ → List (ℕ × Bytes) → Type 0
Valid none buffers = Unit
Valid (some a) buffers = (kept : List (ℕ × Bytes)) × (remove a buffers ≡ some kept)

abbrev pub Owned : Memory → Type 0
Owned m = Valid m.object.resource_content_byte m.buffers

-- The pointer, the buffers and the next address are the same.
abbrev Keeps : Memory → Memory → Type 0
Keeps m n =
    (n.object.resource_content_byte ≡ m.object.resource_content_byte)
    × (n.buffers ≡ m.buffers)
    × (n.next ≡ m.next)

Keeps-Owned : (m n : Memory) → Keeps m n → Owned m → Owned n
Keeps-Owned m n (p, b, _) v = rw (p, b) v

check-Keeps :
    (fs : FileSystem) (path : Bytes) (m : Memory) → Keeps m (check_resource_file_exists fs path m).1
unfolding check_resource_file_exists error edit
check-Keeps fs path m = elim (Bool-cases (fs.exists path)) [
  | inr missing ↦ rw missing (refl, refl, refl)
  | inl there ↦ rw there (elim (Bool-cases (is_unknown (type_of (extension path)))) [
    | inl strange ↦ rw strange (kept (fs.is_regular_file path), refl, refl)
    | inr plain ↦ rw plain (kept (fs.is_regular_file path), refl, refl)
  ])
]
  where
    kept :
        (b : Bool)
        → (if b
            then record m.object { resource_file_exists = true; resource_path = path }
            else record m.object {
              resource_file_exists = false;
              resource_path = [];
              resource_type = unknown;
            }).resource_content_byte
          ≡ m.object.resource_content_byte
    kept true = refl
    kept false = refl

load_resource-Owned :
    (fs : FileSystem) (path : Bytes) (m : Memory) → Owned m → Owned (load_resource fs path m).1
unfolding load_resource error edit allocate remove
load_resource-Owned fs path m v =
    let begun : Memory = edit (λ r. record r { resource_path = path }) m in
    let (found, checked) = check_resource_file_exists fs path begun in
    let owned : Owned (check_resource_file_exists fs path begun).1 =
      Keeps-Owned begun (check_resource_file_exists fs path begun).1 (check-Keeps fs path begun)
        v in
    elim (Bool-cases (check_resource_file_exists fs path begun).0) [
      | inr missing ↦ rw missing owned
      | inl there ↦ rw there (elim (Option-cases (fs.open_file path)) [
        | inl shut ↦ rw shut owned
        | inr (content, opened) ↦
            rw opened
              (elim (Bool-cases
                (is_image (check_resource_file_exists fs path begun).1.object.resource_type)) [
                  | inl image ↦
                      let n = (check_resource_file_exists fs path begun).1.next in
                      rw image (
                        (check_resource_file_exists fs path begun).1.buffers,
                        rw ((==_iff n n).1 refl) refl,
                      )
                  | inr text ↦ rw text owned
                ])
      ])
    ]

cleared : Memory → Memory
unfolding edit
cleared = edit (λ r. record r {
  resource_path = [];
  resource_content_byte = none;
  resource_content_str = [];
  resource_file_exists = false;
  resource_type = unknown;
})

unload_resource-Owned :
    (m : Memory)
    → Owned m
    → (n : Memory) × (unload_resource m ≡ some n) × (n.object.resource_content_byte ≡ none)
unfolding unload_resource edit delete cleared
unload_resource-Owned m v = elim (Option-cases m.object.resource_content_byte) [
  | inl null ↦ (cleared m, rw (null, unload_resource) refl, refl)
  | inr (a, pointer) ↦
      let (kept, removed) = rw pointer at v in
      (cleared (record m { buffers = kept }), rw (pointer, unload_resource) (rw removed refl), refl)
]

destroy-Owned : (m : Memory) → Owned m → (last : Memory) × (destroy m ≡ some last)
unfolding destroy delete
destroy-Owned m v = elim (Option-cases m.object.resource_content_byte) [
  | inl null ↦ (m, rw (null, destroy) refl)
  | inr (a, pointer) ↦
      let (kept, removed) = rw pointer at v in
      (record m { buffers = kept }, rw (pointer, destroy) (rw removed refl))
]

Owned-run :
    (fs : FileSystem) (calls : List Call) (m : Memory)
    → Owned m
    → (n : Memory) × (run fs calls m ≡ some n) × (last : Memory) × (destroy n ≡ some last)
unfolding run
Owned-run fs [] m v = let (last, d) = destroy-Owned m v in (m, refl, last, d)
Owned-run fs (load path ∷ calls) m v =
    Owned-run fs calls (load_resource fs path m).1 (load_resource-Owned fs path m v)
Owned-run fs (unload ∷ calls) m v =
    let (after, e, p) = unload_resource-Owned m v in
    let (n, r, last, d) = Owned-run fs calls after (rw p tt) in (n, rw (e, run) r, last, d)

Owned-destroy : (m last : Memory) → destroy m ≡ some last → Owned m
unfolding destroy delete
Owned-destroy m last h = elim (Option-cases m.object.resource_content_byte) [
  | inl null ↦ rw null tt
  | inr (a, pointer) ↦ elim (Option-cases (remove a m.buffers)) [
    | inr (kept, removed) ↦ rw pointer (kept, removed)
    | inl wild ↦
        let fails : destroy m ≡ none = rw (pointer, destroy) (rw wild refl) in
        absurd (let k = sym fails ∙ h in cc)
  ]
]

-- An object is safe exactly if the pointer that it begins with, which no constructor sets, is null or
-- leads to a buffer that is allocated: then, and only then, every sequence of loads and unloads, of
-- whatever paths, deletes no buffer that is not allocated, and the destructor can follow.
pub run-destroy :
    (fs : FileSystem) (m : Memory)
    → Owned m ↔ (
        (calls : List Call)
        → (n : Memory) × (run fs calls m ≡ some n) × (last : Memory) × (destroy n ≡ some last))
unfolding run
run-destroy fs m = (
  λ v calls. Owned-run fs calls m v,
  λ safe.
      let (n, same, last, d) = safe [] in
      let here : m ≡ n = some-inj same in Owned-destroy m last (ap destroy here ∙ d),
)

-- The path is that of an image that can be read.
abbrev pub IsImage : FileSystem → Bytes → Bytes → Type 0
IsImage fs path content =
    (fs.exists path ≡ true)
    × (fs.is_regular_file path ≡ true)
    × (is_image (type_of (extension path)) ≡ true)
    × (is_unknown (type_of (extension path)) ≡ false)
    × (fs.open_file path ≡ some content)

check_image :
    (fs : FileSystem) (path content : Bytes) (m : Memory)
    → IsImage fs path content
    → ((check_resource_file_exists fs path m).0 ≡ true)
      × (is_image (check_resource_file_exists fs path m).1.object.resource_type ≡ true)
unfolding check_resource_file_exists edit
check_image fs path content m (e, r, i, u, o) = (rw (e, r) refl, rw e (rw u i))

load_image :
    (fs : FileSystem) (path content : Bytes) (m : Memory)
    → IsImage fs path content
    → ((load_resource fs path m).1.object.resource_content_byte ≡ some m.next)
      × ((load_resource fs path m).1.buffers ≡ (m.next, content) ∷ m.buffers)
      × ((load_resource fs path m).1.next ≡ suc m.next)
unfolding load_resource edit allocate
load_image fs path content m h =
    let begun : Memory = edit (λ r. record r { resource_path = path }) m in
    let checked : Memory = (check_resource_file_exists fs path begun).1 in
    let (found, image) = check_image fs path content begun h in
    let (_, b, x) = check-Keeps fs path begun in
    let (_, _, _, _, o) = h in
    let stored : (checked.next, content) ∷ checked.buffers ≡ (m.next, content) ∷ m.buffers =
      ap (λ a. (a, content) ∷ checked.buffers) x ∙ ap (λ z. (m.next, content) ∷ z) b in
    rw found (rw o (rw image (ap some x, stored, ap suc x)))

unload_pointer :
    (m : Memory) (a : ℕ) (kept : List (ℕ × Bytes))
    → m.object.resource_content_byte ≡ some a
    → remove a m.buffers ≡ some kept
    → unload_resource m ≡ some (cleared (record m { buffers = kept }))
unfolding unload_resource delete cleared edit
unload_pointer m a kept pointer removed = rw (pointer, unload_resource) (rw removed refl)

run_unload :
    (fs : FileSystem) (m n : Memory) → unload_resource m ≡ some n → run fs (unload ∷ []) m ≡ some n
unfolding run
run_unload fs m n e = rw (e, run) refl

-- If two images are loaded in a row and then unloaded, the pointer is null, and the buffer of the first one
-- is allocated still, with nothing that points to it.
load_resource-leak :
    (fs : FileSystem) (p q first second : Bytes) (m : Memory)
    → IsImage fs p first
    → IsImage fs q second
    → (n : Memory) × (run fs (load p ∷ load q ∷ unload ∷ []) m ≡ some n)
      × (n.object.resource_content_byte ≡ none)
      × (n.buffers ≡ (m.next, first) ∷ m.buffers)
unfolding run remove edit cleared
load_resource-leak fs p q first second m h k =
    let (_, b, x) = load_image fs p first m h in
    let one : Memory = (load_resource fs p m).1 in
    let (a, c, y) = load_image fs q second one k in
    let two : Memory = (load_resource fs q one).1 in
    let gone : remove one.next two.buffers ≡ some one.buffers =
      rw c (rw ((==_iff one.next one.next).1 refl) refl) in
    let last : Memory = cleared (record two { buffers = one.buffers }) in
    (last, run_unload fs two last (unload_pointer two one.next one.buffers a gone), refl, b)
