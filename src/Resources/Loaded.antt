-- ===== src/Resources/Loaded.antt =====
-- src/whz_resources.cpp: what the getters give of a resource.
use work_horz.Base.{
  ℕ, true, false, List, [], ◌∷◌, Option, none, some, ◌==◌, ==_iff, if◌then◌else◌, Bytes, ◌≡◌, refl,
  ap, sym, ◌∙◌, ◌⊎◌, inl, inr, Bool-cases, Option-cases,
}
use work_horz.Compression.Paths.{extension}
use work_horz.Resources.{
  Memory, FileSystem, Resources, error, edit, type_of, is_image, is_unknown,
  check_resource_file_exists, allocate, load_resource, resource_exists, get_resource_path_fullpath,
  get_resource_content_str, get_resource_type, get_resource_content_bytes,
}

-- The buffer at an address.
abbrev pub buffer_at : ℕ → List (ℕ × Bytes) → Option Bytes
buffer_at a [] = none
buffer_at a ((b, content) ∷ buffers) = if b == a then some content else buffer_at a buffers

-- The getters give the path, the type of its extension and the content, for an image in a buffer too.
pub record Shows (path content : Bytes) (m : Memory) : Type 0 where
  pub there : resource_exists m ≡ true
  pub path_shown : get_resource_path_fullpath m ≡ some path
  pub type_shown : get_resource_type m ≡ some (type_of (extension path))
  pub content_shown : get_resource_content_str m ≡ some content
  pub bytes_shown :
      is_image (type_of (extension path)) ≡ true
      → (a : ℕ) × (get_resource_content_bytes m ≡ some (some a))
        × (buffer_at a m.buffers ≡ some content)

checked_lem :
    (fs : FileSystem) (path : Bytes) (m : Memory)
    → fs.exists path ≡ true
    → fs.is_regular_file path ≡ true
    → ((check_resource_file_exists fs path m).0 ≡ true)
      × ((check_resource_file_exists fs path m).1.object ≡ record m.object {
        resource_file_exists = true;
        resource_path = path;
        resource_type = type_of (extension path);
      })
unfolding check_resource_file_exists edit error
checked_lem fs path m e r = (
  rw (e, r) refl,
  elim (Bool-cases (is_unknown (type_of (extension path)))) [
    | inl u ↦ rw e (rw u (rw r refl))
    | inr u ↦ rw e (rw u (rw r refl))
  ],
)

load_resource-Shows :
    (fs : FileSystem) (path content : Bytes) (m : Memory)
    → fs.exists path ≡ true
    → fs.is_regular_file path ≡ true
    → fs.open_file path ≡ some content
    → ((load_resource fs path m).0 ≡ true) × Shows path content (load_resource fs path m).1
unfolding load_resource edit allocate
load_resource-Shows fs path content m e r o =
    let begun : Memory = edit (λ x. record x { resource_path = path }) m in
    let checked : Memory = (check_resource_file_exists fs path begun).1 in
    let (found, object) = checked_lem fs path begun e r in
    let kind : checked.object.resource_type ≡ type_of (extension path) =
      ap (λ (x : Resources). x.resource_type) object in
    let there : checked.object.resource_file_exists ≡ true =
      ap (λ (x : Resources). x.resource_file_exists) object in
    let full : some checked.object.resource_path ≡ some path =
      ap (λ (x : Resources). some x.resource_path) object in
    let n = checked.next in
    elim (Bool-cases (is_image checked.object.resource_type)) [
      | inl image ↦ rw found (
          rw o (
            rw image (
              refl,
              record {
                there = there;
                path_shown = full;
                type_shown = ap some kind;
                content_shown = refl;
                bytes_shown = λ i. (n, refl, rw ((==_iff n n).1 refl) refl);
              },
            )))
      | inr text ↦ rw found (
          rw o (
            rw text (
              refl,
              record {
                there = there;
                path_shown = full;
                type_shown = ap some kind;
                content_shown = refl;
                bytes_shown = λ i.
                    absurd (let k : is_image checked.object.resource_type ≡ true = rw kind i in cc);
              },
            )))
    ]

check-lacks :
    (fs : FileSystem) (path : Bytes) (m : Memory)
    → (fs.exists path ≡ false) ⊎ (fs.is_regular_file path ≡ false)
    → (check_resource_file_exists fs path m).0 ≡ false
unfolding check_resource_file_exists
check-lacks fs path m (inl e) = rw e refl
check-lacks fs path m (inr r) = elim (Bool-cases (fs.exists path)) [
  | inl e ↦ rw (e, r) refl
  | inr e ↦ rw e refl
]

load_resource-missing :
    (fs : FileSystem) (path : Bytes) (m : Memory)
    → (fs.exists path ≡ false) ⊎ ((fs.is_regular_file path ≡ false) ⊎ (fs.open_file path ≡ none))
    → (load_resource fs path m).0 ≡ false
unfolding load_resource
load_resource-missing fs path m h =
    let begun : Memory = edit (λ x. record x { resource_path = path }) m in
    elim (Bool-cases (check_resource_file_exists fs path begun).0) [
      | inr missing ↦ rw missing refl
      | inl found ↦ elim h [
        | inl e ↦ absurd (let k = sym (check-lacks fs path begun (inl e)) ∙ found in cc)
        | inr (inl r) ↦ absurd (let k = sym (check-lacks fs path begun (inr r)) ∙ found in cc)
        | inr (inr o) ↦ rw found (rw o refl)
      ]
    ]

-- Loading a resource returns true exactly if the path is that of a regular file that can be opened; the
-- getters then give the path, the type of its extension and the content of the file, which for
-- an image is also in the buffer that the pointer leads to.
pub load_resource-cases :
    (fs : FileSystem) (path : Bytes) (m : Memory)
    → ((content : Bytes) × (fs.exists path ≡ true)
        × (fs.is_regular_file path ≡ true)
        × (fs.open_file path ≡ some content)
        × ((load_resource fs path m).0 ≡ true)
        × Shows path content (load_resource fs path m).1)
      ⊎ (((load_resource fs path m).0 ≡ false)
          × ((fs.exists path ≡ false)
              ⊎ ((fs.is_regular_file path ≡ false) ⊎ (fs.open_file path ≡ none))))
load_resource-cases fs path m = elim (Bool-cases (fs.exists path)) [
  | inr e ↦ inr (load_resource-missing fs path m (inl e), inl e)
  | inl e ↦ elim (Bool-cases (fs.is_regular_file path)) [
    | inr r ↦ inr (load_resource-missing fs path m (inr (inl r)), inr (inl r))
    | inl r ↦ elim (Option-cases (fs.open_file path)) [
      | inl o ↦ inr (load_resource-missing fs path m (inr (inr o)), inr (inr o))
      | inr (content, o) ↦
          let (found, shows) = load_resource-Shows fs path content m e r o in
          inl (content, e, r, o, found, shows)
    ]
  ]
]
