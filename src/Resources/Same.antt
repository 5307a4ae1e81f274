-- ===== src/Resources/Same.antt =====
-- src/Resources.cpp and src/whz_resources.cpp side by side.
use mathlib.Core.Option
use mathlib.Core.Path.{subst}
use work_horz.Base.{
  ℕ, Bool, true, false, not, List, [], ◌∷◌, Option, none, some, if◌then◌else◌, Bytes, ◌≡◌, refl, ap,
  sym, ◌∙◌, Bool-cases, Option-cases, inl, inr, codes, ◌++◌, some-inj,
}
use work_horz.Compression.Paths.{extension}
use work_horz.Resources.{
  Resources, Memory, FileSystem, Call, load, unload, error, edit, type_of, is_image, is_unknown,
  allocate, remove, delete,
}
use work_horz.Resources
use work_horz.Resources.Older

-- A memory without the messages to the logger.
abbrev pub view : Memory → Resources × List (ℕ × Bytes) × ℕ
view m = (m.object, m.buffers, m.next)

abbrev log : List Bytes → Memory → Memory
log messages m = record m { errors = messages }

view-log : (m n : Memory) → view m ≡ view n → n ≡ log n.errors m
view-log m n e =
    ap (λ v. record { object = v.0; buffers = v.1; next = v.2; errors = n.errors }) (sym e)

-- Both checks give one answer, and leave one object.
check-same :
    (fs : FileSystem) (path : Bytes) (m : Memory) (messages : List Bytes)
    → ((Older.check_resource_file_exists fs path (log messages m)).0
        ≡ (Resources.check_resource_file_exists fs path m).0)
      × (view (Resources.check_resource_file_exists fs path m).1
          ≡ view (Older.check_resource_file_exists fs path (log messages m)).1)
unfolding Resources.check_resource_file_exists Older.check_resource_file_exists error edit
check-same fs path m messages = elim (Bool-cases (fs.exists path)) [
  | inr missing ↦ rw missing (refl, refl)
  | inl there ↦ rw there (elim (Bool-cases (is_unknown (type_of (extension path)))) [
    | inl strange ↦ rw strange (refl, refl)
    | inr plain ↦ rw plain (refl, refl)
  ])
]

-- What `loadResource` does with the answer of the check, with the message of a file that is not opened.
abbrev read_into : FileSystem → Bytes → Bytes → Bool × Memory → Bool × Memory
read_into fs path message answer =
    if not answer.0 then (false, answer.1) else (elim (fs.open_file path) [
      | none ↦ (false, error message answer.1)
      | some content ↦
          let read : Memory =
            if is_image answer.1.object.resource_type
            then allocate content answer.1
            else answer.1 in
          (true, edit (λ r. record r { resource_content_str = content }) read)
    ])

read_into-log :
    (fs : FileSystem) (path first second : Bytes) (found : Bool) (m : Memory)
    (messages : List Bytes)
    → ((read_into fs path second (found, log messages m)).0
        ≡ (read_into fs path first (found, m)).0)
      × (view (read_into fs path first (found, m)).1
          ≡ view (read_into fs path second (found, log messages m)).1)
unfolding error edit allocate
read_into-log fs path first second false m messages = (refl, refl)
read_into-log fs path first second true m messages = elim (Option-cases (fs.open_file path)) [
  | inl o ↦ rw o (refl, refl)
  | inr (content, o) ↦ rw o (elim (Bool-cases (is_image m.object.resource_type)) [
    | inl image ↦ rw image (refl, refl)
    | inr text ↦ rw text (refl, refl)
  ])
]

read_into-same :
    (fs : FileSystem) (path first second : Bytes) (a b : Bool × Memory)
    → b.0 ≡ a.0
    → view a.1 ≡ view b.1
    → ((read_into fs path second b).0 ≡ (read_into fs path first a).0)
      × (view (read_into fs path first a).1 ≡ view (read_into fs path second b).1)
read_into-same fs path first second a b found same =
    let copy = view-log a.1 b.1 same in
    let pair : b ≡ (a.0, log b.1.errors a.1) = ap (λ x. (x, b.1)) found ∙ ap (λ x. (a.0, x)) copy in
    subst
      (λ (c : Bool × Memory).
        ((read_into fs path second c).0 ≡ (read_into fs path first a).0)
        × (view (read_into fs path first a).1 ≡ view (read_into fs path second c).1))
      (sym pair) (read_into-log fs path first second a.0 a.1 b.1.errors)

load_resource-same :
    (fs : FileSystem) (path : Bytes) (m n : Memory)
    → view m ≡ view n
    → ((Older.load_resource fs path n).0 ≡ (Resources.load_resource fs path m).0)
      × (view (Resources.load_resource fs path m).1 ≡ view (Older.load_resource fs path n).1)
unfolding Resources.load_resource Older.load_resource
load_resource-same fs path m n e =
    let begin : Memory → Memory = edit (λ r. record r { resource_path = path }) in
    subst
      (λ (c : Memory).
        ((Older.load_resource fs path c).0 ≡ (Resources.load_resource fs path m).0)
        × (view (Resources.load_resource fs path m).1 ≡ view (Older.load_resource fs path c).1))
      (sym (view-log m n e))
      (let (found, same) = check-same fs path (begin m) n.errors in
        read_into-same fs path (codes "Failed to open the file " ++ path)
          (codes "Resources ERROR: Failed to open the file" ++ path)
          (Resources.check_resource_file_exists fs path (begin m))
          (Older.check_resource_file_exists fs path (begin (log n.errors m))) found same)

unload_resource-same :
    (m n : Memory)
    → view m ≡ view n
    → Option.map view (Resources.unload_resource m) ≡ Option.map view (Older.unload_resource n)
unfolding Resources.unload_resource Older.unload_resource delete edit
unload_resource-same m n e =
    rw (view-log m n e) (elim (Option-cases m.object.resource_content_byte) [
      | inl null ↦ rw null refl
      | inr (a, points) ↦ rw points (elim (Option-cases (remove a m.buffers)) [
        | inl wild ↦ rw wild refl
        | inr (kept, r) ↦ rw r refl
      ])
    ])

-- From memories that agree but for the messages, any loads and unloads of the two classes either both delete a
-- pointer to no buffer, or leave the same object, buffers and next address.
pub run-same :
    (fs : FileSystem) (calls : List Call) (m n : Memory)
    → view m ≡ view n
    → Option.map view (Resources.run fs calls m) ≡ Option.map view (Older.run fs calls n)
unfolding Resources.run Older.run
run-same fs [] m n e = ap some e
run-same fs (load path ∷ calls) m n e =
    run-same fs calls (Resources.load_resource fs path m).1 (Older.load_resource fs path n).1
      (load_resource-same fs path m n e).1
run-same fs (unload ∷ calls) m n e =
    step (λ a b. run-same fs calls a b) (Resources.unload_resource m) (Older.unload_resource n)
      (unload_resource-same m n e)
  where
    step :
        ((a b : Memory)
          → view a ≡ view b
          → Option.map view (Resources.run fs calls a) ≡ Option.map view (Older.run fs calls b))
        → (a b : Option Memory) → Option.map view a ≡ Option.map view b
        → Option.map view (elim a [ none ↦ none | some after ↦ Resources.run fs calls after ])
          ≡ Option.map view (elim b [ none ↦ none | some after ↦ Older.run fs calls after ])
    step go none none d = refl
    step go (some a) (some b) d = go a b (some-inj d)
    step go none (some b) d = absurd cc
    step go (some a) none d = absurd cc
