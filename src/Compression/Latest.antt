-- ===== src/Compression/Latest.antt =====
-- src/whz_datacompression.hpp: the entries of a ZIP archive that `compressZip` makes.
use work_horz.Base.{
  ℕ, Bool, true, false, List, [], ◌∷◌, Option, none, some, if◌then◌else◌, Bytes, bytes_eq, All, ◌≡◌,
  ◌≢◌, refl, ap, ◌∙◌, Option-cases, inl, inr,
}
use work_horz.Compression.Names.{filename-Lacks}
use work_horz.Compression.Paths.{filename}
use work_horz.Compression.Zip.{Disk, Libzip, zip_file_add, added, add_loop, zip_close, compress_zip}
use work_horz.Compression.Entries.{
  Entries, lookup, Unique, Named, zip_file_add-Named, zip_file_add-Unique, lookup-zip_file_add,
}

abbrev pub or_else : Option Bytes → Option Bytes → Option Bytes
or_else (some a) b = some a
or_else none b = b

-- The content of the last of the files that has the name and can be read.
abbrev pub latest : Disk → Bytes → List Bytes → Option Bytes
latest disk name [] = none
latest disk name (file ∷ files) =
    or_else (latest disk name files)
      (if bytes_eq (filename file) name then disk.files file else none)

-- Every call of libzip on an archive that is written succeeds.
abbrev pub Succeeds : Libzip → Bytes → ℕ → Type 0
Succeeds lib output level =
    (lib.create_error output ≡ none)
    × ((file : Bytes) → lib.source_ok file ≡ true)
    × ((name : Bytes) → lib.add_ok name ≡ true)
    × ((name : Bytes) → lib.compression_ok name level ≡ true)

module _ (lib : Libzip) (disk : Disk) (output : Bytes) (level : ℕ) where
  add_loop_lem :
      (files : List Bytes) (entries : Entries)
      → Succeeds lib output level
      → Unique entries
      → Named entries
      → All (λ file. filename file ≢ []) files
      → (all : Entries) × (add_loop lib disk level files entries ≡ added all)
        × Unique all
        × Named all
        × ((name : Bytes)
            → lookup all name ≡ or_else (latest disk name files) (lookup entries name))
  unfolding add_loop
  add_loop_lem [] entries ok u n h = (entries, refl, u, n, λ name. refl)
  add_loop_lem (file ∷ files) entries (c, s, a, l) u n (h, hs) =
      elim (Option-cases (disk.files file)) [
        | inl missing ↦
            let (all, same, v, m, found) = add_loop_lem files entries (c, s, a, l) u n hs in
            (
              all,
              rw (missing, add_loop) same,
              v,
              m,
              λ name.
                  found name
                  ∙ rw missing (
                      skipped (latest disk name files) (bytes_eq (filename file) name)
                        (lookup entries name)),
            )
        | inr (content, there) ↦
            let name = filename file in
            let more : Entries = zip_file_add name content entries in
            let (all, same, v, m, found) =
              add_loop_lem files more (c, s, a, l) (zip_file_add-Unique name content entries u)
                (zip_file_add-Named name content entries (h, filename-Lacks file) n) hs in
            (
              all,
              rw (there, add_loop) (rw (s file, a name, l name) same),
              v,
              m,
              λ key.
                  found key
                  ∙ ap (or_else (latest disk key files))
                      (lookup-zip_file_add name key content entries)
                  ∙ rw there (
                      taken content (latest disk key files) (bytes_eq name key)
                        (lookup entries key)),
            )
      ]
    where
      skipped :
          (x : Option Bytes) (b : Bool) (y : Option Bytes)
          → or_else x y ≡ or_else (or_else x (if b then none else none)) y
      skipped none true y = refl
      skipped none false y = refl
      skipped (some z) b y = refl

      taken :
          (content : Bytes) (x : Option Bytes) (b : Bool) (y : Option Bytes)
          → or_else x (if b then some content else y)
            ≡ or_else (or_else x (if b then some content else none)) y
      taken content none true y = refl
      taken content none false y = refl
      taken content (some z) b y = refl

or_else-none : (o : Option Bytes) → or_else o none ≡ o
or_else-none none = refl
or_else-none (some a) = refl

-- If every call of libzip succeeds, and each file has a name, files are compressed into the archive of
-- entries whose names have no slash, are not empty, and are all different: each name is that of an entry
-- with the content of the last of the files that has the name and can be read, and of no entry if there
-- is none.
pub compress_zip-latest :
    (lib : Libzip) (disk : Disk) (files : List Bytes) (output : Bytes) (level : ℕ)
    → Succeeds lib output level
    → All (λ file. filename file ≢ []) files
    → (entries : Entries) × (compress_zip lib disk files output level
        ≡ (true, zip_close lib output entries disk))
      × Unique entries
      × Named entries
      × ((name : Bytes) → lookup entries name ≡ latest disk name files)
unfolding compress_zip
compress_zip-latest lib disk files output level (c, s, a, l) hs =
    let (entries, same, u, n, found) =
      add_loop_lem lib disk output level files [] (c, s, a, l) tt tt hs in
    (
      entries,
      rw (c, compress_zip) (rw same refl),
      u,
      n,
      λ name. found name ∙ or_else-none (latest disk name files),
    )
