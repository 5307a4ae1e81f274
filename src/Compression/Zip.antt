-- ===== src/Compression/Zip.antt =====
-- src/whz_datacompression.hpp: `compressZip` and `decompressZip`, and what they see of the disk. An archive
-- can be written.
use work_horz.Base.{
  ℕ, Bool, true, false, not, ◌||◌, List, [], ◌∷◌, ◌++◌, Option, none, some, if◌then◌else◌, Bytes,
  codes, bytes_eq, starts_with, ◌&&◌, ◌==◌, is_empty,
}
use work_horz.Base.Decimal.{to_decimal}
use work_horz.Compression.Paths.{filename, parent_path, ends_slash, ◌\◌}

-- The regular files with their contents, the directories, where the permissions let a file be opened for
-- writing and a directory be made, and the errors given to the logger.
pub record Disk : Type 0 where
  pub files : Bytes → Option Bytes
  pub directories : Bytes → Bool
  pub can_open : Bytes → Bool
  pub can_create : Bytes → Bool
  pub errors : List Bytes

unfoldable pub error : Bytes → Disk → Disk
error text disk = record disk { errors = disk.errors ++ text ∷ [] }

unfoldable pub is_regular_file : Disk → Bytes → Bool
is_regular_file disk path = elim (disk.files path) [ none ↦ false | some content ↦ true ]

unfoldable pub exists : Disk → Bytes → Bool
unfolding is_regular_file
exists disk path = is_regular_file disk path || disk.directories path

unfoldable pub write : Bytes → Bytes → Disk → Disk
write path content disk = record disk {
  files = λ p. if bytes_eq p path then some content else disk.files p;
}

pub record Libzip : Type 0 where
  -- the error of `zip_open` with `ZIP_CREATE | ZIP_TRUNCATE`
  pub create_error : Bytes → Option ℕ
  pub source_ok : Bytes → Bool
  pub add_ok : Bytes → Bool
  pub compression_ok : Bytes → ℕ → Bool
  -- the file that `zip_close` leaves of the entries: none for an archive without entries
  pub archive_of : List (Bytes × Bytes) → Option Bytes
  -- the entries of an archive, with their contents where `zip_fopen_index` succeeds; or the error
  pub entries_of : Bytes → Option (List (Bytes × Option Bytes))
  pub open_error : ℕ

-- `zip_file_add` with `ZIP_FL_OVERWRITE`.
unfoldable pub zip_file_add : Bytes → Bytes → List (Bytes × Bytes) → List (Bytes × Bytes)
zip_file_add name content [] = (name, content) ∷ []
zip_file_add name content ((other, old) ∷ entries) =
    if bytes_eq other name
    then (other, content) ∷ entries
    else (other, old) ∷ zip_file_add name content entries

-- How the loop over the files ends.
pub data Added : Type 0 where
  added : List (Bytes × Bytes) → Added
  add_failed : List (Bytes × Bytes) → Added
  level_failed : Added

unfoldable pub add_loop : Libzip → Disk → ℕ → List Bytes → List (Bytes × Bytes) → Added
unfolding zip_file_add
add_loop lib disk level [] entries = added entries
add_loop lib disk level (file ∷ files) entries = elim (disk.files file) [
  | none ↦ add_loop lib disk level files entries
  | some content ↦
      let rest = add_loop lib disk level files (zip_file_add (filename file) content entries) in
      if not (lib.source_ok file) || not (lib.add_ok (filename file))
      then add_failed entries
      else if not (lib.compression_ok (filename file) level)
      then level_failed
      else rest
]

-- `zip_close`.
unfoldable pub zip_close : Libzip → Bytes → List (Bytes × Bytes) → Disk → Disk
zip_close lib output entries disk = elim (lib.archive_of entries) [
  | none ↦ record disk { files = λ p. if bytes_eq p output then none else disk.files p }
  | some bytes ↦ write output bytes disk
]

unfoldable pub compress_zip : Libzip → Disk → List Bytes → Bytes → ℕ → Bool × Disk
unfolding add_loop zip_close
compress_zip lib disk files output level = elim (lib.create_error output) [
  | some code ↦ (
    false,
    error
        (codes "Compression Error(" ++ (to_decimal code ++ codes "): Failed to create ZIP archive"))
        disk,
  )
  | none ↦ elim (add_loop lib disk level files []) [
    | added entries ↦ (true, zip_close lib output entries disk)
    | add_failed entries ↦ (
      false,
      error (codes "Compression Error: Failed to add file to ZIP archive")
          (zip_close lib output entries disk),
    )
    | level_failed ↦
        (false, error (codes "Compression Error: Failed to set compression level") disk)
  ]
]

-- Whether a path, or one of the directories that it goes through, is a regular file; `above` is what
-- stands before the rest of the path.
unfoldable pub file_on_way : Disk → Bytes → Bytes → Bool
unfolding is_regular_file
file_on_way disk above [] = is_regular_file disk above
file_on_way disk above (c ∷ path) =
    let rest = file_on_way disk (above ++ c ∷ []) path in
    (c == b'/' && is_regular_file disk above) || rest

-- `fs::create_directories`; `none` is an exception.
unfoldable pub create_directories : Bytes → Disk → Option Disk
unfolding file_on_way
create_directories path disk =
    if is_empty path || file_on_way disk [] path || not (disk.can_create path)
    then none
    else some (record disk {
      directories = λ q. bytes_eq q path || starts_with path (q ++ codes "/") || disk.directories q;
    })

-- What is written through a `std::ofstream`, which is not opened where the path ends in a slash, is a
-- directory or may not be written.
unfoldable pub write_stream : Bytes → Bytes → Disk → Disk
write_stream path content disk =
    if ends_slash path || disk.directories path || not (disk.can_open path)
    then disk
    else write path content disk

-- The loop over the entries; `none` is an exception.
unfoldable pub unzip_loop : Bytes → List (Bytes × Option Bytes) → Disk → Option (Bool × Disk)
unfolding create_directories write_stream
unzip_loop dir [] disk = some (true, disk)
unzip_loop dir ((name, none) ∷ entries) disk =
    some (false, error (codes "Decompression Error: Failed to open file inside ZIP archive") disk)
unzip_loop dir ((name, some content) ∷ entries) disk =
    elim (create_directories (parent_path (dir \ name)) disk) [
      | none ↦ none
      | some made ↦ unzip_loop dir entries (write_stream (dir \ name) content made)
    ]

unfoldable pub zip_open_failed : Libzip → Disk → Bool × Disk
zip_open_failed lib disk = (
  false,
  error
      (codes "Decompression Error("
        ++ (to_decimal lib.open_error ++ codes "): Failed to open ZIP archive"))
      disk,
)

-- `decompressZip`; `none` is an exception.
unfoldable pub decompress_zip : Libzip → Disk → Bytes → Bytes → Option (Bool × Disk)
unfolding unzip_loop zip_open_failed
decompress_zip lib disk archive dir = elim (disk.files archive) [
  | none ↦ some (zip_open_failed lib disk)
  | some bytes ↦ elim (lib.entries_of bytes) [
    | none ↦ some (zip_open_failed lib disk)
    | some entries ↦ unzip_loop dir entries disk
  ]
]
