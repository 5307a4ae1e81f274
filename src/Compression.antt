-- ===== src/Compression.antt =====
-- src/whz_datacompression.hpp: `whz_datacompression`. libzip and libarchive are parameters, as far as the
-- class sees what their calls return and leave on the disk.
pub mod Paths
pub mod Names
pub mod Zip
pub mod Entries
pub mod Latest
pub mod Directory
mod Tests
use work_horz.Base.{
  ℕ, Bool, true, false, not, ◌&&◌, ◌||◌, List, [], ◌∷◌, ◌++◌, Option, none, some, if◌then◌else◌,
  Bytes, codes, bytes_eq,
}
use Paths.{parent_path, extension, ◌\◌}
use Zip.{Disk, Libzip, error, exists, is_regular_file, write, compress_zip, decompress_zip}

-- An entry of a 7z archive that is read: whether its header can be written to the disk, the content that
-- its blocks leave there, whether each block can be written, and whether the reads reach the end.
pub record ArchiveEntry : Type 0 where
  pub pathname : Bytes
  pub header_ok : Bool
  pub content : Bytes
  pub blocks_ok : Bool
  pub at_end : Bool

pub record Libarchive : Type 0 where
  pub write_open_ok : Bytes → Bool
  -- the bytes that `readsome` gives of a file until it gives none
  pub readsome : Bytes → Bytes
  -- the archive of the entries: path, declared content and data
  pub archive_of : ℕ → List (Bytes × Bytes × Bytes) → Bytes
  pub entries_of : Bytes → Option (List ArchiveEntry)

unfoldable pub archive_loop : Libarchive → Disk → List Bytes → List (Bytes × Bytes × Bytes)
archive_loop lib disk [] = []
archive_loop lib disk (file ∷ files) =
    let rest = archive_loop lib disk files in
    elim (disk.files file) [
      | none ↦ rest
      | some content ↦ (file, content, lib.readsome content) ∷ rest
    ]

unfoldable pub compress_7z : Libarchive → Disk → List Bytes → Bytes → ℕ → Bool × Disk
unfolding archive_loop
compress_7z lib disk files output level =
    if not (lib.write_open_ok output)
    then (false, error (codes "Compression Error: Failed to open output file") disk)
    else (true, write output (lib.archive_of level (archive_loop lib disk files)) disk)

unfoldable pub extract : Bytes → ArchiveEntry → Disk → Disk
extract dir e disk =
    let written : Disk = write (dir \ e.pathname) e.content disk in
    let told : Disk =
      if e.blocks_ok
      then written
      else error (codes "Decompression Error: Failed to write data for file: " ++ e.pathname)
          written in
    if not e.header_ok
    then error (codes "Decompression Error: Failed to write header for file: " ++ e.pathname) disk
    else if e.blocks_ok && e.at_end
    then told
    else error (codes "Decompression Error: Failed to read data for file: " ++ e.pathname) told

unfoldable pub extract_loop : Bytes → List ArchiveEntry → Disk → Disk
unfolding extract
extract_loop dir [] disk = disk
extract_loop dir (e ∷ entries) disk = extract_loop dir entries (extract dir e disk)

unfoldable pub decompress_7z : Libarchive → Disk → Bytes → Bytes → Bool × Disk
unfolding extract_loop
decompress_7z lib disk archive dir = elim (disk.files archive) [
  | none ↦ (false, error (codes "Decompression Error: Failed to open 7z archive: " ++ archive) disk)
  | some bytes ↦ elim (lib.entries_of bytes) [
    | none ↦
        (false, error (codes "Decompression Error: Failed to open 7z archive: " ++ archive) disk)
    | some entries ↦ (true, extract_loop dir entries disk)
  ]
]

abbrev pub unsupported : Bytes
unsupported = codes "Compression Error: Unsupported file format. Use only .zip or .7z"

unfoldable pub compress : Libzip → Libarchive → Disk → List Bytes → Bytes → Bytes → ℕ → Bool × Disk
unfolding compress_7z
compress zip lib disk files output format level =
    let told : Disk =
      if exists disk (parent_path output)
      then disk
      else error
          (codes "Compression Error: Output directory does not exist: " ++ parent_path output)
          disk in
    if bytes_eq format (codes "zip")
    then compress_zip zip told files output level
    else if bytes_eq format (codes "7z")
    then compress_7z lib told files output level
    else (false, error unsupported told)

-- `decompress`; `none` is an exception.
unfoldable pub decompress : Libzip → Libarchive → Disk → Bytes → Bytes → Option (Bool × Disk)
unfolding decompress_7z
decompress zip lib disk archive dir =
    if not (exists disk archive)
    then some (
      false,
      error (codes "Compression Error: Output directory does not exist: " ++ archive) disk,
    )
    else if bytes_eq (extension archive) (codes ".zip")
    then decompress_zip zip disk archive dir
    else if bytes_eq (extension archive) (codes ".7z")
    then some (decompress_7z lib disk archive dir)
    else some (false, error unsupported disk)

-- `compressDirectory`; `below` are the regular files below the directory.
unfoldable pub compress_directory :
    Libzip → Libarchive → Disk → List Bytes → Bytes → Bytes → Bytes → Bool × Disk
unfolding compress
compress_directory zip lib disk below directory output format =
    if not (exists disk directory)
    then (false, error (codes "Compression Error: Directory does not exist: " ++ directory) disk)
    else if not (exists disk (parent_path output))
    then (
      false,
      error (codes "Compression Error: Output directory does not exist: " ++ parent_path output)
          disk,
    )
    else compress zip lib disk below output format 6

abbrev pub decompress_to_directory :
    Libzip → Libarchive → Disk → Bytes → Bytes → Option (Bool × Disk)
decompress_to_directory = decompress
