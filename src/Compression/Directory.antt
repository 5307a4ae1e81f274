-- ===== src/Compression/Directory.antt =====
-- src/whz_datacompression.hpp: paths that the class checks, and those that it does not.
use work_horz.Base.{
  ℕ, Bool, true, false, List, [], ◌∷◌, ◌++◌, none, some, Bytes, codes, bytes_eq_refl, starts_with,
  ◌≡◌, refl, ap, ◌∙◌,
}
use work_horz.Base.Split.{Lacks}
use work_horz.Encryption.{find_last_of}
use work_horz.Compression.{Libarchive, compress_directory}
use work_horz.Compression.Paths.{parent_path, ends_slash, ◌\◌}
use work_horz.Compression.Zip.{
  Disk, Libzip, error, exists, write, create_directories, write_stream, unzip_loop, decompress_zip,
}

find_last_of-Lacks : (c : ℕ) (s : Bytes) → Lacks c s → find_last_of c s ≡ none
unfolding find_last_of
find_last_of-Lacks c [] h = refl
find_last_of-Lacks c (x ∷ s) h = rw (find_last_of-Lacks c s h.1) (rw h.0 refl)

parent_path-Lacks : (path : Bytes) → Lacks b'/' path → parent_path path ≡ []
unfolding parent_path
parent_path-Lacks path h = rw (find_last_of-Lacks b'/' path h, parent_path) refl

-- A directory cannot be compressed into an archive that is named without a directory, since the empty
-- path does not exist: the result is false, nothing but the log changes, and the message names no path.
pub compress_directory-bare :
    (zip : Libzip) (lib : Libarchive) (disk : Disk) (below : List Bytes)
    (directory output format : Bytes)
    → exists disk directory ≡ true
    → exists disk [] ≡ false
    → Lacks b'/' output
    → compress_directory zip lib disk below directory output format ≡ (
      false,
      record disk {
        errors = disk.errors ++ codes "Compression Error: Output directory does not exist: " ∷ [];
      },
    )
unfolding compress_directory error
compress_directory-bare zip lib disk below directory output format h k l =
    rw (h, parent_path-Lacks output l, k) refl

-- An archive with an entry whose name is an absolute path is unpacked to that path, whatever the output
-- directory is, where the directories above it can be made and the file can be opened.
pub decompress_zip-absolute :
    (lib : Libzip) (disk made : Disk) (archive dir name content bytes : Bytes)
    → disk.files archive ≡ some bytes
    → lib.entries_of bytes ≡ some ((name, some content) ∷ [])
    → starts_with name (codes "/") ≡ true
    → ends_slash name ≡ false
    → create_directories (parent_path name) disk ≡ some made
    → made.directories name ≡ false
    → made.can_open name ≡ true
    → (after : Disk) × (decompress_zip lib disk archive dir ≡ some (true, after))
      × (after.files name ≡ some content)
unfolding decompress_zip unzip_loop write_stream write ◌\◌ parent_path work_horz.Base.bytes_eq
    find_last_of starts_with
decompress_zip-absolute lib disk made archive dir name content bytes h e s l d n o =
    let at : dir \ name ≡ name = rw s refl in
    let opened : create_directories (parent_path (dir \ name)) disk ≡ some made =
      ap (λ p. create_directories (parent_path p) disk) at ∙ d in
    (
      write name content made,
      rw (h, decompress_zip) (rw (e, unzip_loop) (rw opened (rw at (rw l (rw (n, o) refl))))),
      rw (bytes_eq_refl name) refl,
    )
