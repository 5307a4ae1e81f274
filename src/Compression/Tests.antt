-- ===== src/Compression/Tests.antt =====
-- A toy archive of two files, whose names are one.
use work_horz.Base.{
  true, [], ◌∷◌, none, some, ◌≡◌, ◌≢◌, refl, Bytes, codes, bytes_eq, All, if◌then◌else◌, ◌||◌,
}
use work_horz.Encryption.{find_last_of}
use work_horz.Compression.Paths.{filename}
use work_horz.Compression.Zip.{Disk, Libzip, compress_zip, zip_close}
use work_horz.Compression.Entries.{Entries, Unique, Named, lookup}
use work_horz.Compression.Latest.{latest, compress_zip-latest}

abbrev toy : Libzip
toy = record {
  create_error = λ path. none;
  source_ok = λ file. true;
  add_ok = λ name. true;
  compression_ok = λ name level. true;
  archive_of = λ entries. some [];
  entries_of = λ bytes. some [];
  open_error = 0;
}

abbrev disk : Disk
disk = record {
  files = λ p.
      if bytes_eq p (codes "a/x")
      then some (codes "first")
      else if bytes_eq p (codes "b/x")
      then some (codes "second")
      else none;
  directories = λ p. bytes_eq p (codes "a") || bytes_eq p (codes "b");
  can_open = λ p. true;
  can_create = λ p. true;
  errors = [];
}

names : All (λ file. filename file ≢ []) (codes "a/x" ∷ codes "b/x" ∷ [])
unfolding filename find_last_of
names = ((λ e. cc), ((λ e. cc), tt))

compress_zip-latest_example :
    (entries : Entries) × (compress_zip toy disk (codes "a/x" ∷ codes "b/x" ∷ []) (codes "o.zip") 6
      ≡ (true, zip_close toy (codes "o.zip") entries disk))
    × Unique entries
    × Named entries
    × ((name : Bytes) → lookup entries name ≡ latest disk name (codes "a/x" ∷ codes "b/x" ∷ []))
compress_zip-latest_example =
    compress_zip-latest toy disk (codes "a/x" ∷ codes "b/x" ∷ []) (codes "o.zip") 6
      (refl, (λ file. refl), (λ name. refl), (λ name. refl)) names
