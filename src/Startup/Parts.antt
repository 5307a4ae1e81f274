-- ===== src/Startup/Parts.antt =====
-- src/whz-core.cpp: the parts of `main` on localization, encryption and compression.
use mathlib.Core.Option
use work_horz.Base.{
  Bool, true, false, ◌&&◌, [], ◌∷◌, Option, none, some, if◌then◌else◌, Bytes, codes,
}
use work_horz.Startup.Given.{Machine, Ending, ended_abnormally, undefined_behaviour}
use work_horz.Config.Values.{Json}
use work_horz.Localization.{
  LocalizationManager, add_locale, switch_locale, translate, to_latin1, to_utf8,
}
use work_horz.Encryption.{
  World, generate_key_pair, validate_key_pair, hash_password, encrypt_file, create_signed_message,
  verify_signed_message,
}
use work_horz.Compression.{compress, decompress, compress_directory, decompress_to_directory}
use work_horz.Compression.Zip.{Disk}

module _ (json : Json) {D F L : Type 0} (m : Machine json D F L) where
  -- A text that is printed in Latin-1, and one that is converted back besides; `false` is undefined
  -- behaviour.
  unfoldable pub shows_latin1 : Bytes → Bool
  shows_latin1 text = elim (to_latin1 m.simdutf text) [ none ↦ false | some latin1 ↦ true ]

  unfoldable pub shows_both : Bytes → Bool
  shows_both text = elim (to_latin1 m.simdutf text) [
    | none ↦ false
    | some latin1 ↦ elim (to_utf8 m.simdutf latin1) [ none ↦ false | some utf8 ↦ true ]
  ]

  -- The translations, and how the program ends if it goes on behind them.
  unfoldable pub use_languages : LocalizationManager L → Ending → Ending
  unfolding shows_latin1 shows_both
  use_languages manager rest =
      let english = switch_locale m.boost (codes "en_US") manager in
      let german = switch_locale m.boost (codes "de_DE") english in
      if shows_latin1 (translate m.boost (codes "Hello, my World!") english)
        && (shows_latin1 (translate m.boost (codes "Hallo, meine Welt!") german)
            && shows_both (translate m.boost (codes "Hallo, meine Welt!") german))
      then rest
      else undefined_behaviour

  -- The part on localization.
  unfoldable pub use_localization : Ending → Ending
  unfolding use_languages
  use_localization rest =
      let manager : LocalizationManager L = record {
        locales = [];
        global_locale = m.first_locale;
        cout_locale = m.first_locale;
      } in
      elim (add_locale m.boost (codes "path/to/locale") (codes "messages") (codes "en_US")
        manager) [
          | none ↦ ended_abnormally
          | some one ↦
              elim (add_locale m.boost (codes "path/to/locale") (codes "messages") (codes "de_DE")
                one) [ none ↦ ended_abnormally | some two ↦ use_languages two rest ]
        ]

  -- The part on encryption; `none` is undefined behaviour.
  unfoldable pub use_encryption : World → Option World
  use_encryption w =
      let keyed : World = generate_key_pair m.sodium m.can_open w in
      let validated =
        (validate_key_pair m.sodium m.test_message keyed.public_key keyed.secret_key keyed).1 in
      let hashed = (hash_password m.sodium (codes "secure_password123") validated).1 in
      let encrypted =
        encrypt_file m.sodium m.can_open (codes "whz_config.json") m.public_key2 hashed in
      Option.map (λ (r : Bytes × World). r.1)
        (verify_signed_message m.sodium
          (create_signed_message m.sodium (codes "This is a secure message.") m.sign_secret_key)
          m.sign_public_key encrypted)

  -- The disk that a call of the part on compression leaves, and what follows.
  abbrev left : Option (Bool × Disk) → (Disk → Option Disk) → Option Disk
  left none rest = none
  left (some (done, disk)) rest = rest disk

  -- The part on compression; `none` is an exception.
  unfoldable pub use_compression : Disk → Option Disk
  use_compression d0 =
      let texts = codes "Baudelaire_pg36287.txt" ∷ codes "Homer-Iliad_pg6130.txt" ∷ [] in
      let d1 : Disk =
        (compress m.zip m.archive d0 texts (codes "zipped_output.zip") (codes "zip") 9).1 in
      let d2 : Disk =
        (compress m.zip m.archive d1 texts (codes "7zipped_output.7z") (codes "7z") 9).1 in
      left (decompress m.zip m.archive d2 (codes "zipped_output.zip") (codes "zip_output_dir"))
        (λ d3.
          left (decompress m.zip m.archive d3 (codes "example-archive.7z") (codes "7z_output_dir"))
            (λ d4.
              let d5 : Disk =
                (compress_directory m.zip m.archive d4 (m.below d4 (codes "external"))
                  (codes "external") (codes "zipped_output_dir.zip") (codes ".zip")).1 in
              let d6 : Disk =
                (compress_directory m.zip m.archive d5 (m.below d5 (codes "external"))
                  (codes "external") (codes "7zipped_output_dir.7z") (codes ".7z")).1 in
              left
                (decompress_to_directory m.zip m.archive d6 (codes "zipped_output_dir.zip")
                  (codes "zip_output_dir_unzipped"))
                (λ d7.
                  left
                    (decompress_to_directory m.zip m.archive d7 (codes "7zipped_output_dir.zip")
                      (codes "7zip_output_dir_unzipped"))
                    some)))

  -- The disk as the templates find it; `none` is undefined behaviour, and `some none` an exception that
  -- nobody catches.
  unfoldable pub prepared : Option (Option Disk)
  unfolding use_encryption use_compression
  prepared =
      Option.map
        (λ (w : World). use_compression (record {
          files = w.files;
          directories = m.directories;
          can_open = m.can_open;
          can_create = m.can_create;
          errors = w.errors;
        }))
        (use_encryption
          (record { files = m.files; errors = []; pairs = 0; public_key = []; secret_key = [] }))
