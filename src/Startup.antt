-- ===== src/Startup.antt =====
-- src/whz-core.cpp: `main`, as the composition of the components. What is only printed, as what
-- the sanitizer returns is, is left out.
pub mod Drawn
pub mod Translated
pub mod Logged
pub mod Outcome
pub mod Given
pub mod Parts
mod Tests
use mathlib.Core.Option
use work_horz.Base.{
  ℕ, Bool, true, false, not, ◌||◌, ◌&&◌, List, [], ◌∷◌, ◌++◌, Option, none, some, ◌⊎◌, inl, inr,
  if◌then◌else◌, Bytes, codes, bytes_eq, is_empty,
}
use work_horz.Startup.Given.{
  Machine, Ending, exited, ended_abnormally, undefined_behaviour, server_runs,
}
use work_horz.Config.{Config, initial}
use work_horz.Config.Logging
use work_horz.Config.Logging.{Level, info, error, Quill, Logger, log_message}
use work_horz.Startup.Parts.{use_localization, prepared}
use work_horz.Config.Values.{Json}
use work_horz.Config.Read.{ReadResult, Document, ReadResult, returned, threw, read_config}
use work_horz.Localization.{
  Boost, LocalizationManager, add_locale, switch_locale, translate, Simdutf, to_latin1, to_utf8,
}
use work_horz.Encryption.{
  Sodium, World, generate_key_pair, validate_key_pair, hash_password, verify_password,
  create_csrf_token, encrypt_file, create_signed_message, verify_signed_message,
}
use work_horz.Compression.{
  Libarchive, compress, decompress, compress_directory, decompress_to_directory,
}
use work_horz.Compression.Zip.{Disk, Libzip}
use work_horz.Templating.{
  value, unexpected, terminated, Call, placeholder, TemplateProcessor, create, set_template_definer,
  process_template,
}
use work_horz.Vcard.{Vcard, make, add_property, add_property_with, add_address, to_string}
use work_horz.QrCode.{QrCode, QrCodeParams, generate_qr_code, encode_base64_png}
use work_horz.Server.Accept.{Listening, construct, listen_and_serve}

-- The logging library at first.
abbrev pub no_logger : Quill
no_logger = record { registered = none; next = 0; calls = [] }

module _ (json : Json) {D F L : Type 0} (m : Machine json D F L) where
  abbrev pub config_path : Bytes → Bytes
  config_path path = if is_empty path then codes "whz_config.json" else path

  abbrev pub home : List (Bytes × Bytes)
  home = (codes "TYPE", codes "Home") ∷ []

  abbrev pub work : List (Bytes × Bytes)
  work = (codes "TYPE", codes "Work") ∷ []

  -- The vCard that is drawn; `ö` and `ü` are two bytes each.
  unfoldable pub card : Bytes
  card =
      let name : Bytes = codes "D" ++ 195 ∷ 182 ∷ codes "ttinger" in
      to_string (
        add_property_with (codes "URL") work (codes "https://codecubicle.ch") (
          add_address home
            ([]
              ∷ []
              ∷ codes "Strassenweg 11"
              ∷ (codes "Z" ++ 195 ∷ 188 ∷ codes "rich")
              ∷ codes "ZH"
              ∷ codes "8000"
              ∷ codes "Switzerland"
              ∷ [])
            (add_property_with (codes "TEL") ((codes "TYPE", codes "Mobile") ∷ [])
              (codes "+4179456987")
              (add_property_with (codes "EMAIL") work (codes "johann.doettinger@example.com") (
                add_property (codes "N") (name ++ codes ";Johann;;;")
                  (add_property (codes "FN") (codes "Johann " ++ name) make))))))

  abbrev pub params : QrCodeParams
  params = record {
    scale = 8;
    border = 2;
    foreground_color = codes "#0000FF";
    background_color = codes "#FFFFFF";
  }

  -- A call of the logger, and what follows.
  unfoldable pub say : Config → Logger → Level → Bytes → (Quill → Ending) → Quill → Ending
  say c logger level text rest q = elim (log_message c level text logger q) [
    | none ↦ undefined_behaviour
    | some after ↦ rest after
  ]

  unfoldable pub start_server : Quill → Ending
  start_server q = elim (construct 1) [
    | none ↦ exited 1
    | some s ↦ server_runs (listen_and_serve m.binds s) q
  ]

  unfoldable pub listen : Config → Logger → Quill → Ending
  unfolding say start_server
  listen c logger = say c logger info (codes "*** Starting WHZ Listening Server ***") start_server

  unfoldable pub draw_base64 : Config → Logger → Quill → Ending
  unfolding say listen
  draw_base64 c logger q = elim (encode_base64_png m.write_png (m.encode_text card) params) [
    | none ↦ undefined_behaviour
    | some base64 ↦
        if is_empty base64
        then say c logger error (codes "Failed to generate Base64 PNG QR Code.") (listen c logger) q
        else listen c logger q
  ]

  unfoldable pub draw : Config → Logger → Quill → Ending
  unfolding say draw_base64
  draw c logger q =
      elim (generate_qr_code m.write_png (m.can_open (codes "qrcode.svg")) (m.encode_text card)
        (codes "svg") params) [
          | none ↦ undefined_behaviour
          | some drawn ↦
              if not drawn.0
              then say c logger error (codes "Failed to generate SVG QR Code.")
                  (draw_base64 c logger) q
              else draw_base64 c logger q
        ]

  -- From the vCard on.
  unfoldable pub serve : Config → Logger → Quill → Ending
  unfolding say draw
  serve c logger = say c logger info (codes "Testing VCard") (
      say c logger info (codes "Testing Utils")
        (say c logger info (codes "Testing QR Code Generator") (draw c logger)))

  -- The templates, on the files that are there then.
  unfoldable pub use_templates : (Bytes → Option Bytes) → (Quill → Ending) → Quill → Ending
  use_templates files rest q = elim (create m.open_database (codes "database.db")) [
    | unexpected e ↦ exited 1
    | terminated ↦ ended_abnormally
    | value (db, processor) ↦
        elim (process_template (m.query db) files m.format
          (set_template_definer placeholder processor) (codes "template.whzt")) [
            | terminated ↦ ended_abnormally
            | value text ↦ rest q
            | unexpected e ↦ rest q
          ]
  ]

  -- The parts on encryption and compression, and what follows. The compression comes to an end whatever is
  -- logged before it.
  unfoldable pub compress_then : Config → Logger → Quill → Ending
  unfolding say use_templates serve
  compress_then c logger q = elim (prepared json m) [
    | none ↦ undefined_behaviour
    | some none ↦ ended_abnormally
    | some (some disk) ↦
        say c logger info (codes "Test File Compression")
          (use_templates disk.files (serve c logger)) q
  ]

  -- Behind the reading of the configuration.
  unfoldable pub use_parts : Config → Logger → Quill → Ending
  unfolding say compress_then
  use_parts c logger = say c logger info (codes "My first logging message ma! :D") (
      say c logger info (codes "Testing Localization Manager") (λ q.
        use_localization json m
          (say c logger info (codes "Test Encryption") (compress_then c logger) q)))

  -- Behind `read_config`.
  unfoldable pub run_read : ReadResult → Ending
  unfolding use_parts
  run_read (threw c) = ended_abnormally
  run_read (returned ok c) =
      let begun = Logging.construct no_logger in
      if not ok then exited 1 else use_parts c begun.0 begun.1

  -- What the arguments come to.
  unfoldable pub run_arguments : ℕ ⊎ Bytes → Ending
  unfolding run_read
  run_arguments (inl code) = exited code
  run_arguments (inr path) =
      run_read (read_config json m.path_exists m.load initial (config_path path))

  -- `main`.
  unfoldable pub run_main : Ending
  unfolding run_arguments
  run_main = run_arguments m.arguments
