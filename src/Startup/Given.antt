-- ===== src/Startup/Given.antt =====
-- src/whz-core.cpp: what the program is given, and how it ends.
use work_horz.Base.{ℕ, Bool, List, Option, ◌⊎◌, Bytes}
use work_horz.Config.Values.{Json}
use work_horz.Config.Read.{Document}
use work_horz.Config.Logging.{Quill}
use work_horz.Localization.{Boost, Simdutf}
use work_horz.Encryption.{Sodium}
use work_horz.Compression.{Libarchive}
use work_horz.Compression.Zip.{Disk, Libzip}
use work_horz.Templating.{Call}
use work_horz.QrCode.{QrCode}
use work_horz.Server.Accept.{Listening}

-- What the program is given: its arguments, the disk, and the libraries.
pub record Machine (json : Json) (D F L : Type 0) : Type 0 where
  -- the exit code of a parse error, or the path behind `--config`
  pub arguments : ℕ ⊎ Bytes
  pub path_exists : Bytes → Bool
  pub load : Bytes → Document json.Element
  pub files : Bytes → Option Bytes
  pub directories : Bytes → Bool
  pub can_create : Bytes → Bool
  pub can_open : Bytes → Bool
  -- the locales, with the one that the program starts in, and the transcoder
  pub boost : Boost L
  pub first_locale : L
  pub simdutf : Simdutf
  pub sodium : Sodium
  -- the random bytes of `validateKeyPair` and of the second public key, and the pair for signatures
  pub test_message : Bytes
  pub public_key2 : Bytes
  pub sign_public_key : Bytes
  pub sign_secret_key : Bytes
  pub zip : Libzip
  pub archive : Libarchive
  -- the regular files below a directory
  pub below : Disk → Bytes → List Bytes
  pub open_database : Bytes → Call D
  pub query : D → Bytes → Call (Option Bytes)
  pub format : Bytes → Call F
  pub encode_text : Bytes → QrCode
  pub write_png : List (List ℕ) → Option Bytes
  pub binds : Bool

-- How `main` ends, or that the server runs, with the logging library then; an exception that nobody catches ends the program as
-- `std::terminate` does.
pub data Ending : Type 0 where
  exited : ℕ → Ending
  ended_abnormally : Ending
  undefined_behaviour : Ending
  server_runs : Listening → Quill → Ending
