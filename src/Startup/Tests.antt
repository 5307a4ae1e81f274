-- ===== src/Startup/Tests.antt =====
-- A machine with a configuration file and nothing else: every archive fails to open.
use work_horz.Base.{
  All, ℕ, true, false, [], ◌∷◌, none, some, ◌≡◌, refl, ◌⊎◌, inr, codes, bytes_eq, if◌then◌else◌,
  length, arith,
}
use work_horz.Config.{Config, initial}
use work_horz.Config.Logging.{Quill}
use work_horz.Startup.Logged.{Permitted}
use work_horz.Config.Values.{Json}
use work_horz.Config.Read.{object, read_config, returned, read_config-object}
use work_horz.Encryption.{Sodium, verify_signed_message, create_signed_message}
use work_horz.Localization.Conversions.{unicode, unicode-IsTranscoder}
use work_horz.Compression.{Libarchive}
use work_horz.Compression.Zip.{Disk, Libzip}
use work_horz.Templating.{gave}
use work_horz.Templating.Process.{Compiles}
use work_horz.Server.Accept.{Server, serving, construct, listen_and_serve}
use work_horz.Startup.Given.{Machine, ended_abnormally, server_runs}
use work_horz.Startup.Parts.{prepared, use_encryption}
use work_horz.Startup.{config_path, run_main}
use work_horz.Startup.Outcome.{run_main-Compiles}

abbrev json : Json
json = record {
  Element = ℕ;
  is_null = λ e. false;
  is_uint64 = λ e. true;
  is_string = λ e. false;
  is_bool = λ e. false;
  get_uint64 = λ e. e;
  get_bool = λ e. false;
}

abbrev sodium : Sodium
sodium = record {
  seal_bytes = 48;
  keypair = λ n. (true, n ∷ [], n ∷ []);
  seal = λ message public_key. (true, message);
  seal_open = λ ciphertext public_key secret_key. (true, ciphertext);
  sign = λ message secret_key. message;
  sign_open = λ signed public_key. (true, signed, length signed);
  pwhash_str = λ password. (true, password);
  pwhash_str_verify = λ hashed password. bytes_eq hashed password;
}

abbrev zip : Libzip
zip = record {
  create_error = λ path. some 9;
  source_ok = λ file. true;
  add_ok = λ name. true;
  compression_ok = λ name level. true;
  archive_of = λ entries. none;
  entries_of = λ bytes. none;
  open_error = 9;
}

abbrev archive : Libarchive
archive = record {
  write_open_ok = λ path. false;
  readsome = λ content. content;
  archive_of = λ level entries. [];
  entries_of = λ bytes. none;
}

abbrev machine : Machine json ℕ ℕ ℕ
machine = record {
  arguments = inr [];
  path_exists = λ path. true;
  load = λ path. object ((codes "SERVER_HTTP_PORT", 80) ∷ []);
  files = λ path. if bytes_eq path (codes "whz_config.json") then some (codes "{}") else none;
  directories = λ path. false;
  can_create = λ path. true;
  can_open = λ path. true;
  boost = record { generate = λ locale_dir domain language. some 1; translate = λ locale msg. msg };
  first_locale = 0;
  simdutf = unicode;
  sodium = sodium;
  test_message = [];
  public_key2 = 1 ∷ [];
  sign_public_key = 1 ∷ [];
  sign_secret_key = 1 ∷ [];
  zip = zip;
  archive = archive;
  below = λ disk directory. [];
  open_database = λ path. gave 7;
  query = λ db sql. gave none;
  format = λ content. gave 0;
  encode_text = λ text. record { size = 21; get_module = λ x y. true };
  write_png = λ rows. some [];
  binds = true;
}

abbrev no_disk : Disk
no_disk = record {
  files = λ path. none;
  directories = λ path. false;
  can_open = λ path. true;
  can_create = λ path. true;
  errors = [];
}

abbrev ready : Disk
ready = elim (prepared json machine) [ some (some disk) ↦ disk | _ ↦ no_disk ]

ready_lem : prepared json machine ≡ some (some ready)
unfolding prepared use_encryption verify_signed_message create_signed_message
    work_horz.Compression.decompress work_horz.Compression.Zip.exists work_horz.Compression.compress
    bytes_eq work_horz.Compression.Zip.error work_horz.Compression.Zip.compress_zip
    work_horz.Encryption.encrypt_file work_horz.Encryption.write
    work_horz.Compression.Paths.parent_path work_horz.Encryption.find_last_of
    work_horz.Encryption.hash_password work_horz.Encryption.validate_key_pair
    work_horz.Encryption.generate_key_pair work_horz.Compression.compress_directory
ready_lem = refl

read :
    (c : Config) × (read_config json machine.path_exists machine.load initial
        (config_path json machine [])
      ≡ returned true c)
read =
    let (c, e, _, _) =
      read_config-object json machine.path_exists machine.load initial (codes "whz_config.json")
        ((codes "SERVER_HTTP_PORT", 80) ∷ []) (λ e. cc) refl in
    (c, e)

run_main-Compiles_example :
    (Compiles ready.files machine.format (codes "template.whzt")
      × (run_main json machine ≡ ended_abnormally))
    ⊎ ((Compiles ready.files machine.format (codes "template.whzt") → ⊥)
        × (s : Server) × (t : Server) × (q : Quill) × (construct 1 ≡ some s)
        × (listen_and_serve true s ≡ serving t)
        × (run_main json machine ≡ server_runs (serving t) q)
        × All (Permitted read.0) q.calls)
run_main-Compiles_example =
    run_main-Compiles json machine [] read.0 ready 7 1 1 refl read.1 unicode-IsTranscoder refl refl
      ready_lem refl (omega arith) refl
