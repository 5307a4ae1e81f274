-- ===== src/Config/Tests.antt =====
-- Concrete runs of the configuration, on a small JSON library.
use work_horz.Base.{
  some, none, ℕ, Bool, true, false, List, [], ◌∷◌, ◌≡◌, refl, Bytes, codes, not, bytes_eq,
}
use work_horz.Config.{Config, initial, get_config_value}
use work_horz.Config.Values.{Json}
use work_horz.Config.Parameter.{ConfigParameter}
use work_horz.Config.Read.{
  Document, object, returned, read_config, setting, expected, read_config-object, unread,
}
use work_horz.Config.Parameter.{server_https_port}
use work_horz.Config.Parameter.Keys.{KeyOf, parameter_of_key_unique}
use work_horz.Config.Logging.{
  error, Level, Quill, Logger, call, call_on, create_or_get, construct, stop_logger, destroy,
  log_message, log_message-silent,
}
use work_horz.Config.Logging.Shared.{Program, Reach, here, next, constructs, Reach-defined}

data Element : Type 0 where
  null : Element
  number : ℕ → Element
  text : Bytes → Element
  flag : Bool → Element

is_null : Element → Bool
is_null null = true
is_null _ = false

is_uint64 : Element → Bool
is_uint64 (number n) = true
is_uint64 _ = false

is_string : Element → Bool
is_string (text s) = true
is_string _ = false

is_bool : Element → Bool
is_bool (flag b) = true
is_bool _ = false

get_uint64 : Element → ℕ
get_uint64 (number n) = n
get_uint64 _ = 0

get_bool : Element → Bool
get_bool (flag b) = b
get_bool _ = false

abbrev json : Json
json = record {
  Element = Element;
  is_null = is_null;
  is_uint64 = is_uint64;
  is_string = is_string;
  is_bool = is_bool;
  get_uint64 = get_uint64;
  get_bool = get_bool;
}

-- A file that sets the port twice, and turns `LOG_INFO` on.
abbrev fields : List (Bytes × Element)
fields =
    (codes "SERVER_HTTP_PORT", number 80)
    ∷ (codes "LOG_INFO", flag true)
    ∷ (codes "SERVER_HTTP_PORT", number 8080)
    ∷ []

abbrev load : Bytes → Document Element
load path = object fields

abbrev exists : Bytes → Bool
exists path = not (bytes_eq path [])

abbrev path : Bytes
path = codes "whz_config.json"

read_config-object_example :
    (d : Config) × (read_config json exists load initial path ≡ returned true d)
    × (d.config_loaded ≡ true)
    × ((q : ConfigParameter)
        → get_config_value d q ≡ expected json initial q (setting json q fields))
read_config-object_example = read_config-object json exists load initial path fields (λ e. cc) refl

abbrev logger : Logger
logger = record { is_backend_closed = false; qlogger = 0 }

-- The library before and behind the first logger.
abbrev quill : Quill
quill = record { registered = none; next = 0; calls = [] }

abbrev begun : Quill
begun = (construct quill).1

log_message-silent_example : log_message initial error (codes "m") logger begun ≡ some begun
log_message-silent_example = log_message-silent json error (codes "m") logger begun unread (λ e. cc)

-- One logger.
abbrev one_logger : Program
one_logger = record { objects = logger ∷ []; quill = begun }

one_logger-Reach : Reach initial (record { objects = []; quill = quill }) one_logger
unfolding construct create_or_get call destroy call_on
one_logger-Reach = next here (constructs refl refl)

Reach-defined_example :
    (false ≡ false
      → ((level : Level) (message : Bytes)
          → (r : Quill) × (log_message initial level message logger begun ≡ some r))
        × ((r : Logger × Quill) × (stop_logger logger begun ≡ some r)))
    × ((r : Quill) × (destroy logger begun ≡ some r))
Reach-defined_example = Reach-defined initial quill one_logger [] [] logger one_logger-Reach refl

parameter_of_key_unique_example :
    (one : KeyOf server_https_port) × ((other : KeyOf server_https_port) → other ≡ one)
parameter_of_key_unique_example = parameter_of_key_unique server_https_port (λ e. cc)
