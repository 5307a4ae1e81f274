-- ===== src/Config/Logging.antt =====
-- src/whz_quill_wrapper.cpp and .hpp: the loggers. The logging library is what it keeps of them.
pub mod Defined
pub mod Shared
use work_horz.Base.{
  ℕ, suc, ◌*◌, ◌==◌, codes, Option, none, Bool, true, false, not, ◌&&◌, List, [], ◌∷◌, ◌++◌, some,
  ◌≡◌, ◌≢◌, refl, if◌then◌else◌, Bytes, arith,
}
use work_horz.Config.{Config, initial, get_config_value}
use work_horz.Config.Store.{bool_or_false, plain_bool_or_false}
use work_horz.Config.Lookup.{converted}
use work_horz.Config.Parameter.{
  ConfigParameter, log_trace_l3, log_trace_l2, log_trace_l1, log_debug, log_info, log_warning,
  log_error, log_critical, log_backtrace,
}
use work_horz.Config.Read.{
  Document, object, returned, read_config, setting, Loaded, Loaded-induction, read_config-object,
}
use work_horz.Config.Values.{Json, Any, boolean}

pub data Level : Type 0 where
  trace_l3 trace_l2 trace_l1 debug info warning error critical backtrace : Level

-- The parameter that each method asks for.
unfoldable pub parameter_of : Level → ConfigParameter
parameter_of trace_l3 = log_trace_l3
parameter_of trace_l2 = log_trace_l2
parameter_of trace_l1 = log_trace_l1
parameter_of debug = log_debug
parameter_of info = log_info
parameter_of warning = log_warning
parameter_of error = log_error
parameter_of critical = log_critical
parameter_of backtrace = log_backtrace

-- What the constructor sets of the rotating file.
pub record SinkConfig : Type 0 where
  pub rotation_time_daily : Bytes
  pub open_mode : ℕ
  pub rotation_max_file_size : ℕ
  pub remove_old_files : Bool
  pub local_time : Bool
  pub date_and_time_names : Bool
  pub append_start_date_time : Bool

-- The calls of the logging library.
pub data Call : Type 0 where
  start_backend remove_logger stop_backend flush_log : Call
  create_or_get_sink : Bytes → SinkConfig → Call
  create_or_get_logger : Bytes → Bytes → Bytes → Call
  log : Level → Bytes → Call

-- The library, which all objects share: the logger that is registered under the name "logger_user",
-- the identity of the next one that is created, and the calls.
pub record Quill : Type 0 where
  pub registered : Option ℕ
  pub next : ℕ
  pub calls : List Call

-- `qlogger` is the identity of the logger that the pointer leads to.
pub record Logger : Type 0 where
  pub is_backend_closed : Bool
  pub qlogger : ℕ

unfoldable pub call : Call → Quill → Quill
call c q = record q { calls = q.calls ++ c ∷ [] }

-- A call through the pointer; `none` is undefined behaviour, of a logger that was removed.
unfoldable pub call_on : ℕ → Call → Quill → Option Quill
call_on pointer c q = elim q.registered [
  | none ↦ none
  | some current ↦ if current == pointer then some (call c q) else none
]

abbrev sink_config : SinkConfig
sink_config = record {
  rotation_time_daily = codes "00:00";
  open_mode = b'w';
  rotation_max_file_size = 1024 * 1024 * 5;
  remove_old_files = false;
  local_time = true;
  date_and_time_names = true;
  append_start_date_time = true;
}

-- The logger of the name, or a new one.
unfoldable pub create_or_get : Quill → Logger × Quill
create_or_get q = elim q.registered [
  | some current ↦ (record { is_backend_closed = false; qlogger = current }, q)
  | none ↦ (
    record { is_backend_closed = false; qlogger = q.next },
    record q { registered = some q.next; next = suc q.next },
  )
]

-- The constructor.
unfoldable pub construct : Quill → Logger × Quill
unfolding call create_or_get
construct q = create_or_get (
    call
      (create_or_get_logger (codes "logger_user")
        (codes
          "%(time) [%(thread_id)] %(short_source_location:<28) %(log_level:<9) %(logger:<12) %(message)")
        (codes "%H:%M:%S.%Qus"))
      (call (create_or_get_sink (codes "whz_logfile.log") sink_config) (call start_backend q)))

-- `type() == typeid(bool)`.
unfoldable pub is_type_bool : Any → Bool
is_type_bool (boolean b) = true
is_type_bool _ = false

-- `any_cast<bool>` behind that test.
unfoldable pub log_value : Any → Bool
log_value (boolean b) = b
log_value _ = false

-- `trace_L3`, …, `backtrace`: the nine methods have the same body, each with its own parameter.
unfoldable pub log_message : Config → Level → Bytes → Logger → Quill → Option Quill
unfolding call_on parameter_of is_type_bool log_value
log_message c level message logger q =
    let value = get_config_value c (parameter_of level) in
    let log_val = if is_type_bool value then log_value value else false in
    if log_val then call_on logger.qlogger (log level message) q else some q

-- `stopLogger`.
unfoldable pub stop_logger : Logger → Quill → Option (Logger × Quill)
unfolding call call_on
stop_logger logger q = elim (call_on logger.qlogger flush_log q) [
  | none ↦ none
  | some flushed ↦ some (
    record logger { is_backend_closed = true },
    call stop_backend (call remove_logger (record flushed { registered = none })),
  )
]

-- The destructor.
unfoldable pub destroy : Logger → Quill → Option Quill
unfolding call_on
destroy logger q =
    if not logger.is_backend_closed then call_on logger.qlogger flush_log q else some q

-- What `log_message` finds of a value.
abbrev pub is_on : Any → Bool
is_on value = if is_type_bool value then log_value value else false

module _ (json : Json) where
  converted-off :
      (l : Level) (value : json.Element)
      → l ≢ info
      → is_on (converted json (parameter_of l) value) ≡ false
  unfolding converted parameter_of is_type_bool log_value bool_or_false
  converted-off info value h = absurd (h refl)
  converted-off _ value h = ground arith

  initial-off : (l : Level) → is_on (get_config_value initial (parameter_of l)) ≡ false
  unfolding get_config_value parameter_of is_type_bool log_value initial
  initial-off info = refl
  initial-off _ = refl

  -- On a configuration that comes from the initial one by reading any files, a logging method
  -- other than `info` never logs anything.
  pub log_message-silent :
      {c : Config} (l : Level) (message : Bytes) (logger : Logger) (q : Quill)
      → Loaded json c
      → l ≢ info
      → log_message c l message logger q ≡ some q
  unfolding log_message
  log_message-silent l message logger q v h = rw (
      Loaded-induction json (λ v. is_on v ≡ false) (parameter_of l) (initial-off l)
        (λ w. converted-off l w h) v)

  -- Where the path is not empty and its document is an object with a `LOG_INFO` field, reading
  -- it gives true, and `info` then logs exactly if the last such field is the Boolean true.
  pub log_message-info :
      (c : Config) (exists : Bytes → Bool) (load : Bytes → Document json.Element) (path : Bytes)
      (fields : List (Bytes × json.Element)) (value : json.Element) (message : Bytes)
      (logger : Logger) (q : Quill)
      → path ≢ []
      → load path ≡ object fields
      → setting json log_info fields ≡ some value
      → (d : Config) × (read_config json exists load c path ≡ returned true d)
        × (log_message d info message logger q ≡ (
            if not (json.is_null value) && json.is_bool value && json.get_bool value
            then call_on logger.qlogger (log info message) q
            else some q))
  unfolding log_message parameter_of is_type_bool log_value converted plain_bool_or_false
  log_message-info c exists load path fields value message logger q ne e last =
      let (d, r, loaded, values) = read_config-object json exists load c path fields ne e in
      (d, r, rw (values log_info, last, log_message) (ground arith))
