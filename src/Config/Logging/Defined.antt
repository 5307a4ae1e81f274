-- ===== src/Config/Logging/Defined.antt =====
-- src/whz_quill_wrapper.cpp: the calls through a pointer to the logger that is registered.
use work_horz.Base.{
  ℕ, true, false, Option, none, some, ◌≡◌, refl, if◌then◌else◌, Bytes, Bool-cases, inl, inr, arith,
}
use work_horz.Config.{Config, get_config_value}
use work_horz.Config.Logging.{
  Level, Call, Quill, Logger, call, call_on, parameter_of, is_type_bool, log_value, log_message,
  stop_logger, destroy,
}

-- An object that is not closed points to the logger that is registered.
abbrev pub Points : Option ℕ → Logger → Type 0
Points registered o = o.is_backend_closed ≡ false → registered ≡ some o.qlogger

pub call_on-some :
    (pointer : ℕ) (c : Call) (q : Quill)
    → q.registered ≡ some pointer
    → call_on pointer c q ≡ some (call c q)
unfolding call_on
call_on-some pointer c q e = ground (arith, e)

pub log_message-defined :
    (c : Config) (level : Level) (message : Bytes) (o : Logger) (q : Quill)
    → q.registered ≡ some o.qlogger
    → (r : Quill) × (log_message c level message o q ≡ some r)
unfolding log_message
log_message-defined c level message o q e =
    let f = call_on-some o.qlogger (Call.log level message) q e in
    let value = get_config_value c (parameter_of level) in
    elim (Bool-cases (if is_type_bool value then log_value value else false)) [
      | inl on ↦ (call (Call.log level message) q, rw (on, log_message) f)
      | inr off ↦ (q, rw (off, log_message) refl)
    ]

pub stop_logger-defined :
    (o : Logger) (q : Quill)
    → q.registered ≡ some o.qlogger
    → (r : Logger × Quill) × (stop_logger o q ≡ some r)
unfolding stop_logger
stop_logger-defined o q e =
    let f = call_on-some o.qlogger Call.flush_log q e in
    (
      (
        record o { is_backend_closed = true },
        call Call.stop_backend
            (call Call.remove_logger (record (call Call.flush_log q) { registered = none })),
      ),
      rw (f, stop_logger) refl,
    )

pub destroy-defined :
    (o : Logger) (q : Quill) → Points q.registered o → (r : Quill) × (destroy o q ≡ some r)
unfolding destroy
destroy-defined o q points = elim (Bool-cases o.is_backend_closed) [
  | inl e ↦ (q, ground (arith, e))
  | inr e ↦
      let f = call_on-some o.qlogger Call.flush_log q (points e) in
      (call Call.flush_log q, ground (arith, e, f))
]
