-- ===== src/Http/Connection.antt =====
-- src/whz_connection.cpp and .hpp: one plain connection, driven by the completions of its socket
-- operations. The files are those of the request handler.
pub mod Lifecycle
pub mod Segments
pub mod Stream
use work_horz.Base.{
  ℕ, zero, suc, ◌+◌, ◌-◌, ◌*◌, ◌/◌, ◌≤◌, ◌<◌, ◌%◌, Bool, true, false, not, ◌&&◌, ◌||◌, List, [],
  ◌∷◌, ◌++◌, Option, none, some, ◌≡◌, ◌≢◌, ◌↔◌, refl, sym, ap, ◌∙◌, ◌⊎◌, inl, inr, ◌==◌, leb, ltb,
  if◌then◌else◌, Bytes, is_empty, length, take, drop, length-drop, replicate, All, All-append,
  length-append, take-append-drop, length-replicate, bytes_eq, bytes_eq_iff, bytes_eq_refl,
  starts_with, contains, codes, String, map, append-nil, append_assoc, Option-cases, Bool-cases,
  arith,
}
use work_horz.Http.Message.{Request}
use work_horz.Http.Parser.{State, ResultType, good, bad, indeterminate, reset, parse, Parsed}
use work_horz.Http.Parser.RoundTrip.{fresh}
use work_horz.Http.Handler.{Files, handle_request}
use work_horz.Http.Reply.{StatusType, Reply, bad_request, stock_reply}

-- The operation that the connection waits for; `closed` behind `shutdown`, and `dropped` where a
-- failed read has started no other operation.
pub data Phase : Type 0 where
  reading writing closed dropped : Phase

-- `sent` are the replies that have been handed to `async_write`.
pub record Connection : Type 0 where
  pub buffer : Bytes
  pub request : Request
  pub parser : State
  pub reply : Reply
  pub phase : Phase
  pub sent : List Reply

abbrev pub buffer_size : ℕ
buffer_size = 8192

pub zeros : ℕ → Bytes
zeros zero = []
zeros (suc n) = 0 ∷ zeros n

-- The constructor and `start`: a zeroed buffer, and a read. Nothing sets the request's version and
-- the reply's status.
unfoldable pub start : ℕ → ℕ → StatusType → Connection
start major minor status = record {
  buffer = zeros buffer_size;
  request = fresh major minor;
  parser = reset;
  reply = record { status = status; headers = []; content = [] };
  phase = reading;
  sent = [];
}

-- A read puts what it got at the front of the buffer.
pub overwrite : Bytes → Bytes → Bytes
overwrite got buffer = got ++ drop (length got) buffer

-- `do_write` with a new reply.
unfoldable pub do_write : Connection → Reply → Connection
do_write c rep = record c { reply = rep; phase = writing; sent = c.sent ++ rep ∷ [] }

-- The branches on the parser's result.
pub answer : Files → Bytes → Connection → Parsed → Connection
answer files root c p = elim p.result [
  | good ↦ do_write c (handle_request files root c.request c.reply)
  | bad ↦ do_write c (stock_reply bad_request)
  | indeterminate ↦ record c { phase = reading }
]

-- The completion of a read with no error. The parser is given the whole buffer.
unfoldable pub on_read : Files → Bytes → Connection → Bytes → Option Connection
on_read files root c got =
    let buffer = overwrite got c.buffer in
    elim (parse c.parser c.request buffer) [
      | none ↦ none
      | some p ↦
          some
            (answer files root (record c { buffer = buffer; request = p.req; parser = p.state }) p)
    ]

-- The completion of a read with an error, and that of a write.
abbrev on_read_error : Connection → Connection
on_read_error c = record c { phase = dropped }

-- `shuts` says that `shutdown` succeeds. It throws otherwise, as on a socket that the peer has left, and
-- the exception, which nobody catches, ends the program: `none`.
abbrev pub on_written : Bool → Connection → Option Connection
on_written shuts c = if shuts then some (record c { phase = closed }) else none

-- What the event loop may do: complete the operation that is pending.
pub data Step (files : Files) (root : Bytes) (c d : Connection) : Type 0 where
  read :
      (got : Bytes)
      → c.phase ≡ reading
      → length got ≤ buffer_size
      → on_read files root c got ≡ some d
      → Step files root c d
  read_error : c.phase ≡ reading → d ≡ on_read_error c → Step files root c d
  written : (shuts : Bool) → c.phase ≡ writing → on_written shuts c ≡ some d → Step files root c d

pub data Reach (files : Files) (root : Bytes) (c : Connection) : Connection → Type 0 where
  here : Reach files root c c
  next : {d e : Connection} → Reach files root c d → Step files root d e → Reach files root c e
