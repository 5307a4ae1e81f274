-- ===== src/Server/SslConnection.antt =====
-- src/whz_ssl_connection.cpp: a TLS connection, driven by the completions of its operations.
use work_horz.Base.{
  take-length-append, ℕ, ◌≤◌, Bool, [], ◌++◌, Option, none, some, ◌≡◌, refl, sym, ap, ◌∙◌,
  if◌then◌else◌, Bytes, length, take, drop, arith,
}

pub data SslPhase : Type 0 where
  handshaking reading writing dropped : SslPhase

-- `received` and `sent` are the bytes that came from the client and those handed to `async_write`.
pub record SslConnection : Type 0 where
  pub buffer : Bytes
  pub phase : SslPhase
  pub received : Bytes
  pub sent : Bytes

-- `start`, which begins the handshake, on a buffer of any content.
unfoldable pub start : Bytes → SslConnection
start buffer = record { buffer = buffer; phase = handshaking; received = []; sent = [] }

unfoldable pub do_read : SslConnection → SslConnection
do_read c = record c { phase = reading }

-- `boost::asio::buffer(buffer_, length)`.
unfoldable pub do_write : ℕ → SslConnection → SslConnection
do_write length c = record c { phase = writing; sent = c.sent ++ take length c.buffer }

unfoldable pub on_handshake : Bool → SslConnection → SslConnection
on_handshake ok c = if ok then do_read c else record c { phase = dropped }

-- A read that got some bytes, which stand at the front of the buffer, or failed.
unfoldable pub on_read : Option Bytes → SslConnection → SslConnection
on_read none c = record c { phase = dropped }
on_read (some got) c =
    do_write (length got)
      (record c { buffer = got ++ drop (length got) c.buffer; received = c.received ++ got })

pub on_written : Bool → SslConnection → SslConnection
on_written ok c = if ok then do_read c else record c { phase = dropped }

pub data Step (c d : SslConnection) : Type 0 where
  handshake : (ok : Bool) → c.phase ≡ handshaking → d ≡ on_handshake ok c → Step c d
  read :
      (got : Bytes)
      → c.phase ≡ reading
      → length got ≤ length c.buffer
      → d ≡ on_read (some got) c
      → Step c d
  read_error : c.phase ≡ reading → d ≡ on_read none c → Step c d
  written : (ok : Bool) → c.phase ≡ writing → d ≡ on_written ok c → Step c d

pub data Reach (c : SslConnection) : SslConnection → Type 0 where
  here : Reach c c
  next : {d e : SslConnection} → Reach c d → Step d e → Reach c e

Step-echo : {c d : SslConnection} → Step c d → c.sent ≡ c.received → d.sent ≡ d.received
unfolding on_handshake on_written on_read do_write do_read
Step-echo (handshake ok p e) h = ground arith
Step-echo (written ok p e) h = ground arith
Step-echo (read_error p e) h = ground arith
Step-echo {c} (read got p l e) h =
    ap (λ z. z.sent) e ∙ (rw (take-length-append, h)) ∙ sym (ap (λ z. z.received) e)

-- In every state that a TLS connection reaches, what it has sent is, byte for byte, what it has
-- received.
pub Reach-echo : (buffer : Bytes) {c : SslConnection} → Reach (start buffer) c → c.sent ≡ c.received
unfolding start
Reach-echo buffer here = refl
Reach-echo buffer (next r st) = Step-echo st (Reach-echo buffer r)
