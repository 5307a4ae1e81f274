-- ===== src/Http/Connection/Lifecycle.antt =====
-- src/whz_connection.cpp: what holds of a connection in every state that it reaches.
use work_horz.Base.{
  ℕ, ◌<◌, List, [], ◌∷◌, some, ◌≡◌, refl, ◌⊎◌, Bytes, arith, some-inj, true, false,
}
use work_horz.Http.Connection.{
  Phase, reading, writing, closed, dropped, Connection, start, do_write, answer, on_read, overwrite,
  Step, read, read_error, written, Reach, here, next,
}
use work_horz.Http.Parser.{Parsed}
use work_horz.Http.Parser.RoundTrip.{fresh-IsSound}
use work_horz.Http.Parser.Invariant.{IsSound, parse-IsSound}
use work_horz.Http.Handler.{Files}
use work_horz.Http.Handler.Served.{handle_request-IsFramed}
use work_horz.Http.Reply.{StatusType, Reply, bad_request}
use work_horz.Http.Reply.Wire.{IsFramed, stock_reply-IsFramed}

-- Nothing has been sent while the connection reads, and one framed reply from then on.
abbrev pub HasSent : Phase → Reply → List Reply → Type 0
HasSent reading rep sent = sent ≡ []
HasSent writing rep sent = (sent ≡ rep ∷ []) × IsFramed rep
HasSent closed rep sent = (sent ≡ rep ∷ []) × IsFramed rep
HasSent dropped rep sent = sent ≡ []

pub record Inv (c : Connection) : Type 0 where
  pub sound : IsSound c.parser c.request
  pub log : HasSent c.phase c.reply c.sent

pub start-Inv :
    (major minor : ℕ) (s : StatusType) → major < 256 → minor < 256 → Inv (start major minor s)
unfolding start
start-Inv major minor s h k = record { sound = fresh-IsSound major minor h k; log = refl }

module _ (files : Files) (root : Bytes) where
  answer-Inv :
      (c : Connection) (p : Parsed)
      → IsSound c.parser c.request
      → c.sent ≡ []
      → Inv (answer files root c p)
  unfolding answer do_write
  answer-Inv c p h e = ground (
    arith,
    handle_request-IsFramed files root c.request c.reply,
    stock_reply-IsFramed bad_request,
  )

  -- A read that completes is handled with no undefined behaviour.
  pub on_read-Inv :
      (c : Connection) (got : Bytes)
      → c.phase ≡ reading
      → Inv c
      → (d : Connection) × (on_read files root c got ≡ some d) × Inv d
  unfolding on_read
  on_read-Inv c got r v =
      let (p, e, s) = parse-IsSound c.parser c.request (overwrite got c.buffer) v.sound in
      let after : Connection = record c {
        buffer = overwrite got c.buffer;
        request = p.req;
        parser = p.state;
      } in
      (answer files root after p, rw (e, on_read), answer-Inv after p s (ground arith))

  pub Step-Inv : {c d : Connection} → Inv c → Step files root c d → Inv d
  Step-Inv {c} {d} v (read got r l e) =
      let (x, q, w) = on_read-Inv c got r v in let same : x ≡ d = cc in rw same at w
  Step-Inv v (read_error r e) = ground arith
  Step-Inv v (written true r e) = let f = some-inj e in ground arith
  Step-Inv v (written false r e) = absurd cc

  Reach-Inv : {c d : Connection} → Inv c → Reach files root c d → Inv d
  Reach-Inv v here = v
  Reach-Inv v (next r st) = Step-Inv (Reach-Inv v r) st

  -- In every state that a new connection reaches, whatever its reads bring, it has sent
  -- nothing while it reads or where a read failed, and exactly one reply, which is framed,
  -- while it writes and once it is closed; the parser's state and the request are sound. The
  -- version numbers of the new request are bytes.
  pub start-Reach-Inv :
      (major minor : ℕ) (s : StatusType) {c : Connection}
      → major < 256
      → minor < 256
      → Reach files root (start major minor s) c
      → Inv c
  start-Reach-Inv major minor s h k = Reach-Inv (start-Inv major minor s h k)

  -- A read that completes on a connection that a new one has come to is handled: the parser
  -- meets no undefined behaviour, and the connection goes on to write or to read. The version
  -- numbers of the new request are bytes.
  pub on_read-total :
      (major minor : ℕ) (status : StatusType) (c : Connection) (got : Bytes)
      → major < 256
      → minor < 256
      → Reach files root (start major minor status) c
      → c.phase ≡ reading
      → (d : Connection) × (on_read files root c got ≡ some d)
        × ((d.phase ≡ reading) ⊎ (d.phase ≡ writing))
  on_read-total major minor status c got h k r e =
      let v = start-Reach-Inv major minor status h k r in
      let (p, q, s) = parse-IsSound c.parser c.request (overwrite got c.buffer) v.sound in
      let after : Connection = record c {
        buffer = overwrite got c.buffer;
        request = p.req;
        parser = p.state;
      } in
      (
        answer files root after p,
        unfold on_read in rw (q, on_read),
        unfold answer do_write in ground arith,
      )
