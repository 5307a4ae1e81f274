-- ===== src/Http/Session.antt =====
-- src/whz_connection.cpp, src/whz_request_handler.cpp and src/whz_common.cpp: a whole session, from
-- the request on the wire to the reply that a client reads.
use work_horz.Base.{
  false, codes, starts_with, contains, ◌⊎◌, ℕ, true, List, [], ◌∷◌, ◌++◌, Option, none, some, ◌≡◌,
  refl, ap, ◌∙◌, Bytes, take, take-length-append, append_assoc,
}
use work_horz.Http.Message.{Header}
use work_horz.Http.Parser.{parse, header_line_start}
use work_horz.Http.Parser.RoundTrip.{fresh}
use work_horz.Http.Parser.Stream.{parse-append, resume}
use work_horz.Http.Url.{url_decode}
use work_horz.Http.Url.Encoded.{Encodes}
use work_horz.Http.Handler.{Files}
use work_horz.Http.Reply.{StatusType, Reply, to_buffer, to_buffers}
use work_horz.Http.Reply.Wire.{wire, reply-read, declared_length, IsFramed}
use work_horz.Http.Connection.{closed, Connection, start, Reach}

-- What a client makes of the bytes behind the status line: the header fields, and as much of what
-- follows as they declare.
abbrev pub receive : Bytes → Option (List Header × Bytes)
receive bytes = elim (parse header_line_start (fresh 0 0) bytes) [
  | none ↦ none
  | some p ↦ elim (declared_length p.req.headers) [
    | none ↦ none
    | some n ↦ some (p.req.headers, take n p.rest)
  ]
]

-- The bytes are a status line, and behind it a client reads the headers and the content of the reply.
abbrev pub Delivers : Bytes → Reply → Type 0
Delivers bytes rep =
    (fields : Bytes) × (bytes ≡ to_buffer rep.status ++ fields)
    × (receive fields ≡ some (rep.headers, rep.content))

-- A framed reply is delivered, whatever the connection carries behind it.
pub to_buffers-Delivers :
    (rep : Reply) (more : Bytes) → IsFramed rep → Delivers (wire (to_buffers rep) ++ more) rep
to_buffers-Delivers rep more v =
    let (fields, sent, parsed) = reply-read rep (fresh 0 0) v.headers_clean in
    (
      fields ++ more,
      ap (λ (z : Bytes). z ++ more) sent ∙ append_assoc (to_buffer rep.status) fields more,
      rw (parse-append header_line_start (fresh 0 0) fields more, receive)
          (rw (parsed, resume, receive)
            (rw (v.length_declared, receive) (rw (take-length-append rep.content more) refl))),
    )

module _ (files : Files) (root : Bytes) (major minor : ℕ) (status : StatusType) where
  -- The connection comes to be closed, having sent one reply, which a client reads from the bytes of it,
  -- whatever follows them.
  abbrev pub Serves : Reply → Bytes → Type 0
  Serves rep more =
      (c : Connection) × Reach files root (start major minor status) c
      × (c.phase ≡ closed)
      × (c.sent ≡ rep ∷ [])
      × Delivers (wire (to_buffers rep) ++ more) rep

  -- The uri is not decoded, or encodes a path that does not begin with `/`, or that holds `..`.
  abbrev pub IsRefused : Bytes → Type 0
  IsRefused uri =
      (url_decode uri ≡ none)
      ⊎ ((path : Bytes) × Encodes uri path
          × ((starts_with path (codes "/") ≡ false) ⊎ (contains path (codes "..") ≡ true)))
