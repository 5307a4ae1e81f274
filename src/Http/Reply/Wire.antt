-- ===== src/Http/Reply/Wire.antt =====
-- src/whz_common.cpp: the bytes of a reply on the wire, and what a reader makes of them.
use work_horz.Base.{
  ℕ, List, [], ◌∷◌, ◌++◌, Option, none, some, ◌≡◌, refl, sym, ap, ◌∙◌, if◌then◌else◌, Bytes, length,
  All, bytes_eq, codes, append-nil, append_assoc, arith,
}
use work_horz.Base.Decimal.{of_decimal, of_decimal-to_decimal, to_decimal-IsDigit, IsDigit}
use work_horz.Http.Chars.{is_ctl, not_token, is_tspecial, is_char}
use work_horz.Http.Message.{Header, Request}
use work_horz.Http.Parser.{good, header_line_start, expecting_newline_3, parse}
use work_horz.Http.Parser.Invariant.{IsCleanHeader, IsText}
use work_horz.Http.Parser.Print.{print_headers}
use work_horz.Http.Parser.Fields.{parse_fields}
use work_horz.Http.Reply.{
  StatusType, Reply, content_headers, stock_reply, reply_to_string, to_buffer, header_buffers,
  to_buffers,
}

-- What boost::asio::async_write sends: the buffers, one after the other.
abbrev pub wire : List Bytes → Bytes
wire [] = []
wire (b ∷ bs) = b ++ wire bs

wire-append : (a b : List Bytes) → wire (a ++ b) ≡ wire a ++ wire b
wire-append [] b = refl
wire-append (x ∷ a) b = rw (wire-append a b) (sym (append_assoc x (wire a) (wire b)))

header_buffers-wire :
    (hs : List Header) (buffers : List Bytes) (rest : Bytes)
    → wire (header_buffers buffers hs) ++ rest ≡ wire buffers ++ print_headers hs rest
unfolding header_buffers
header_buffers-wire [] buffers rest = refl
header_buffers-wire (h ∷ hs) buffers rest =
    header_buffers-wire hs _ rest ∙ simp (wire-append, append_assoc, append-nil)

-- The reply on the wire is its status line, its headers, an empty line and the content.
to_buffers-wire :
    (rep : Reply)
    → wire (to_buffers rep)
      ≡ to_buffer rep.status ++ print_headers rep.headers (b'\r' ∷ b'\n' ∷ rep.content)
unfolding to_buffers
to_buffers-wire rep =
    wire-append (header_buffers (to_buffer rep.status ∷ []) rep.headers) _
    ∙ header_buffers-wire rep.headers (to_buffer rep.status ∷ []) _
    ∙ simp append-nil

IsDigit-not_ctl : (ds : Bytes) → All IsDigit ds → IsText ds
unfolding is_ctl
IsDigit-not_ctl [] h = tt
IsDigit-not_ctl (d ∷ ds) h = (ground arith, IsDigit-not_ctl ds h.1)

content_headers-clean : (content : Bytes) → All IsCleanHeader (content_headers content)
unfolding is_ctl is_char is_tspecial not_token
content_headers-clean content = (
  record {
    name_token = grind arith;
    name_ne_nil = λ e. cc;
    value_text = IsDigit-not_ctl _ (to_decimal-IsDigit _);
  },
  (record { name_token = grind arith; name_ne_nil = λ e. cc; value_text = grind arith }, tt),
)

-- A reply whose headers are clean is, on the wire, its status line and then fields; the parser,
-- put at the start of a header line, reads from these fields the reply's headers, behind those
-- of the request that it is given, and leaves the content unread.
pub reply-read :
    (rep : Reply) (r : Request)
    → All IsCleanHeader rep.headers
    → (fields : Bytes) × (wire (to_buffers rep) ≡ to_buffer rep.status ++ fields)
      × (parse header_line_start r fields
          ≡ some (record {
            result = good;
            rest = rep.content;
            state = expecting_newline_3;
            req = record r { headers = r.headers ++ rep.headers };
          }))
reply-read rep r h = (
  print_headers rep.headers (b'\r' ∷ b'\n' ∷ rep.content),
  to_buffers-wire rep,
  parse_fields rep.headers r rep.content h,
)

-- The number in the first `Content-Length` header.
pub declared_length : List Header → Option ℕ
unfolding bytes_eq
declared_length [] = none
declared_length (h ∷ hs) =
    if bytes_eq h.name (codes "Content-Length")
    then some (of_decimal 0 h.value)
    else declared_length hs

-- The reply can be framed: its headers survive the wire, and the length that they declare is that
-- of the content.
pub record IsFramed (rep : Reply) : Type 0 where
  pub headers_clean : All IsCleanHeader rep.headers
  pub length_declared : declared_length rep.headers ≡ some (length rep.content)

pub content_headers-IsFramed :
    (status : StatusType) (content : Bytes)
    → IsFramed (record { status = status; headers = content_headers content; content = content })
unfolding declared_length
content_headers-IsFramed status content = record {
  headers_clean = content_headers-clean content;
  length_declared = ap some (of_decimal-to_decimal (length content));
}

-- Every stock reply is framed.
pub stock_reply-IsFramed : (status : StatusType) → IsFramed (stock_reply status)
unfolding stock_reply
stock_reply-IsFramed status = content_headers-IsFramed status (reply_to_string status)
