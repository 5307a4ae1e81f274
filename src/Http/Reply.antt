-- ===== src/Http/Reply.antt =====
-- src/whz_common.hpp and src/whz_common.cpp: replies, their status lines and their stock pages.
pub mod Status
pub mod Wire
use work_horz.Base.{ℕ, List, [], ◌∷◌, ◌++◌, Bytes, codes, length}
use work_horz.Base.Decimal.{to_decimal}
use work_horz.Http.Message.{Header}

-- `unlisted n` is a value of the underlying std::uint16_t that no enumerator names.
pub data StatusType : Type 0 where
  ok created accepted no_content multiple_choices moved_permanently : StatusType
  moved_temporarily not_modified bad_request unauthorized forbidden not_found : StatusType
  internal_server_error not_implemented bad_gateway service_unavailable : StatusType
  unlisted : ℕ → StatusType

-- The enumerator's number.
unfoldable pub status_code : StatusType → ℕ
status_code ok = 200
status_code created = 201
status_code accepted = 202
status_code no_content = 204
status_code multiple_choices = 300
status_code moved_permanently = 301
status_code moved_temporarily = 302
status_code not_modified = 304
status_code bad_request = 400
status_code unauthorized = 401
status_code forbidden = 403
status_code not_found = 404
status_code internal_server_error = 500
status_code not_implemented = 501
status_code bad_gateway = 502
status_code service_unavailable = 503
status_code (unlisted n) = n

-- `status_strings::to_buffer`, with the strings that it returns.
pub to_buffer : StatusType → Bytes
to_buffer ok = codes "HTTP/1.0 200 OK\r\n"
to_buffer created = codes "HTTP/1.0 201 Created\r\n"
to_buffer accepted = codes "HTTP/1.0 202 Accepted\r\n"
to_buffer no_content = codes "HTTP/1.0 204 No Content\r\n"
to_buffer multiple_choices = codes "HTTP/1.0 300 Multiple Choices\r\n"
to_buffer moved_permanently = codes "HTTP/1.0 301 Moved Permanently\r\n"
to_buffer moved_temporarily = codes "HTTP/1.0 302 Moved Temporarily\r\n"
to_buffer not_modified = codes "HTTP/1.0 304 Not Modified\r\n"
to_buffer bad_request = codes "HTTP/1.0 400 Bad Request\r\n"
to_buffer unauthorized = codes "HTTP/1.0 401 Unauthorized\r\n"
to_buffer forbidden = codes "HTTP/1.0 403 Forbidden\r\n"
to_buffer not_found = codes "HTTP/1.0 404 Not Found\r\n"
to_buffer internal_server_error = codes "HTTP/1.0 500 Internal Server Error\r\n"
to_buffer not_implemented = codes "HTTP/1.0 501 Not Implemented\r\n"
to_buffer bad_gateway = codes "HTTP/1.0 502 Bad Gateway\r\n"
to_buffer service_unavailable = codes "HTTP/1.0 503 Service Unavailable\r\n"
to_buffer (unlisted n) = codes "HTTP/1.0 500 Internal Server Error\r\n"

abbrev page : Bytes → Bytes → Bytes
page title heading =
    codes "<html><head><title>"
    ++ (title ++ (codes "</title></head><body><h1>" ++ (heading ++ codes "</h1></body></html>")))

-- `reply_to_string`, with the pages that it returns.
unfoldable pub reply_to_string : StatusType → Bytes
reply_to_string ok = []
reply_to_string created = page (codes "Created") (codes "201 Created")
reply_to_string accepted = page (codes "Accepted") (codes "202 Accepted")
reply_to_string no_content = page (codes "No Content") (codes "204 Content")
reply_to_string multiple_choices = page (codes "Multiple Choices") (codes "300 Multiple Choices")
reply_to_string moved_permanently = page (codes "Moved Permanently") (codes "301 Moved Permanently")
reply_to_string moved_temporarily = page (codes "Moved Temporarily") (codes "302 Moved Temporarily")
reply_to_string not_modified = page (codes "Not Modified") (codes "304 Not Modified")
reply_to_string bad_request = page (codes "Bad Request") (codes "400 Bad Request")
reply_to_string unauthorized = page (codes "Unauthorized") (codes "401 Unauthorized")
reply_to_string forbidden = page (codes "Forbidden") (codes "403 Forbidden")
reply_to_string not_found = page (codes "Not Found") (codes "200 Default Text")
reply_to_string internal_server_error =
    page (codes "Internal Server Error") (codes "500 Internal Server Error")
reply_to_string not_implemented = page (codes "Not Implemented") (codes "501 Not Implemented")
reply_to_string bad_gateway = page (codes "Bad Gateway") (codes "502 Bad Gateway")
reply_to_string service_unavailable =
    page (codes "Service Unavailable") (codes "503 Service Unavailable")
reply_to_string (unlisted n) =
    page (codes "Internal Server Error") (codes "500 Internal Server Error")

pub record Reply : Type 0 where
  pub status : StatusType
  pub headers : List Header
  pub content : Bytes

-- The two headers that `stock_reply` and `handle_request` set.
abbrev pub content_headers : Bytes → List Header
content_headers content =
    record { name = codes "Content-Length"; value = to_decimal (length content) }
    ∷ record { name = codes "Content-Type"; value = codes "text/html" }
    ∷ []

unfoldable pub stock_reply : StatusType → Reply
stock_reply status = record {
  status = status;
  headers = content_headers (reply_to_string status);
  content = reply_to_string status;
}

abbrev name_value_separator : Bytes
name_value_separator = b':' ∷ b' ' ∷ []

abbrev crlf : Bytes
crlf = b'\r' ∷ b'\n' ∷ []

-- The loop of `to_buffers` over the headers, behind the buffers that are there.
pub header_buffers : List Bytes → List Header → List Bytes
header_buffers buffers [] = buffers
header_buffers buffers (h ∷ hs) =
    header_buffers (buffers ++ (h.name ∷ name_value_separator ∷ h.value ∷ crlf ∷ [])) hs

pub to_buffers : Reply → List Bytes
unfolding header_buffers
to_buffers rep = header_buffers (to_buffer rep.status ∷ []) rep.headers ++ (crlf ∷ rep.content ∷ [])
