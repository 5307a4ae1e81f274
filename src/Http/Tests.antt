-- ===== src/Http/Tests.antt =====
-- Concrete runs of the parser, the decoder, the handler and the connection.
use work_horz.Base.{
  ◌⊎◌, [], ◌∷◌, ◌++◌, none, some, ◌≡◌, refl, Bytes, bytes_eq, codes, arith, starts_with, contains,
  if◌then◌else◌,
}
use work_horz.Http.Chars.{is_char, is_ctl, is_tspecial, not_token}
use work_horz.Http.Message.{Header, Request}
use work_horz.Http.Parser.{good, reset, parse, Parsed, expecting_newline_3}
use work_horz.Http.Parser.Framing.{parse-good-Ends}
use work_horz.Http.Parser.Invariant.{IsSound, parse-IsSound}
use work_horz.Http.Parser.Print.{print_request, IsPrintable}
use work_horz.Http.Parser.RoundTrip.{fresh, fresh-IsSound, parse-print_request}
use work_horz.Http.Connection.{
  Connection, start, on_read, here, Reach, next, read, writing, reading,
}
use work_horz.Http.Connection.Lifecycle.{Inv, start-Reach-Inv, on_read-total}
use work_horz.Http.Connection.Segments.{blank, HasAnswered, on_read_split}
use work_horz.Http.Handler.{last, Files, handle_request, is_allowed, with_index, c_str}
use work_horz.Http.Handler.Confined.{IsConfined, handle_request_confined}
use work_horz.Http.Handler.Served.{stock_or_file, handle_request_allowed}
use work_horz.Http.Reply.{ok, bad_request, stock_reply}
use work_horz.Http.Url.{url_decode, hex_digit}
use work_horz.Http.Url.Encoded.{Encodes, done, as_is, as_plus, as_hex, url_decode-Encodes}
use work_horz.Base.Decimal.{to_decimal}
use work_horz.Http.Connection.Stream.{Refines, stream, Reach-Refines}

abbrev host : Header
host = record { name = codes "Host"; value = codes "a" }

-- `GET /b HTTP/1.1` with one header.
abbrev request : Request
request = record {
  method = codes "GET";
  uri = codes "/b";
  http_version_major = 1;
  http_version_minor = 1;
  headers = host ∷ [];
}

request-IsPrintable : IsPrintable request
unfolding not_token is_ctl is_tspecial is_char
request-IsPrintable = record {
  method_token = (refl, (refl, (refl, tt)));
  method_ne_nil = λ e. cc;
  uri_ok = ((refl, refl), ((refl, refl), tt));
  headers_clean = (
    record {
      name_token = (refl, (refl, (refl, (refl, tt))));
      name_ne_nil = λ e. cc;
      value_text = (refl, tt);
    },
    tt,
  );
}

parse-print_request_example :
    parse reset (fresh 0 0) (print_request request (codes "x"))
    ≡ some (record { result = good; rest = codes "x"; state = expecting_newline_3; req = request })
parse-print_request_example = parse-print_request request 0 0 (codes "x") request-IsPrintable

parse-IsSound_example :
    (p : Parsed) × (parse reset (fresh 0 0) (codes "GET /b") ≡ some p) × IsSound p.state p.req
parse-IsSound_example =
    parse-IsSound reset (fresh 0 0) (codes "GET /b") (fresh-IsSound 0 0 (omega arith) (omega arith))

parse-good-Ends_example :
    (k : Bytes) × (print_request request (codes "x") ≡ k ++ (b'\n' ∷ b'\r' ∷ b'\n' ∷ codes "x"))
parse-good-Ends_example =
    parse-good-Ends (fresh 0 0) (print_request request (codes "x")) _ parse-print_request_example
      refl

-- The decoder: `/%41+` is an encoding of `/A `, and `%2e` one of `.`.
encoded : Encodes (codes "/%41+") (codes "/A ")
unfolding hex_digit
encoded =
    as_is b'/' (λ e. omega (arith, e)) (λ e. omega (arith, e))
      (as_hex b'%' b'4' b'1' 4 1 65 refl refl refl refl (as_plus b'+' b' ' refl refl done))

url_decode-Encodes_example : url_decode (codes "/%41+") ≡ some (codes "/A ")
url_decode-Encodes_example = url_decode-Encodes encoded

-- A root with one file.
abbrev files : Files
files path = if bytes_eq path (codes "/srv/b") then some (codes "hi") else none

abbrev root : Bytes
root = codes "/srv"

path_encoded : Encodes (codes "/b") (codes "/b")
path_encoded =
    as_is b'/' (λ e. omega (arith, e)) (λ e. omega (arith, e))
      (as_is b'b' (λ e. omega (arith, e)) (λ e. omega (arith, e)) done)

handle_request_allowed_example :
    handle_request files root request (blank ok) ≡ stock_or_file (some (codes "hi"))
unfolding with_index c_str last bytes_eq
handle_request_allowed_example =
    handle_request_allowed files root request (blank ok) (codes "/b") path_encoded
      (unfold is_allowed contains starts_with in refl) refl

abbrev parent : Request
parent = record request { uri = codes "%2E." }

-- Two roots that differ outside of the confined paths only.
abbrev others : Files
others path = if bytes_eq path (codes "secret") then some [] else files path

confined_agree :
    (path : Bytes) → IsConfined path → files (c_str (root ++ path)) ≡ others (c_str (root ++ path))
unfolding c_str bytes_eq
confined_agree path h = refl

handle_request_confined_example :
    handle_request files root parent (blank ok) ≡ handle_request others root parent (blank ok)
handle_request_confined_example =
    handle_request_confined files others root parent (blank ok) confined_agree

-- A connection that has read nothing yet.
start-Reach-Inv_example : Inv (start 0 0 ok)
start-Reach-Inv_example = start-Reach-Inv files root 0 0 ok (omega arith) (omega arith) here

on_read_split_example :
    HasAnswered (stock_reply bad_request) (on_read files root (start 0 0 ok) (codes "GET /b HTTP"))
on_read_split_example =
    on_read_split files root 0 0 ok request (codes "GET /b HTTP") (codes "/1.1\r\nHost: a\r\n\r\n")
      (omega arith) (omega arith) request-IsPrintable (unfold to_decimal in refl) (λ e. cc)
      (omega arith)

-- A new connection whose first read gets three bytes.
first_read :
    (d : Connection) × (on_read files root (start 0 0 ok) (codes "GET") ≡ some d)
    × ((d.phase ≡ reading) ⊎ (d.phase ≡ writing))
first_read =
    on_read-total files root 0 0 ok (start 0 0 ok) (codes "GET") (omega arith) (omega arith) here
      (unfold start in refl)

abbrev after_read : Reach files root (start 0 0 ok) first_read.0
after_read = next here (read (codes "GET") (unfold start in refl) (omega arith) first_read.1)

Reach-Refines_example : Refines files root 0 0 ok (stream files root 0 0 ok after_read) first_read.0
Reach-Refines_example = Reach-Refines files root 0 0 ok after_read

-- A request for `..`, which is encoded in part.
abbrev sneaky : Request
sneaky = record request { uri = codes "/%2e." }
