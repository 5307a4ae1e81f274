-- ===== src/Http/Parser/RoundTrip.antt =====
-- The parser reads back every request that is printed, whatever follows it.
use work_horz.Base.{ℕ, ◌<◌, ◌%◌, [], ◌∷◌, some, ◌≡◌, ◌≢◌, refl, ◌∙◌, Bytes, All, arith}
use work_horz.Http.Message.{Request}
use work_horz.Http.Parser.{good, method_start, method, expecting_newline_3, consume, parse, reset}
use work_horz.Http.Parser.Invariant.{IsToken, IsCleanHeader, IsSound}
use work_horz.Http.Parser.Print.{print_request, IsUri, IsPrintable}
use work_horz.Http.Parser.RequestLine.{parse-go, parse_method, parse_uri, parse_version}
use work_horz.Http.Parser.Fields.{parse_headers}

-- The request as the parser finds it: `request_` of a new connection, whose version fields nothing
-- has set.
abbrev pub fresh : ℕ → ℕ → Request
fresh major minor = record {
  method = [];
  uri = [];
  http_version_major = major;
  http_version_minor = minor;
  headers = [];
}

pub fresh-IsSound :
    (major minor : ℕ) → major < 256 → minor < 256 → IsSound reset (fresh major minor)
fresh-IsSound major minor h k = (
  record { method_token = tt; uri_text = tt; headers_clean = tt; major_byte = h; minor_byte = k },
  tt,
)

parse_request_at :
    (m : Bytes) (q : Request) (major minor : ℕ) (rest : Bytes)
    → IsToken m
    → m ≢ []
    → IsUri q.uri
    → All IsCleanHeader q.headers
    → parse reset (fresh major minor) (print_request (record q { method = m }) rest)
      ≡ some (record {
        result = good;
        rest = rest;
        state = expecting_newline_3;
        req = record q {
          method = m;
          http_version_major = q.http_version_major % 256;
          http_version_minor = q.http_version_minor % 256;
        };
      })
parse_request_at [] q major minor rest t ne u k = absurd (ne refl)
parse_request_at (c ∷ m) q major minor rest t ne u k =
    parse-go method_start (fresh major minor) c _ method
      (record (fresh major minor) { method = c ∷ [] }) (unfold consume in ground (arith, t.0))
    ∙ parse_method m _ _ t.1
    ∙ parse_uri q.uri _ _ u
    ∙ parse_version q.http_version_major q.http_version_minor _ _
    ∙ parse_headers q.headers _ _ k
    ∙ unfold parse consume in refl

-- A request of the grammar (a method that is a token and not empty, a uri with no control
-- character and no space, headers whose names are tokens and not empty and whose values have no
-- control character) is accepted when it is printed and parsed from the initial state into a
-- request with empty fields. It is read back whole but for the two version numbers, which are
-- kept modulo 256, and nothing behind it is read.
pub parse-print_request :
    (q : Request) (major minor : ℕ) (rest : Bytes)
    → IsPrintable q
    → parse reset (fresh major minor) (print_request q rest)
      ≡ some (record {
        result = good;
        rest = rest;
        state = expecting_newline_3;
        req = record q {
          http_version_major = q.http_version_major % 256;
          http_version_minor = q.http_version_minor % 256;
        };
      })
parse-print_request q major minor rest h =
    parse_request_at q.method q major minor rest h.method_token h.method_ne_nil h.uri_ok
      h.headers_clean
