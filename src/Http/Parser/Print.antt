-- ===== src/Http/Parser/Print.antt =====
-- Requests as they stand on the wire, and those that the grammar allows.
use work_horz.Base.{ℕ, false, List, [], ◌∷◌, ◌++◌, ◌≡◌, ◌≢◌, ◌==◌, Bytes, All}
use work_horz.Http.Chars.{is_ctl}
use work_horz.Http.Message.{Header, Request}
use work_horz.Base.Decimal.{to_decimal}
use work_horz.Http.Parser.Invariant.{IsToken, IsCleanHeader}

-- A request on the wire.
abbrev pub print_header : Header → Bytes → Bytes
print_header h rest = h.name ++ (b':' ∷ b' ' ∷ (h.value ++ (b'\r' ∷ b'\n' ∷ rest)))

abbrev pub print_headers : List Header → Bytes → Bytes
print_headers [] rest = rest
print_headers (h ∷ hs) rest = print_header h (print_headers hs rest)

abbrev pub print_version : ℕ → ℕ → Bytes → Bytes
print_version major minor rest =
    b'H'
    ∷ b'T'
    ∷ b'T'
    ∷ b'P'
    ∷ b'/'
    ∷ (to_decimal major ++ (b'.' ∷ (to_decimal minor ++ (b'\r' ∷ b'\n' ∷ rest))))

abbrev pub print_request : Request → Bytes → Bytes
print_request q rest =
    q.method
    ++ (b' '
        ∷ (q.uri
            ++ (b' '
                ∷ print_version q.http_version_major q.http_version_minor
                    (print_headers q.headers (b'\r' ∷ b'\n' ∷ rest)))))

-- A uri has no control character and no space.
abbrev pub IsUri : Bytes → Type 0
IsUri = All (λ c. (is_ctl c ≡ false) × ((c == b' ') ≡ false))

pub record IsPrintable (q : Request) : Type 0 where
  pub method_token : IsToken q.method
  pub method_ne_nil : q.method ≢ []
  pub uri_ok : IsUri q.uri
  pub headers_clean : All IsCleanHeader q.headers
