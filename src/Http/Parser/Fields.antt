-- ===== src/Http/Parser/Fields.antt =====
-- src/whz_request_parser.cpp on the header fields.
use work_horz.Base.{
  ℕ, false, List, [], ◌∷◌, ◌++◌, some, ◌≡◌, ◌≢◌, refl, ◌∙◌, Bytes, All, append-nil, append_assoc,
  arith,
}
use work_horz.Http.Chars.{
  is_ctl, not_token, token-ne_space, token-ne_colon, token-ne_tab, token-not-ctl, not-ctl-ne_cr,
}
use work_horz.Http.Message.{Header, Request}
use work_horz.Http.Parser.{
  good, expecting_newline_3, header_name, header_value, header_line_start, on_back, push_name,
  push_value, new_header, consume, parse, go,
}
use work_horz.Http.Parser.Invariant.{IsToken, IsText, IsCleanHeader}
use work_horz.Http.Parser.Print.{print_header, print_headers}
use work_horz.Http.Parser.RequestLine.{parse-go}

on_back-concat :
    (f : Header → Header) (hs : List Header) (h : Header)
    → on_back f (hs ++ h ∷ []) ≡ some (hs ++ f h ∷ [])
unfolding on_back
on_back-concat f [] h = refl
on_back-concat f (x ∷ []) h = refl
on_back-concat f (x ∷ y ∷ hs) h = rw (on_back-concat f (y ∷ hs) h)

-- The request with one more header.
abbrev with_header : Request → Header → Request
with_header r h = record r { headers = r.headers ++ h ∷ [] }

consume_name :
    (r : Request) (h : Header) (c : ℕ)
    → not_token c ≡ false
    → consume header_name (with_header r h) c ≡ go header_name (with_header r (push_name c h))
unfolding consume
consume_name r h c t = ground (arith, token-ne_colon c t, on_back-concat (push_name c) r.headers h)

consume_value :
    (r : Request) (h : Header) (c : ℕ)
    → is_ctl c ≡ false
    → consume header_value (with_header r h) c ≡ go header_value (with_header r (push_value c h))
unfolding consume
consume_value r h c t = ground (arith, not-ctl-ne_cr c t, on_back-concat (push_value c) r.headers h)

parse_name :
    (n : Bytes) (r : Request) (h : Header) (rest : Bytes)
    → IsToken n
    → parse header_name (with_header r h) (n ++ b':' ∷ b' ' ∷ rest)
      ≡ parse header_value (with_header r (record h { name = h.name ++ n })) rest
parse_name [] r h rest t = rw append-nil (unfold parse consume in refl)
parse_name (c ∷ n) r h rest t =
    parse-go header_name (with_header r h) c _ header_name (with_header r (push_name c h))
      (consume_name r h c t.0)
    ∙ parse_name n r (push_name c h) rest t.1
    ∙ rw append_assoc

parse_value :
    (v : Bytes) (r : Request) (h : Header) (rest : Bytes)
    → IsText v
    → parse header_value (with_header r h) (v ++ b'\r' ∷ b'\n' ∷ rest)
      ≡ parse header_line_start (with_header r (record h { value = h.value ++ v })) rest
parse_value [] r h rest t = rw append-nil (unfold parse consume in refl)
parse_value (c ∷ v) r h rest t =
    parse-go header_value (with_header r h) c _ header_value (with_header r (push_value c h))
      (consume_value r h c t.0)
    ∙ parse_value v r (push_value c h) rest t.1
    ∙ rw append_assoc

consume_first :
    (r : Request) (c : ℕ)
    → not_token c ≡ false
    → consume header_line_start r c ≡ go header_name (with_header r (new_header c))
unfolding consume
consume_first r c t =
    ground (arith, token-ne_space c t, token-ne_tab c t, not-ctl-ne_cr c (token-not-ctl c t))

parse_header_at :
    (n v : Bytes) (r : Request) (rest : Bytes)
    → IsToken n
    → n ≢ []
    → IsText v
    → parse header_line_start r (print_header (record { name = n; value = v }) rest)
      ≡ parse header_line_start (with_header r (record { name = n; value = v })) rest
parse_header_at [] v r rest t ne x = absurd (ne refl)
parse_header_at (c ∷ n) v r rest t ne x =
    parse-go header_line_start r c _ header_name (with_header r (new_header c))
      (consume_first r c t.0)
    ∙ parse_name n r (new_header c) _ t.1
    ∙ parse_value v r (record { name = c ∷ n; value = [] }) rest x

pub parse_headers :
    (hs : List Header) (r : Request) (rest : Bytes)
    → All IsCleanHeader hs
    → parse header_line_start r (print_headers hs rest)
      ≡ parse header_line_start (record r { headers = r.headers ++ hs }) rest
parse_headers [] r rest h = rw append-nil
parse_headers (x ∷ hs) r rest h =
    parse_header_at x.name x.value r _ h.0.name_token h.0.name_ne_nil h.0.value_text
    ∙ parse_headers hs (with_header r x) rest h.1
    ∙ rw append_assoc

-- Header fields and an empty line are read back, and what follows them is left unread.
pub parse_fields :
    (hs : List Header) (r : Request) (rest : Bytes)
    → All IsCleanHeader hs
    → parse header_line_start r (print_headers hs (b'\r' ∷ b'\n' ∷ rest))
      ≡ some (record {
        result = good;
        rest = rest;
        state = expecting_newline_3;
        req = record r { headers = r.headers ++ hs };
      })
parse_fields hs r rest h =
    parse_headers hs r (b'\r' ∷ b'\n' ∷ rest) h ∙ unfold parse consume in refl
