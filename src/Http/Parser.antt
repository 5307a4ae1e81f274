-- ===== src/Http/Parser.antt =====
-- src/whz_request_parser.cpp and .hpp: the request parser, one byte at a time. `state_` and the
-- request are passed along; `none` stands for the undefined behaviour of `back()` on an empty vector.
pub mod Invariant
pub mod Stream
pub mod Framing
pub mod Print
mod RequestLine
pub mod Fields
pub mod RoundTrip
use mathlib.Core.Option
use work_horz.Base.{
  ℕ, ◌+◌, ◌-◌, ◌*◌, ◌%◌, Bool, true, false, not, ◌&&◌, ◌||◌, List, [], ◌∷◌, ◌++◌, Option, none,
  some, ◌==◌, if◌then◌else◌, Bytes, is_empty,
}
use work_horz.Http.Chars.{is_ctl, is_digit, not_token}
use work_horz.Http.Message.{Header, Request}

pub data ResultType : Type 0 where
  good bad indeterminate : ResultType

pub data State : Type 0 where
  method_start method uri : State
  http_version_h http_version_t_1 http_version_t_2 http_version_p http_version_slash : State
  http_version_major_start http_version_major http_version_minor_start http_version_minor : State
  expecting_newline_1 header_line_start header_lws header_name : State
  space_before_header_value header_value expecting_newline_2 expecting_newline_3 : State

-- What `consume` returns, with the parser's state and the request after the call.
pub record Outcome : Type 0 where
  pub result : ResultType
  pub state : State
  pub req : Request

-- `request_parser::request_parser` and `reset`.
abbrev pub reset : State
reset = method_start

-- `state_ = s; return indeterminate;`
abbrev pub go : State → Request → Option Outcome
go s r = some (record { result = indeterminate; state = s; req = r })

-- `return bad;`
abbrev pub refuse : State → Request → Option Outcome
refuse s r = some (record { result = bad; state = s; req = r })

-- `if (c == want) state_ = next; else return bad;`
abbrev expect : ℕ → State → State → Request → ℕ → Option Outcome
expect want next s r c = if c == want then go next r else refuse s r

-- `v * 10 + c - '0'`, stored in a std::uint8_t.
abbrev pub add_digit : ℕ → ℕ → ℕ
add_digit v c = (v * 10 + c - b'0') % 256

-- An update of `headers.back()`.
pub on_back : (Header → Header) → List Header → Option (List Header)
on_back f [] = none
on_back f (h ∷ []) = some (f h ∷ [])
on_back f (h ∷ k ∷ hs) = Option.map (◌∷◌ h) (on_back f (k ∷ hs))

abbrev pub push_name : ℕ → Header → Header
push_name c h = record h { name = h.name ++ c ∷ [] }

abbrev pub push_value : ℕ → Header → Header
push_value c h = record h { value = h.value ++ c ∷ [] }

-- The request with an update of its last header, in state `s`.
abbrev pub edit_back : (Header → Header) → State → Request → Option Outcome
edit_back f s r = elim (on_back f r.headers) [
  | none ↦ none
  | some hs ↦ go s (record r { headers = hs })
]

-- `header()` with the first byte of its name.
abbrev pub new_header : ℕ → Header
new_header c = record { name = c ∷ []; value = [] }

pub consume : State → Request → ℕ → Option Outcome
consume method_start r c =
    if not_token c
    then refuse method_start r
    else go method (record r { method = r.method ++ c ∷ [] })
consume method r c =
    if c == b' '
    then go uri r
    else if not_token c
    then refuse method r
    else go method (record r { method = r.method ++ c ∷ [] })
consume uri r c =
    if c == b' '
    then go http_version_h r
    else if is_ctl c
    then refuse uri r
    else go uri (record r { uri = r.uri ++ c ∷ [] })
consume http_version_h r c = expect b'H' http_version_t_1 http_version_h r c
consume http_version_t_1 r c = expect b'T' http_version_t_2 http_version_t_1 r c
consume http_version_t_2 r c = expect b'T' http_version_p http_version_t_2 r c
consume http_version_p r c = expect b'P' http_version_slash http_version_p r c
consume http_version_slash r c =
    if c == b'/'
    then go http_version_major_start (record r { http_version_major = 0; http_version_minor = 0 })
    else refuse http_version_slash r
consume http_version_major_start r c =
    if is_digit c
    then go http_version_major (record r { http_version_major = add_digit r.http_version_major c })
    else refuse http_version_major_start r
consume http_version_major r c =
    if c == b'.'
    then go http_version_minor_start r
    else if is_digit c
    then go http_version_major (record r { http_version_major = add_digit r.http_version_major c })
    else refuse http_version_major r
consume http_version_minor_start r c =
    if is_digit c
    then go http_version_minor (record r { http_version_minor = add_digit r.http_version_minor c })
    else refuse http_version_minor_start r
consume http_version_minor r c =
    if c == b'\r'
    then go expecting_newline_1 r
    else if is_digit c
    then go http_version_minor (record r { http_version_minor = add_digit r.http_version_minor c })
    else refuse http_version_minor r
consume expecting_newline_1 r c = expect b'\n' header_line_start expecting_newline_1 r c
consume header_line_start r c =
    if c == b'\r'
    then go expecting_newline_3 r
    else if not (is_empty r.headers) && (c == b' ' || c == b'\t')
    then go header_lws r
    else if not_token c
    then refuse header_line_start r
    else go header_name (record r { headers = r.headers ++ new_header c ∷ [] })
consume header_lws r c =
    if c == b'\r'
    then go expecting_newline_2 r
    else if c == b' ' || c == b'\t'
    then go header_lws r
    else if is_ctl c
    then refuse header_lws r
    else edit_back (push_value c) header_value r
consume header_name r c =
    if c == b':'
    then go space_before_header_value r
    else if not_token c
    then refuse header_name r
    else edit_back (push_name c) header_name r
consume space_before_header_value r c = expect b' ' header_value space_before_header_value r c
consume header_value r c =
    if c == b'\r'
    then go expecting_newline_2 r
    else if is_ctl c
    then refuse header_value r
    else edit_back (push_value c) header_value r
consume expecting_newline_2 r c = expect b'\n' header_line_start expecting_newline_2 r c
consume expecting_newline_3 r c =
    some
      (record { result = if c == b'\n' then good else bad; state = expecting_newline_3; req = r })

-- What `parse` returns, with the parser's state and the request after the call.
pub record Parsed : Type 0 where
  pub result : ResultType
  pub rest : Bytes
  pub state : State
  pub req : Request

-- What the loop of `parse` does with one result of `consume`: `next` is the rest of the loop.
abbrev pub continue_with : Outcome → Bytes → Option Parsed → Option Parsed
continue_with o rest next = elim o.result [
  | indeterminate ↦ next
  | other ↦ some (record { result = other; rest = rest; state = o.state; req = o.req })
]

unfoldable pub parse : State → Request → Bytes → Option Parsed
parse s r [] = some (record { result = indeterminate; rest = []; state = s; req = r })
parse s r (c ∷ cs) = elim (consume s r c) [
  | none ↦ none
  | some o ↦ continue_with o cs (parse o.state o.req cs)
]
