-- ===== src/Http/Parser/RequestLine.antt =====
-- src/whz_request_parser.cpp on the request line: each lemma runs the parser over one piece of it.
use work_horz.Base.{
  ℕ, ◌+◌, ◌-◌, ◌*◌, ◌%◌, true, false, [], ◌∷◌, ◌++◌, ◌≡◌, refl, ap, ◌∙◌, ◌==◌, Bytes, All,
  append-nil, append_assoc, arith,
}
use work_horz.Http.Chars.{is_digit, token-ne_space}
use work_horz.Http.Message.{Request}
use work_horz.Http.Parser.{
  State, method, uri, header_line_start, http_version_h, http_version_major_start,
  http_version_major, http_version_minor_start, http_version_minor, expecting_newline_1, consume,
  parse, go, add_digit,
}
use work_horz.Base.Decimal.{
  to_decimal, of_decimal, IsDigit, to_decimal-cons, to_decimal-IsDigit, of_decimal-to_decimal,
}
use work_horz.Http.Parser.Invariant.{IsToken}
use work_horz.Http.Parser.Print.{print_version, IsUri}

-- One round that goes on.
pub parse-go :
    (s : State) (r : Request) (c : ℕ) (cs : Bytes) (t : State) (q : Request)
    → consume s r c ≡ go t q
    → parse s r (c ∷ cs) ≡ parse t q cs
unfolding parse
parse-go s r c cs t q e = rw (e, parse)

pub parse_method :
    (m : Bytes) (r : Request) (rest : Bytes)
    → IsToken m
    → parse method r (m ++ b' ' ∷ rest) ≡ parse uri (record r { method = r.method ++ m }) rest
parse_method [] r rest h =
    rw append-nil (parse-go method r b' ' rest uri r (unfold consume in refl))
parse_method (c ∷ m) r rest h =
    parse-go method r c (m ++ b' ' ∷ rest) method (record r { method = r.method ++ c ∷ [] })
      (unfold consume in ground (arith, token-ne_space c h.0, h.0))
    ∙ parse_method m (record r { method = r.method ++ c ∷ [] }) rest h.1
    ∙ rw append_assoc

pub parse_uri :
    (u : Bytes) (r : Request) (rest : Bytes)
    → IsUri u
    → parse uri r (u ++ b' ' ∷ rest) ≡ parse http_version_h (record r { uri = r.uri ++ u }) rest
parse_uri [] r rest h =
    rw append-nil (parse-go uri r b' ' rest http_version_h r (unfold consume in refl))
parse_uri (c ∷ u) r rest h =
    parse-go uri r c (u ++ b' ' ∷ rest) uri (record r { uri = r.uri ++ c ∷ [] })
      (unfold consume in ground (arith, h.0))
    ∙ parse_uri u (record r { uri = r.uri ++ c ∷ [] }) rest h.1
    ∙ rw append_assoc

-- The value that the parser has after some digits: a std::uint8_t.
abbrev wrapped : ℕ → Bytes → ℕ
wrapped v [] = v
wrapped v (c ∷ ds) = wrapped (add_digit v c) ds

wrapped-of_decimal :
    (ds : Bytes) (u v : ℕ) → All IsDigit ds → u ≡ v % 256 → wrapped u ds ≡ of_decimal v ds % 256
unfolding of_decimal
wrapped-of_decimal [] u v h e = e
wrapped-of_decimal (c ∷ ds) u v h e =
    wrapped-of_decimal ds (add_digit u c) (v * 10 + (c - b'0')) h.1 (next h.0)
  where
    next : IsDigit c → add_digit u c ≡ (v * 10 + (c - b'0')) % 256
    next d = rw e (omega arith)

wrapped-to_decimal : (n : ℕ) → wrapped 0 (to_decimal n) ≡ n % 256
wrapped-to_decimal n =
    wrapped-of_decimal (to_decimal n) 0 0 (to_decimal-IsDigit n) (omega arith)
    ∙ ap (λ k. k % 256) (of_decimal-to_decimal n)

IsDigit-is_digit :
    (c : ℕ) → IsDigit c → (is_digit c ≡ true) × ((c == b'.') ≡ false) × ((c == b'\r') ≡ false)
unfolding is_digit
IsDigit-is_digit c h = ground arith

parse_major_digits :
    (ds : Bytes) (r : Request) (rest : Bytes)
    → All IsDigit ds
    → parse http_version_major r (ds ++ b'.' ∷ rest)
      ≡ parse http_version_minor_start
          (record r { http_version_major = wrapped r.http_version_major ds })
          rest
parse_major_digits [] r rest h =
    parse-go http_version_major r b'.' rest http_version_minor_start r (unfold consume in refl)
parse_major_digits (c ∷ ds) r rest h =
    let q : Request = record r { http_version_major = add_digit r.http_version_major c } in
    parse-go http_version_major r c (ds ++ b'.' ∷ rest) http_version_major q
      (unfold consume in ground (arith, IsDigit-is_digit c h.0))
    ∙ parse_major_digits ds q rest h.1

parse_minor_digits :
    (ds : Bytes) (r : Request) (rest : Bytes)
    → All IsDigit ds
    → parse http_version_minor r (ds ++ b'\r' ∷ rest)
      ≡ parse expecting_newline_1
          (record r { http_version_minor = wrapped r.http_version_minor ds })
          rest
parse_minor_digits [] r rest h =
    parse-go http_version_minor r b'\r' rest expecting_newline_1 r (unfold consume in refl)
parse_minor_digits (c ∷ ds) r rest h =
    let q : Request = record r { http_version_minor = add_digit r.http_version_minor c } in
    parse-go http_version_minor r c (ds ++ b'\r' ∷ rest) http_version_minor q
      (unfold consume in ground (arith, IsDigit-is_digit c h.0))
    ∙ parse_minor_digits ds q rest h.1

parse_major :
    (n : ℕ) (r : Request) (rest : Bytes)
    → r.http_version_major ≡ 0
    → parse http_version_major_start r (to_decimal n ++ b'.' ∷ rest)
      ≡ parse http_version_minor_start (record r { http_version_major = n % 256 }) rest
parse_major n r rest z =
    let (d, ds, e) = to_decimal-cons n in
    let digits : All IsDigit (d ∷ ds) = rw e at (to_decimal-IsDigit n) in
    let value : wrapped 0 (d ∷ ds) ≡ n % 256 = rw e at (wrapped-to_decimal n) in
    let q : Request = record r { http_version_major = add_digit r.http_version_major d } in
    rw (e, ← value)
      (parse-go http_version_major_start r d (ds ++ b'.' ∷ rest) http_version_major q
          (unfold consume in ground (arith, IsDigit-is_digit d digits.0))
        ∙ parse_major_digits ds q rest digits.1
        ∙ rw z)

parse_minor :
    (n : ℕ) (r : Request) (rest : Bytes)
    → r.http_version_minor ≡ 0
    → parse http_version_minor_start r (to_decimal n ++ b'\r' ∷ rest)
      ≡ parse expecting_newline_1 (record r { http_version_minor = n % 256 }) rest
parse_minor n r rest z =
    let (d, ds, e) = to_decimal-cons n in
    let digits : All IsDigit (d ∷ ds) = rw e at (to_decimal-IsDigit n) in
    let value : wrapped 0 (d ∷ ds) ≡ n % 256 = rw e at (wrapped-to_decimal n) in
    let q : Request = record r { http_version_minor = add_digit r.http_version_minor d } in
    rw (e, ← value)
      (parse-go http_version_minor_start r d (ds ++ b'\r' ∷ rest) http_version_minor q
          (unfold consume in ground (arith, IsDigit-is_digit d digits.0))
        ∙ parse_minor_digits ds q rest digits.1
        ∙ rw z)

parse_literal :
    (r : Request) (rest : Bytes)
    → parse http_version_h r (b'H' ∷ b'T' ∷ b'T' ∷ b'P' ∷ b'/' ∷ rest)
      ≡ parse http_version_major_start
          (record r { http_version_major = 0; http_version_minor = 0 })
          rest
unfolding parse consume
parse_literal r rest = refl

parse_newline_1 :
    (r : Request) (rest : Bytes)
    → parse expecting_newline_1 r (b'\n' ∷ rest) ≡ parse header_line_start r rest
unfolding parse consume
parse_newline_1 r rest = refl

pub parse_version :
    (major minor : ℕ) (r : Request) (rest : Bytes)
    → parse http_version_h r (print_version major minor rest)
      ≡ parse header_line_start
          (record r { http_version_major = major % 256; http_version_minor = minor % 256 })
          rest
parse_version major minor r rest =
    parse_literal r _
    ∙ parse_major major _ _ refl
    ∙ parse_minor minor _ _ refl
    ∙ parse_newline_1 _ rest
