-- ===== src/Http/Connection/Segments.antt =====
-- src/whz_connection.cpp: a request that arrives in one segment, and one that does not.
use work_horz.Base.{
  ℕ, zero, suc, ◌-◌, ◌<◌, ◌%◌, [], ◌∷◌, ◌++◌, Option, none, some, ◌≡◌, ◌≢◌, refl, sym, ap, ◌∙◌,
  Bytes, length, drop, arith,
}
use work_horz.Http.Message.{Request}
use work_horz.Http.Connection.{
  writing, Connection, start, do_write, answer, on_read, overwrite, zeros, buffer_size,
}
use work_horz.Http.Parser.{
  ResultType, good, bad, indeterminate, reset, parse, Parsed, expecting_newline_3,
}
use work_horz.Http.Parser.Invariant.{parse-IsSound}
use work_horz.Http.Parser.Print.{print_request, IsPrintable}
use work_horz.Http.Parser.RoundTrip.{fresh, fresh-IsSound, parse-print_request}
use work_horz.Http.Parser.Stream.{resume, parse-append, parse-forbidden}
use work_horz.Http.Handler.{Files, handle_request}
use work_horz.Http.Reply.{StatusType, Reply, bad_request, stock_reply}
use work_horz.Http.Chars.{is_ctl}

drop-zeros : (k n : ℕ) → k < n → drop k (zeros n) ≡ 0 ∷ zeros (n - k - 1)
unfolding zeros
drop-zeros k zero h = elim h [ ]
drop-zeros zero (suc n) h = ap (λ m. 0 ∷ zeros m) (omega arith)
drop-zeros (suc k) (suc n) h = drop-zeros k n (omega arith) ∙ ap (λ m. 0 ∷ zeros m) (omega arith)

-- What the parser stores of a request: it keeps the version numbers modulo 256.
abbrev pub stored : Request → Request
stored q = record q {
  http_version_major = q.http_version_major % 256;
  http_version_minor = q.http_version_minor % 256;
}

-- The blank reply of a new connection.
abbrev pub blank : StatusType → Reply
blank s = record { status = s; headers = []; content = [] }

abbrev pub HasAnswered : Reply → Option Connection → Type 0
HasAnswered rep none = ⊥
HasAnswered rep (some c) = (c.phase ≡ writing) × (c.reply ≡ rep) × (c.sent ≡ rep ∷ [])

module _ (files : Files) (root : Bytes) (major minor : ℕ) (status : StatusType) where
  -- Where the first read of a new connection gets a printed request of the grammar, with
  -- anything behind it, the connection writes what the handler makes of the request and of a
  -- blank reply.
  pub on_read_whole :
      (q : Request) (rest : Bytes)
      → IsPrintable q
      → HasAnswered
          (handle_request files root (stored q) (blank status))
          (on_read files root (start major minor status) (print_request q rest))
  unfolding on_read answer do_write start
  on_read_whole q rest h = rw (parsed, HasAnswered, on_read) (refl, refl, refl)
    where
      parsed :
          parse reset (fresh major minor) (overwrite (print_request q rest) (zeros buffer_size))
          ≡ some (record {
            result = good;
            rest = rest ++ drop (length (print_request q rest)) (zeros buffer_size);
            state = expecting_newline_3;
            req = stored q;
          })
      parsed =
          unfold overwrite in
          parse-append reset (fresh major minor) (print_request q rest) _
          ∙ rw (parse-print_request q major minor rest h, resume)

  -- The zeros behind what a read got are parsed too, and the first one is refused.
  on_read_incomplete :
      (got : Bytes) (p : Parsed)
      → parse reset (fresh major minor) got ≡ some p
      → p.result ≡ indeterminate
      → length got < buffer_size
      → HasAnswered (stock_reply bad_request) (on_read files root (start major minor status) got)
  unfolding on_read answer do_write start
  on_read_incomplete got p e t h = rw (refused, HasAnswered, on_read) (refl, refl, refl)
    where
      refused :
          parse reset (fresh major minor) (overwrite got (zeros buffer_size))
          ≡ some (record {
            result = bad;
            rest = zeros (buffer_size - length got - 1);
            state = p.state;
            req = p.req;
          })
      refused =
          unfold overwrite in
          rw (drop-zeros (length got) buffer_size h) (
            parse-append reset (fresh major minor) got _
            ∙ rw (e, resume, t) (parse-forbidden p.state p.req 0 _ (unfold is_ctl in ground arith)))

append-ne_nil : (a b : Bytes) → a ++ b ≡ [] → b ≡ []
append-ne_nil [] b h = h
append-ne_nil (x ∷ a) b h = cc

-- A parse that was not accepted at the end of a piece of an accepted request is not over there.
prefix-indeterminate :
    (p : Parsed) (more : Bytes) (out : Parsed)
    → resume (some p) more ≡ some out
    → out.result ≡ good
    → out.rest ≡ []
    → more ≢ []
    → p.result ≡ indeterminate
prefix-indeterminate p more out e g r ne = split p.result refl
  where
    split : (t : ResultType) → p.result ≡ t → p.result ≡ indeterminate
    split indeterminate t = t
    split bad t = cc (rw (t, resume) at e)
    split good t = absurd (ne (append-ne_nil p.rest more (ground arith)))

-- Where the first read of a new connection gets a part of a printed request of the grammar that
-- is not the whole and is shorter than the buffer, the connection writes the stock page for a
-- bad request. The version numbers of the new request are bytes.
pub on_read_split :
    (files : Files) (root : Bytes) (major minor : ℕ) (status : StatusType) (q : Request)
    (got more : Bytes)
    → major < 256
    → minor < 256
    → IsPrintable q
    → got ++ more ≡ print_request q []
    → more ≢ []
    → length got < buffer_size
    → HasAnswered (stock_reply bad_request) (on_read files root (start major minor status) got)
on_read_split files root major minor status q got more h k pr e ne l =
    let (p, parsed, s) =
      parse-IsSound reset (fresh major minor) got (fresh-IsSound major minor h k) in
    let whole =
      sym (parse-append reset (fresh major minor) got more)
      ∙ ap (parse reset (fresh major minor)) e
      ∙ parse-print_request q major minor [] pr in
    on_read_incomplete files root major minor status got p parsed
      (prefix-indeterminate p more _ (rw parsed at whole) refl refl ne) l
