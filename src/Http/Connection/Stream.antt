-- ===== src/Http/Connection/Stream.antt =====
-- src/whz_connection.cpp: a connection as a parser of the stream of its buffers.
use mathlib.Core.Path.{subst}
use work_horz.Base.{
  ℕ, [], ◌∷◌, ◌++◌, Option, none, some, some-inj, ◌≡◌, ◌≢◌, refl, ap, ◌∙◌, inl, inr, Bytes,
  Option-cases, true, false,
}
use work_horz.Http.Connection.{
  Phase, reading, writing, closed, dropped, Connection, start, do_write, answer, on_read, overwrite,
  read, read_error, written, Reach, here, next,
}
use work_horz.Http.Connection.Segments.{blank}
use work_horz.Http.Handler.{Files, handle_request}
use work_horz.Http.Parser.{ResultType, good, bad, indeterminate, reset, parse, Parsed}
use work_horz.Http.Parser.RoundTrip.{fresh}
use work_horz.Http.Parser.Stream.{resume, parse-append}
use work_horz.Http.Reply.{StatusType, bad_request, stock_reply}

resumed :
    (p : Parsed) (more : Bytes)
    → p.result ≡ indeterminate
    → resume (some p) more ≡ parse p.state p.req more
resumed p more e = rw (e, resume) refl

on_read-none :
    (files : Files) (root : Bytes) (c d : Connection) (got : Bytes)
    → parse c.parser c.request (overwrite got c.buffer) ≡ none
    → on_read files root c got ≢ some d
unfolding on_read
on_read-none files root c d got stuck e = let k : none ≡ some d = rw (stuck, on_read) at e in cc

on_read-some :
    (files : Files) (root : Bytes) (c d : Connection) (got : Bytes) (p : Parsed)
    → parse c.parser c.request (overwrite got c.buffer) ≡ some p
    → on_read files root c got ≡ some d
    → answer files root
        (record c { buffer = overwrite got c.buffer; request = p.req; parser = p.state })
        p
      ≡ d
unfolding on_read
on_read-some files root c d got p f e = some-inj (rw (f, on_read) at e)

module _ (files : Files) (root : Bytes) (major minor : ℕ) (status : StatusType) where
  -- What a parse of the whole stream says of the connection: an undecided one leaves it with the parser's
  -- state and request, and with nothing sent; a decided one with the reply to the request, or
  -- with the stock page for a bad one.
  abbrev pub Answers : ResultType → Parsed → Connection → Type 0
  Answers indeterminate p c =
      (c.parser ≡ p.state) × (c.request ≡ p.req) × (c.reply ≡ blank status) × (c.sent ≡ [])
  Answers good p c = c.sent ≡ handle_request files root p.req (blank status) ∷ []
  Answers bad p c = c.sent ≡ stock_reply bad_request ∷ []

  Answers-phase :
      (t : ResultType) (p : Parsed) (c : Connection) (f : Phase)
      → Answers t p c
      → Answers t p (record c { phase = f })
  Answers-phase indeterminate p c f h = h
  Answers-phase good p c f h = h
  Answers-phase bad p c f h = h

  -- The phase that fits the result.
  abbrev pub Decided : Phase → ResultType → Type 0
  Decided reading t = t ≡ indeterminate
  Decided dropped t = t ≡ indeterminate
  Decided writing t = t ≢ indeterminate
  Decided closed t = t ≢ indeterminate

  pub record Refines (seen : Bytes) (c : Connection) : Type 0 where
    pub parsed : Parsed
    pub parse_seen : parse reset (fresh major minor) seen ≡ some parsed
    pub decided : Decided c.phase parsed.result
    pub answers : Answers parsed.result parsed c

  start-Refines : Refines [] (start major minor status)
  unfolding start parse
  start-Refines = record {
    parsed = record { result = indeterminate; rest = []; state = reset; req = fresh major minor };
    parse_seen = refl;
    decided = refl;
    answers = (refl, refl, refl, refl);
  }

  answer-Refines :
      (c : Connection) (seen rest : Bytes) (t : ResultType)
      → parse reset (fresh major minor) seen
        ≡ some (record { result = t; rest = rest; state = c.parser; req = c.request })
      → c.reply ≡ blank status
      → c.sent ≡ []
      → Refines seen (
          answer files root c
            (record { result = t; rest = rest; state = c.parser; req = c.request }))
  unfolding answer do_write
  answer-Refines c seen rest indeterminate e b n = record {
    parsed = record { result = indeterminate; rest = rest; state = c.parser; req = c.request };
    parse_seen = e;
    decided = refl;
    answers = (refl, refl, b, n);
  }
  answer-Refines c seen rest good e b n = record {
    parsed = record { result = good; rest = rest; state = c.parser; req = c.request };
    parse_seen = e;
    decided = λ h. cc;
    answers = rw (n, b) refl;
  }
  answer-Refines c seen rest bad e b n = record {
    parsed = record { result = bad; rest = rest; state = c.parser; req = c.request };
    parse_seen = e;
    decided = λ h. cc;
    answers = rw n refl;
  }

  -- What an undecided parse leaves of a connection.
  undecided :
      (c : Connection) (seen : Bytes) (v : Refines seen c)
      → v.parsed.result ≡ indeterminate
      → (c.parser ≡ v.parsed.state)
        × (c.request ≡ v.parsed.req)
        × (c.reply ≡ blank status)
        × (c.sent ≡ [])
  undecided c seen v e = subst (λ (t : ResultType). Answers t v.parsed c) e v.answers

  -- Where a connection reads, the parse of the buffer goes on where that of the stream ended.
  parse_on :
      (c : Connection) (seen buffer : Bytes) (v : Refines seen c)
      → v.parsed.result ≡ indeterminate
      → parse reset (fresh major minor) (seen ++ buffer) ≡ parse c.parser c.request buffer
  parse_on c seen buffer v e =
      let (s, q, _, _) = undecided c seen v e in
      parse-append reset (fresh major minor) seen buffer
      ∙ ap (λ (z : Option Parsed). resume z buffer) v.parse_seen
      ∙ resumed v.parsed buffer e
      ∙ rw (s, q) refl

  -- A read appends the buffer to the stream.
  on_read-Refines :
      (c d : Connection) (got seen : Bytes)
      → c.phase ≡ reading
      → on_read files root c got ≡ some d
      → Refines seen c
      → Refines (seen ++ overwrite got c.buffer) d
  on_read-Refines c d got seen r e v =
      let still : v.parsed.result ≡ indeterminate =
        subst (λ (f : Phase). Decided f v.parsed.result) r v.decided in
      let (_, _, b, n) = undecided c seen v still in
      elim (Option-cases (parse c.parser c.request (overwrite got c.buffer))) [
        | inl stuck ↦ absurd (on_read-none files root c d got stuck e)
        | inr (p, f) ↦
            let after : Connection = record c {
              buffer = overwrite got c.buffer;
              request = p.req;
              parser = p.state;
            } in
            subst (Refines (seen ++ overwrite got c.buffer)) (on_read-some files root c d got p f e)
              (answer-Refines after (seen ++ overwrite got c.buffer) p.rest p.result
                (parse_on c seen (overwrite got c.buffer) v still ∙ f) b n)
      ]

  -- Another phase of the same meaning changes nothing.
  moved :
      {seen : Bytes} {c : Connection} {from to : Phase}
      → c.phase ≡ from
      → ((t : ResultType) → Decided from t → Decided to t)
      → Refines seen c
      → Refines seen (record c { phase = to })
  moved {seen} {c} {from} {to} f change v = record {
    parsed = v.parsed;
    parse_seen = v.parse_seen;
    decided = change v.parsed.result (subst (λ (x : Phase). Decided x v.parsed.result) f v.decided);
    answers = Answers-phase v.parsed.result v.parsed c to v.answers;
  }

  -- The buffers of the reads on the way to a connection, one behind the other.
  abbrev pub stream : {c : Connection} → Reach files root (start major minor status) c → Bytes
  stream here = []
  stream (next {d} r (read got _ _ _)) = stream r ++ overwrite got d.buffer
  stream (next r (read_error _ _)) = stream r
  stream (next r (written _ _ _)) = stream r

  -- In every state that a new connection reaches, the parse of the buffers of all its reads as one
  -- input tells what the connection has sent: nothing, where the parse is undecided and the connection
  -- reads or is dropped; what the handler makes of the request and of a blank reply, where it is
  -- accepted; and the stock page for a bad request, where it is refused. In the last two cases the
  -- connection writes, or is closed.
  pub Reach-Refines :
      {c : Connection} (r : Reach files root (start major minor status) c) → Refines (stream r) c
  Reach-Refines here = start-Refines
  Reach-Refines (next {d} {e} r (read got f l g)) =
      on_read-Refines d e got (stream r) f g (Reach-Refines r)
  Reach-Refines (next r (read_error f g)) = rw g (moved f (λ t h. h) (Reach-Refines r))
  Reach-Refines (next r (written true f g)) =
      let h = some-inj g in
      subst (λ (z : Connection). Refines (stream r) z) h (moved f (λ t h. h) (Reach-Refines r))
  Reach-Refines (next r (written false f g)) = absurd cc
