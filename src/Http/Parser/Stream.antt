-- ===== src/Http/Parser/Stream.antt =====
-- The parser over a stream: how two pieces of input compose, and the bytes it refuses everywhere.
use work_horz.Base.{
  ℕ, true, [], ◌∷◌, ◌++◌, Option, none, some, ◌≡◌, ◌≢◌, refl, inl, inr, Bytes, Option-cases, arith,
}
use work_horz.Http.Chars.{is_ctl, is_digit, not_token, is_tspecial, is_char}
use work_horz.Http.Message.{Request}
use work_horz.Http.Parser.{
  ResultType, good, Outcome, bad, indeterminate, State, method_start, Outcome, consume, Parsed,
  parse, refuse, continue_with,
}

-- The parse of more input after a first piece: it goes on where that piece was not the end.
abbrev pub resume : Option Parsed → Bytes → Option Parsed
resume none more = none
resume (some p) more = elim p.result [
  | indeterminate ↦ parse p.state p.req more
  | other ↦ some (record p { rest = p.rest ++ more })
]

continue_with-resume :
    (o : Outcome) (a b : Bytes) (next later : Option Parsed)
    → later ≡ resume next b
    → continue_with o (a ++ b) later ≡ resume (continue_with o a next) b
continue_with-resume o a b next later e = ground arith

-- From every state and request, parsing an input in two pieces is parsing it at once: the
-- parser's state and the request are all that is remembered between the calls of `parse`.
pub parse-append :
    (s : State) (r : Request) (a b : Bytes) → parse s r (a ++ b) ≡ resume (parse s r a) b
unfolding parse
parse-append s r [] b = refl
parse-append s r (c ∷ a) b = elim (Option-cases (consume s r c)) [
  | inl stuck ↦ rw (stuck, parse)
  | inr (o, e) ↦ rw (e, parse) (continue_with-resume o a b _ _ (parse-append o.state o.req a b))
]

-- A control character other than CR, LF and TAB.
abbrev IsForbidden : ℕ → Type 0
IsForbidden c = (is_ctl c ≡ true) × (c ≢ b'\r') × (c ≢ b'\n') × (c ≢ b'\t')

-- In every state the parser refuses a control character other than CR, LF and TAB, and changes
-- neither its state nor the request.
pub consume-forbidden :
    (s : State) (r : Request) (c : ℕ) → IsForbidden c → consume s r c ≡ refuse s r
unfolding consume is_ctl is_digit not_token is_tspecial is_char
consume-forbidden method_start r c h = ground arith
consume-forbidden _ r c h = ground arith

-- So `parse` answers `bad` at the first such byte that it reaches.
pub parse-forbidden :
    (s : State) (r : Request) (c : ℕ) (cs : Bytes)
    → IsForbidden c
    → parse s r (c ∷ cs) ≡ some (record { result = bad; rest = cs; state = s; req = r })
unfolding parse
parse-forbidden s r c cs h = rw (consume-forbidden s r c h, parse)

-- The first round of a parse that returned: it went on, or it returned there.
pub data FirstRound (s : State) (r : Request) (c : ℕ) (cs : Bytes) (p : Parsed) : Type 0 where
  went_on :
      (o : Outcome)
      → consume s r c ≡ some o
      → o.result ≡ indeterminate
      → parse o.state o.req cs ≡ some p
      → FirstRound s r c cs p
  returned :
      (o : Outcome)
      → consume s r c ≡ some o
      → o.result ≢ indeterminate
      → p ≡ record { result = o.result; rest = cs; state = o.state; req = o.req }
      → FirstRound s r c cs p

pub parse-FirstRound :
    (s : State) (r : Request) (c : ℕ) (cs : Bytes) (p : Parsed)
    → parse s r (c ∷ cs) ≡ some p
    → FirstRound s r c cs p
unfolding parse
parse-FirstRound s r c cs p e = elim (Option-cases (consume s r c)) [
  | inl stuck ↦ cc (rw (stuck, parse) at e)
  | inr (o, q) ↦ split o o.result refl q (rw (q, parse) at e)
]
  where
    split :
        (o : Outcome) (t : ResultType)
        → o.result ≡ t
        → consume s r c ≡ some o
        → continue_with o cs (parse o.state o.req cs) ≡ some p
        → FirstRound s r c cs p
    split o good t q k = returned o q (λ z. cc) (ground arith)
    split o bad t q k = returned o q (λ z. cc) (ground arith)
    split o indeterminate t q k = went_on o q t (ground arith)
