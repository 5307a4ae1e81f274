-- ===== src/Http/Parser/Framing.antt =====
-- Where an accepted request ends: behind an empty line.
use work_horz.Http.Parser.Stream.{went_on, returned, parse-FirstRound}
use mathlib.Core.List.{reverse, reverse-cons}
use work_horz.Base.{
  ℕ, [], ◌∷◌, ◌++◌, Option, none, some, ◌≡◌, sym, ap, ◌∙◌, inl, inr, ◌==◌, Bytes, append_assoc,
  Option-cases, Bool-cases, arith,
}
use work_horz.Http.Message.{Header, Request}
use work_horz.Http.Parser.{
  good, bad, indeterminate, State, header_lws, header_name, header_value, method_start,
  header_line_start, expecting_newline_1, expecting_newline_2, expecting_newline_3, Outcome,
  on_back, push_name, push_value, edit_back, consume, Parsed, parse, reset, Parsed, parse, Parsed,
  parse, reset,
}

-- What the last bytes were, the newest first, in the states that depend on it.
abbrev Seen : State → Bytes → Type 0
Seen header_line_start seen = (t : Bytes) × (seen ≡ b'\n' ∷ t)
Seen expecting_newline_3 seen = (t : Bytes) × (seen ≡ b'\r' ∷ b'\n' ∷ t)
Seen _ seen = Unit

abbrev Follows : State → Bytes → ℕ → Option Outcome → Type 0
Follows s seen c none = Unit
Follows s seen c (some o) = elim o.result [
  | indeterminate ↦ Seen o.state (c ∷ seen)
  | bad ↦ Unit
  | good ↦ (c ≡ b'\n') × ((t : Bytes) × (seen ≡ b'\r' ∷ b'\n' ∷ t))
]

edit_back-Follows :
    (s : State) (f : Header → Header) (r : Request) (seen : Bytes) (c : ℕ)
    → Follows s seen c (edit_back f header_value r) × Follows s seen c (edit_back f header_name r)
edit_back-Follows s f r seen c = elim (Option-cases (on_back f r.headers)) [
  | inl e ↦ (rw (e, Follows) tt, rw (e, Follows) tt)
  | inr (hs, e) ↦ (rw (e, Follows) tt, rw (e, Follows) tt)
]

consume-Follows :
    (s : State) (r : Request) (seen : Bytes) (c : ℕ)
    → Seen s seen
    → Follows s seen c (consume s r c)
unfolding consume
consume-Follows method_start r seen c v = ground arith
consume-Follows header_line_start r seen c (t, v) = elim (Bool-cases (c == b'\r')) [
  | inl e ↦ rw (e, Follows) (t, ground arith)
  | inr e ↦ ground arith
]
consume-Follows expecting_newline_1 r seen c v = elim (Bool-cases (c == b'\n')) [
  | inl e ↦ rw (e, Follows) (seen, ground arith)
  | inr e ↦ ground arith
]
consume-Follows expecting_newline_2 r seen c v = elim (Bool-cases (c == b'\n')) [
  | inl e ↦ rw (e, Follows) (seen, ground arith)
  | inr e ↦ ground arith
]
consume-Follows expecting_newline_3 r seen c v = elim (Bool-cases (c == b'\n')) [
  | inl e ↦ rw (e, Follows) (ground arith, v)
  | inr e ↦ rw (e, Follows) tt
]
consume-Follows header_lws r seen c v =
    ground (arith, edit_back-Follows header_lws (push_value c) r seen c)
consume-Follows header_value r seen c v =
    ground (arith, edit_back-Follows header_value (push_value c) r seen c)
consume-Follows header_name r seen c v =
    ground (arith, edit_back-Follows header_name (push_name c) r seen c)
consume-Follows _ r seen c v = ground arith

-- The input up to the end of the request, and what follows.
regroup : (seen : Bytes) (c : ℕ) (cs : Bytes) → reverse (c ∷ seen) ++ cs ≡ reverse seen ++ c ∷ cs
regroup seen c cs = simp (reverse-cons, append_assoc)

abbrev Ends : Bytes → Bytes → Bytes → Type 0
Ends seen input rest = (k : Bytes) × (reverse seen ++ input ≡ k ++ (b'\n' ∷ b'\r' ∷ b'\n' ∷ rest))

parse-Ends :
    (s : State) (r : Request) (seen input : Bytes) (p : Parsed)
    → Seen s seen
    → parse s r input ≡ some p
    → p.result ≡ good
    → Ends seen input p.rest
unfolding parse
parse-Ends s r seen [] p v e g = cc
parse-Ends s r seen (c ∷ cs) p v e g = elim (parse-FirstRound s r c cs p e) [
  | went_on o q t later ↦
      let (k, h) =
        parse-Ends o.state o.req (c ∷ seen) cs p
          (rw (q, t, Follows) at (consume-Follows s r seen c v)) later g in
      (k, sym (regroup seen c cs) ∙ h)
  | returned o q t same ↦
      let (newline, seen_is) = last_byte o q (ap (λ (z : Parsed). z.result) (sym same) ∙ g) in
      (reverse seen_is.0, ends seen_is.0 newline seen_is.1 (ap (λ (z : Parsed). z.rest) same))
]
  where
    last_byte :
        (o : Outcome)
        → consume s r c ≡ some o
        → o.result ≡ good
        → (c ≡ b'\n') × ((t : Bytes) × (seen ≡ b'\r' ∷ b'\n' ∷ t))
    last_byte o q t = rw (q, t, Follows) at (consume-Follows s r seen c v)

    ends :
        (u : Bytes)
        → c ≡ b'\n'
        → seen ≡ b'\r' ∷ b'\n' ∷ u
        → p.rest ≡ cs
        → reverse seen ++ c ∷ cs ≡ reverse u ++ (b'\n' ∷ b'\r' ∷ b'\n' ∷ p.rest)
    ends u n w same = rw (n, w, same) (simp (reverse-cons, append_assoc))

-- Where the parser accepts an input from the initial state, into any request, the input is some
-- text, a line feed, an empty line, and what was left unread.
pub parse-good-Ends :
    (r : Request) (input : Bytes) (p : Parsed)
    → parse reset r input ≡ some p
    → p.result ≡ good
    → (k : Bytes) × (input ≡ k ++ (b'\n' ∷ b'\r' ∷ b'\n' ∷ p.rest))
parse-good-Ends r input p = parse-Ends reset r [] input p tt
