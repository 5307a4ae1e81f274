-- ===== src/Server/Accept/Counted.antt =====
-- src/whz_server.cpp: each connection over HTTP is one accept without an error.
use work_horz.Base.{
  ℕ, ◌+◌, ◌≤◌, Bool, true, false, List, ◌++◌, ◌≡◌, sym, ap, ◌∙◌, length, length-append, arith,
  if◌then◌else◌, some-inj, refl, ◌∷◌, some,
}
use work_horz.Server.Accept.{
  Accept, do_accept_http, do_accept, start_accept_http, start_accept, Server, Step, accepted,
  signalled, on_signal, on_accept,
}
use work_horz.Server.Accept.Loops.{plain_any, tls_only, Runs, begins, on_accept-Runs, without-Runs}

-- Whether a step is an accept that completed without an error.
abbrev pub succeeds : {s t : Server} → Step s t → ℕ
succeeds (accepted _ _ _ true _ _ _) = 1
succeeds (accepted _ _ _ false _ _ _) = 0
succeeds (signalled _ _) = 0

begins-length :
    (n : ℕ) (a : Accept) (ok : Bool)
    → plain_any a ≤ 0
    → tls_only a ≤ 0
    → length (begins n a ok) ≡ (if ok then 1 else 0)
begins-length n do_accept ok p q = absurd (omega (arith, p))
begins-length n start_accept ok p q = absurd (omega (arith, q))
begins-length n do_accept_http true p q = refl
begins-length n do_accept_http false p q = refl
begins-length n start_accept_http true p q = refl
begins-length n start_accept_http false p q = refl

accepted-length :
    (n h : ℕ) (before after : List Accept) (a : Accept) (ok : Bool) (s t : Server)
    → Runs n h 0 0 s
    → s.pending ≡ before ++ a ∷ after
    → on_accept a ok (record s { pending = before ++ after }) ≡ some t
    → length t.started ≡ length s.started + (if ok then 1 else 0)
accepted-length n h before after a ok s t v e f =
    let (h', p', q', w, eh, ep, eq) = without-Runs n before after a h 0 0 s e v in
    let (u, g, x, k) = on_accept-Runs n a ok h' p' q' (record s { pending = before ++ after }) w in
    let same : u ≡ t = some-inj (sym g ∙ f) in
    ap (λ (z : Server). length z.started) (sym same)
    ∙ ap length k
    ∙ length-append {0} s.started (begins n a ok)
    ∙ ap (length s.started +◌) (begins-length n a ok (omega (arith, ep)) (omega (arith, eq)))

pub Step-succeeds :
    (n h : ℕ) {s t : Server}
    → Runs n h 0 0 s
    → (step : Step s t) → length t.started ≡ length s.started + succeeds step
unfolding on_signal
Step-succeeds n h {s} {t} v (accepted before after a true running e f) =
    accepted-length n h before after a true s t v e f
Step-succeeds n h {s} {t} v (accepted before after a false running e f) =
    accepted-length n h before after a false s t v e f
Step-succeeds n h v (signalled r e) = rw e (omega arith)
