-- ===== src/Server/Accept/Loops.antt =====
-- src/whz_server.cpp: each accept loop goes on, whatever its completions bring.
use mathlib.Core.Option
use work_horz.Base.{
  ℕ, ◌+◌, Bool, true, false, List, [], ◌∷◌, ◌++◌, some, ◌≡◌, refl, sym, ap, ◌∙◌, if◌then◌else◌,
  append-nil, arith,
}
use work_horz.Server.Accept.{
  Accept, do_accept_http, do_accept, start_accept_http, start_accept, Started, plain, tls, Server,
  take_context, async_accept, on_accept, start,
}
use work_horz.Server.Pool.{IoContextPool, advance}
use work_horz.Server.Pool.Rotation.{IsPool, get_io_context-IsPool}

-- The loops of one kind among the pending operations.
abbrev pub loops : (Accept → ℕ) → List Accept → ℕ
loops weight [] = 0
loops weight (a ∷ rest) = weight a + loops weight rest

loops-append : (w : Accept → ℕ) (a b : List Accept) → loops w (a ++ b) ≡ loops w a + loops w b
loops-append w [] b = omega arith
loops-append w (x ∷ a) b = omega (arith, loops-append w a b)

abbrev pub http : Accept → ℕ
http do_accept_http = 1
http start_accept_http = 1
http _ = 0

abbrev pub plain_any : Accept → ℕ
plain_any do_accept = 1
plain_any _ = 0

abbrev pub tls_only : Accept → ℕ
tls_only start_accept = 1
tls_only _ = 0

module _ (n : ℕ) where
  -- The loops that run: `h` of `do_accept_http`, `p` of `do_accept` and `q` of `start_accept`.
  pub record Runs (h p q : ℕ) (s : Server) : Type 0 where
    pub pool_ok : IsPool n s.pool
    pub is_open : s.acceptor_open ≡ true
    pub http_loops : loops http s.pending ≡ h
    pub plain_loops : loops plain_any s.pending ≡ p
    pub tls_loops : loops tls_only s.pending ≡ q

  pub take_context_lem :
      (s : Server)
      → IsPool n s.pool
      → (take_context s ≡ some (record s { pool = advance s.pool })) × IsPool n (advance s.pool)
  unfolding take_context
  take_context_lem s v =
      let (e, w, turn) = get_io_context-IsPool n s.pool v in
      (ap (Option.map (λ (r : ℕ × IoContextPool). record s { pool = r.1 })) e, w)

  -- Starting a loop of a kind adds one to its number.
  pub async_accept-Runs :
      (a : Accept) (h p q : ℕ) (s : Server)
      → Runs h p q s
      → (t : Server) × (async_accept a s ≡ some t)
        × Runs (h + http a) (p + plain_any a) (q + tls_only a) t
        × (t.started ≡ s.started)
  unfolding async_accept
  async_accept-Runs a h p q s v =
      let (e, w) = take_context_lem s v.pool_ok in
      (
        record s { pool = advance s.pool; pending = s.pending ++ a ∷ [] },
        rw e,
        record {
          pool_ok = w;
          is_open = v.is_open;
          http_loops = omega (arith, loops-append http s.pending (a ∷ []), v.http_loops);
          plain_loops = omega (arith, loops-append plain_any s.pending (a ∷ []), v.plain_loops);
          tls_loops = omega (arith, loops-append tls_only s.pending (a ∷ []), v.tls_loops);
        },
        refl,
      )

  -- What a completion starts.
  abbrev pub begins : Accept → Bool → List Started
  begins do_accept ok = plain ∷ []
  begins start_accept ok = if ok then tls ∷ [] else []
  begins _ ok = if ok then plain ∷ [] else []

  start-Runs : (k : Started) (h p q : ℕ) (s : Server) → Runs h p q s → Runs h p q (start k s)
  start-Runs k h p q s v = record {
    pool_ok = v.pool_ok;
    is_open = v.is_open;
    http_loops = v.http_loops;
    plain_loops = v.plain_loops;
    tls_loops = v.tls_loops;
  }

  -- A completion goes on with its loop, and starts what it begins.
  pub on_accept-Runs :
      (a : Accept) (ok : Bool) (h p q : ℕ) (s : Server)
      → Runs h p q s
      → (t : Server) × (on_accept a ok s ≡ some t)
        × Runs (h + http a) (p + plain_any a) (q + tls_only a) t
        × (t.started ≡ s.started ++ begins a ok)
  unfolding on_accept
  on_accept-Runs do_accept ok h p q s v =
      let (t, e, w, k) =
        async_accept-Runs do_accept h p q (start plain s) (start-Runs plain h p q s v) in
      (t, ground (arith, e, v.is_open), w, k)
  on_accept-Runs do_accept_http true h p q s v =
      let (t, e, w, k) =
        async_accept-Runs do_accept_http h p q (start plain s) (start-Runs plain h p q s v) in
      (t, ground (arith, e, v.is_open), w, k)
  on_accept-Runs do_accept_http false h p q s v =
      let (t, e, w, k) = async_accept-Runs do_accept_http h p q s v in
      (t, ground (arith, e, v.is_open), w, k ∙ sym (append-nil s.started))
  on_accept-Runs start_accept_http true h p q s v =
      async_accept-Runs do_accept_http h p q (start plain s) (start-Runs plain h p q s v)
  on_accept-Runs start_accept_http false h p q s v =
      let (t, e, w, k) = async_accept-Runs do_accept_http h p q s v in
      (t, e, w, k ∙ sym (append-nil s.started))
  on_accept-Runs start_accept true h p q s v =
      let (t, e, w, k) =
        async_accept-Runs start_accept h p q (start tls s) (start-Runs tls h p q s v) in
      (t, ground (arith, e, v.is_open), w, k)
  on_accept-Runs start_accept false h p q s v =
      let (t, e, w, k) = async_accept-Runs start_accept h p q s v in
      (t, ground (arith, e, v.is_open), w, k ∙ sym (append-nil s.started))

  -- The server without one of its pending operations.
  pub without-Runs :
      (before after : List Accept) (a : Accept) (h p q : ℕ) (s : Server)
      → s.pending ≡ before ++ a ∷ after
      → Runs h p q s
      → (h' p' q' : ℕ) × Runs h' p' q' (record s { pending = before ++ after })
        × (h' + http a ≡ h)
        × (p' + plain_any a ≡ p)
        × (q' + tls_only a ≡ q)
  without-Runs before after a h p q s e v = (
    loops http (before ++ after),
    loops plain_any (before ++ after),
    loops tls_only (before ++ after),
    record {
      pool_ok = v.pool_ok;
      is_open = v.is_open;
      http_loops = refl;
      plain_loops = refl;
      tls_loops = refl;
    },
    removed http h v.http_loops,
    removed plain_any p v.plain_loops,
    removed tls_only q v.tls_loops,
  )
    where
      removed :
          (w : Accept → ℕ) (k : ℕ) → loops w s.pending ≡ k → loops w (before ++ after) + w a ≡ k
      removed w k r =
          omega (
            arith,
            loops-append w before after,
            loops-append w before (a ∷ after),
            ap (loops w) e,
            r,
          )
