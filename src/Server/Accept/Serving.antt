-- ===== src/Server/Accept/Serving.antt =====
-- src/whz_server.cpp: which connections the server starts, over plain HTTP and over TLS.
use mathlib.Core.Option
use mathlib.Core.Path.{subst}
use work_horz.Base.{
  some-inj, ℕ, suc, ◌+◌, ◌≤◌, Bool, true, false, [], ◌++◌, none, some, ◌≡◌, refl, sym, ap, ◌∙◌, ◌⊎◌,
  codes, ◌∷◌, inl, inr, All, All-append, arith,
}
use work_horz.Server.Accept.{
  Accept, do_accept_http, do_accept, start_accept_http, start_accept, Started, plain, Server,
  construct, serving, bind_and_listen_http, bind_and_listen, begin_accept, listen_and_serve,
  listen_and_serve_tls, on_signal, Step, accepted, signalled, Reach, here, next,
}
use work_horz.Server.Accept.Loops.{
  loops, http, plain_any, tls_only, Runs, take_context_lem, async_accept-Runs, begins,
  on_accept-Runs, without-Runs,
}
use work_horz.Server.Pool.{IoContextPool, advance, stop}
use work_horz.Server.Pool.Rotation.{IsPool, create-IsPool}

stop-IsPool : (n : ℕ) (pool : IoContextPool) → IsPool n pool → IsPool n (stop pool)
unfolding stop
stop-IsPool n pool v = record { contexts = v.contexts; guarded = v.guarded; next_lt = v.next_lt }

-- A step of a server whose loops run keeps them running, and starts what one of them begins.
Step-Runs :
    (n h p q : ℕ) {s t : Server}
    → Runs n h p q s
    → Step s t
    → Runs n h p q t
      × ((t.started ≡ s.started)
          ⊎ ((a : Accept) × (ok : Bool) × (t.started ≡ s.started ++ begins n a ok)
              × (http a ≤ h)
              × (plain_any a ≤ p)
              × (tls_only a ≤ q)))
unfolding on_signal
Step-Runs n h p q {s} {t} v (signalled running e) = (
  rw e (record {
    pool_ok = stop-IsPool n s.pool v.pool_ok;
    is_open = v.is_open;
    http_loops = v.http_loops;
    plain_loops = v.plain_loops;
    tls_loops = v.tls_loops;
  }),
  inl (ap (λ (z : Server). z.started) e),
)
Step-Runs n h p q {s} {t} v (accepted before after a ok running e f) =
    let (h', p', q', w, eh, ep, eq) = without-Runs n before after a h p q s e v in
    let (u, g, x, k) = on_accept-Runs n a ok h' p' q' (record s { pending = before ++ after }) w in
    let same : u ≡ t = cc in
    (
      rw same at (rw (eh, ep, eq) at x),
      inr (
        a,
        ok,
        ap (λ (z : Server). z.started) (sym same) ∙ k,
        omega arith,
        omega arith,
        omega arith,
      ),
    )

abbrev pub IsFresh : ℕ → Server → Type 0
IsFresh n s = IsPool n s.pool × (s.pending ≡ []) × (s.started ≡ [])

-- A server of any positive number of contexts can be constructed.
construct_made : (n : ℕ) → (s : Server) × (construct (suc n) ≡ some s) × IsFresh (suc n) s
unfolding construct
construct_made n =
    let (pool, e, v, first) = (create-IsPool n).1 in
    let s : Server = record {
      pool = pool;
      acceptor_open = false;
      pending = [];
      started = [];
      logged = [];
    } in
    let (f, w) = take_context_lem (suc n) s v in
    let (g, x) = take_context_lem (suc n) (record s { pool = advance pool }) w in
    (
      record s { pool = advance (advance pool); logged = codes "WHZ Server is running" ∷ [] },
      rw (e, construct)
          (rw f (
            ap
              (Option.map
                (λ (t : Server). record t { logged = codes "WHZ Server is running" ∷ [] }))
              g)),
      (x, refl, refl),
    )

pub construct-IsFresh : (n : ℕ) (s : Server) → construct (suc n) ≡ some s → IsFresh (suc n) s
construct-IsFresh n s h =
    let (t, e, f) = construct_made n in
    let same : t ≡ s = some-inj (sym e ∙ h) in subst (IsFresh (suc n)) same f

opened-Runs : (n : ℕ) (s : Server) → IsFresh n s → Runs n 0 0 0 (record s { acceptor_open = true })
opened-Runs n s (v, e, f) = record {
  pool_ok = v;
  is_open = refl;
  http_loops = ap (loops http) e;
  plain_loops = ap (loops plain_any) e;
  tls_loops = ap (loops tls_only) e;
}

begin-Runs :
    (n : ℕ) (a : Accept) (h p q : ℕ) (s : Server)
    → Runs n h p q s
    → (t : Server) × (begin_accept a s ≡ some t)
      × Runs n (h + http a) (p + plain_any a) (q + tls_only a) t
      × (t.started ≡ s.started)
unfolding begin_accept
begin-Runs n a h p q s v =
    let (t, e, w, k) = async_accept-Runs n a h p q s v in (t, ground (arith, e, v.is_open), w, k)

-- Over HTTP the bind starts one loop, and `start_accept_http` a second one.
pub serve-Runs :
    (n : ℕ) (s : Server)
    → IsFresh n s
    → (t : Server) × (listen_and_serve true s ≡ serving t) × Runs n 2 0 0 t × (t.started ≡ [])
unfolding listen_and_serve bind_and_listen_http
serve-Runs n s f =
    let (t, e, v, k) = async_accept-Runs n do_accept_http 0 0 0 _ (opened-Runs n s f) in
    let (u, g, w, l) = begin-Runs n start_accept_http 1 0 0 t v in (u, rw (e, g), w, l ∙ k ∙ f.2)

bind_tls-Runs :
    (n : ℕ) (s : Server)
    → IsFresh n s
    → (t : Server) × (bind_and_listen s ≡ some (none, t)) × Runs n 0 1 0 t × (t.started ≡ [])
unfolding bind_and_listen
bind_tls-Runs n s f =
    let (c, y) = take_context_lem n s f.0 in
    let s' : Server = record s { pool = advance s.pool } in
    let (t, e, v, k) = async_accept-Runs n do_accept 0 0 0 _ (opened-Runs n s' (y, f.1, f.2)) in
    (t, rw (c, bind_and_listen) (rw e), v, k ∙ f.2)

-- Over TLS the bind starts a loop of plain connections, and `start_accept` one of TLS connections.
pub serve_tls-Runs :
    (n : ℕ) (s : Server)
    → IsFresh n s
    → (t : Server) × (listen_and_serve_tls true s ≡ serving t) × Runs n 0 1 1 t × (t.started ≡ [])
unfolding listen_and_serve_tls
serve_tls-Runs n s f =
    let (t, e, v, k) = bind_tls-Runs n s f in
    let (u, g, w, l) = begin-Runs n start_accept 0 1 0 t v in (u, rw (e, g), w, l ∙ k)

pub Reach-Runs : (n h p q : ℕ) {s u : Server} → Runs n h p q s → Reach s u → Runs n h p q u
Reach-Runs n h p q v here = v
Reach-Runs n h p q v (next r step) = (Step-Runs n h p q (Reach-Runs n h p q v r) step).0

-- A completion that does not belong to the TLS loop starts plain connections only.
begins-plain :
    (n : ℕ) (a : Accept) (ok : Bool)
    → tls_only a ≤ 0
    → All (λ (k : Started). k ≡ plain) (begins n a ok)
begins-plain n do_accept ok l = (refl, tt)
begins-plain n do_accept_http true l = (refl, tt)
begins-plain n do_accept_http false l = tt
begins-plain n start_accept_http true l = (refl, tt)
begins-plain n start_accept_http false l = tt
begins-plain n start_accept ok l = absurd (omega (arith, l))

Reach-plain :
    (n h p : ℕ) {s u : Server}
    → Runs n h p 0 s
    → s.started ≡ []
    → Reach s u
    → All (λ (k : Started). k ≡ plain) u.started
Reach-plain n h p v e here = rw e tt
Reach-plain n h p {s} {u} v e (next {t} r step) =
    elim (Step-Runs n h p 0 (Reach-Runs n h p 0 v r) step).1 [
      | inl k ↦ rw k (Reach-plain n h p v e r)
      | inr (a, ok, k, _, _, l) ↦ rw k (
          All-append (λ (k : Started). k ≡ plain) t.started (begins n a ok)
            (Reach-plain n h p v e r) (begins-plain n a ok l))
    ]

pub serving-inj : {s t : Server} → serving s ≡ serving t → s ≡ t
serving-inj e = cc

-- A server of any positive number of contexts is constructed. Where the resolver and the acceptor throw
-- nothing, it then listens with an open acceptor and a pool that is well formed, and has started no
-- connection: over HTTP two accept loops of the HTTP kind are pending, over TLS one of TLS connections
-- and one of plain ones, and no others.
pub listen_and_serve-total :
    (n : ℕ)
    → (s : Server) × (construct (suc n) ≡ some s)
      × ((t : Server) × (listen_and_serve true s ≡ serving t)
          × Runs (suc n) 2 0 0 t
          × (t.started ≡ []))
      × ((t : Server) × (listen_and_serve_tls true s ≡ serving t)
          × Runs (suc n) 0 1 1 t
          × (t.started ≡ []))
listen_and_serve-total n =
    let (s, c, f) = construct_made n in (s, c, serve-Runs (suc n) s f, serve_tls-Runs (suc n) s f)

-- In every state that a constructed server reaches once it listens over HTTP, two accept loops
-- of the HTTP kind are pending and none of the other kinds, the pool is well formed, the
-- acceptor is open, and every connection that was started is a plain one.
pub listen_and_serve-Reach :
    (n : ℕ) (s t u : Server)
    → construct (suc n) ≡ some s
    → listen_and_serve true s ≡ serving t
    → Reach t u
    → Runs (suc n) 2 0 0 u × All (λ (k : Started). k ≡ plain) u.started
listen_and_serve-Reach n s t u c h r =
    let (t', e, v, k) = serve-Runs (suc n) s (construct-IsFresh n s c) in
    let same : t' ≡ t = serving-inj (sym e ∙ h) in
    (
      Reach-Runs (suc n) 2 0 0 (subst (Runs (suc n) 2 0 0) same v) r,
      Reach-plain (suc n) 2 0 (subst (Runs (suc n) 2 0 0) same v)
          (ap (λ (z : Server). z.started) (sym same) ∙ k) r,
    )
