-- ===== src/Server/System.antt =====
-- src/whz_server.cpp and src/whz_connection.cpp: the server and the plain connections that it has
-- started, whose completions the pool runs in any order.
pub mod Progress
use mathlib.Core.Path.{subst}
use work_horz.Base.{
  ℕ, suc, ◌+◌, ◌≤◌, ◌<◌, true, List, [], ◌∷◌, ◌++◌, some, ◌≡◌, refl, ap, ◌∙◌, sym, Bytes, length,
  length-append, All, All-append, arith,
}
use work_horz.Http.Handler.{Files}
use work_horz.Http.Reply.{StatusType, Reply}
use work_horz.Http.Connection as Conn
use work_horz.Http.Connection.{Connection, Phase, reading, writing, closed, dropped, start}
use work_horz.Http.Connection.Lifecycle.{Inv, HasSent, start-Inv, Step-Inv}
use work_horz.Server.Accept.{
  Started, plain, tls, Server, construct, serving, listen_and_serve, Step, Reach, here, next,
  IsRunning,
}
use work_horz.Server.Accept.Counted.{succeeds, Step-succeeds}
use work_horz.Server.Accept.Loops.{Runs}
use work_horz.Server.Accept.Serving.{
  serving-inj, listen_and_serve-Reach, serve-Runs, construct-IsFresh, Reach-Runs,
}

pub record System : Type 0 where
  pub server : Server
  pub connections : List Connection

-- A connection as its constructor and `start` leave it.
pub record IsNew (c : Connection) : Type 0 where
  pub major : ℕ
  pub minor : ℕ
  pub status : StatusType
  pub major_lt : major < 256
  pub minor_lt : minor < 256
  pub started : c ≡ start major minor status

-- The new connections of what the server starts, in that order.
abbrev pub Opens : List Started → List Connection → Type 0
Opens [] [] = Unit
Opens [] (c ∷ cs) = ⊥
Opens (plain ∷ ks) [] = ⊥
Opens (plain ∷ ks) (c ∷ cs) = IsNew c × Opens ks cs
Opens (tls ∷ ks) cs = Opens ks cs

-- A completion is one of the server, which may start connections, or one of a connection; there is none
-- once the pool is stopped.
pub data SystemStep (files : Files) (root : Bytes) (s t : System) : Type 0 where
  accepts :
      (new : List Started) (opened : List Connection)
      → Step s.server t.server
      → t.server.started ≡ s.server.started ++ new
      → Opens new opened
      → t.connections ≡ s.connections ++ opened
      → SystemStep files root s t
  serves :
      (before after : List Connection) (c d : Connection)
      → IsRunning s.server
      → s.connections ≡ before ++ c ∷ after
      → Conn.Step files root c d
      → t.connections ≡ before ++ d ∷ after
      → t.server ≡ s.server
      → SystemStep files root s t

pub data SystemReach (files : Files) (root : Bytes) (s : System) : System → Type 0 where
  begun : SystemReach files root s s
  then_step :
      {t u : System}
      → SystemReach files root s t
      → SystemStep files root t u
      → SystemReach files root s u

-- The replies that all connections have sent.
abbrev pub replies : List Connection → ℕ
replies [] = 0
replies (c ∷ cs) = length c.sent + replies cs

plains : List Started → ℕ
plains [] = 0
plains (plain ∷ ks) = suc (plains ks)
plains (tls ∷ ks) = plains ks

plains-append : (a b : List Started) → plains (a ++ b) ≡ plains a + plains b
unfolding plains
plains-append [] b = omega arith
plains-append (plain ∷ a) b = omega (arith, plains-append a b)
plains-append (tls ∷ a) b = plains-append a b

plains-All : (ks : List Started) → All (λ k. k ≡ plain) ks → plains ks ≡ length ks
unfolding plains
plains-All [] h = refl
plains-All (plain ∷ ks) h = ap suc (plains-All ks h.1)
plains-All (tls ∷ ks) h = cc (h.0)

Opens-Inv :
    (ks : List Started) (cs : List Connection) → Opens ks cs → All Inv cs × (length cs ≡ plains ks)
unfolding plains
Opens-Inv [] [] h = (tt, refl)
Opens-Inv [] (c ∷ cs) h = elim h [ ]
Opens-Inv (plain ∷ ks) [] h = elim h [ ]
Opens-Inv (plain ∷ ks) (c ∷ cs) (n, h) =
    let (v, e) = Opens-Inv ks cs h in
    ((rw n.started (start-Inv n.major n.minor n.status n.major_lt n.minor_lt), v), ap suc e)
Opens-Inv (tls ∷ ks) cs h = Opens-Inv ks cs h

All-after :
    (before after : List Connection) (c : Connection)
    → All Inv (before ++ c ∷ after)
    → Inv c × ((d : Connection) → Inv d → All Inv (before ++ d ∷ after))
All-after [] after c h = (h.0, λ d k. (k, h.1))
All-after (b ∷ before) after c h =
    let (v, f) = All-after before after c h.1 in (v, λ d k. (h.0, f d k))

length-put :
    (before after : List Connection) (c d : Connection)
    → length (before ++ c ∷ after) ≡ length (before ++ d ∷ after)
length-put [] after c d = refl
length-put (b ∷ before) after c d = ap suc (length-put before after c d)

-- Every connection keeps its invariant, and there is one for each plain one that was started.
record SystemInv (s : System) : Type 0 where
  each : All Inv s.connections
  counted : length s.connections ≡ plains s.server.started

module _ (files : Files) (root : Bytes) where
  SystemStep-Inv : {s t : System} → SystemInv s → SystemStep files root s t → SystemInv t
  SystemStep-Inv {s} {t} v (accepts new opened step k o e) =
      let (w, l) = Opens-Inv new opened o in
      record {
        each = rw e (All-append Inv s.connections opened v.each w);
        counted =
            rw (e, k)
              (omega (
                arith,
                length-append {0} s.connections opened,
                plains-append s.server.started new,
                v.counted,
                l,
              ));
      }
  SystemStep-Inv {s} {t} v (serves before after c d running e step f g) =
      let (w, put) = All-after before after c (rw e at v.each) in
      record {
        each = rw f (put d (Step-Inv files root w step));
        counted = rw (f, g) (length-put before after d c ∙ ap length (sym e) ∙ v.counted);
      }

  SystemReach-Inv : {s t : System} → SystemInv s → SystemReach files root s t → SystemInv t
  SystemReach-Inv v begun = v
  SystemReach-Inv v (then_step r step) = SystemStep-Inv (SystemReach-Inv v r) step

  SystemReach-server : {s t : System} → SystemReach files root s t → Reach s.server t.server
  SystemReach-server begun = here
  SystemReach-server (then_step r (accepts new opened step k o e)) =
      next (SystemReach-server r) step
  SystemReach-server {s} (then_step r (serves before after c d running e step f g)) =
      rw g (SystemReach-server r)

-- The accepts on the way to a state that completed without an error.
abbrev pub successes :
    {files : Files} {root : Bytes} {s t : System} → SystemReach files root s t → ℕ
successes begun = 0
successes (then_step r (accepts _ _ step _ _ _)) = successes r + succeeds step
successes (then_step r (serves _ _ _ _ _ _ _ _ _)) = successes r

SystemReach-successes :
    (files : Files) (root : Bytes) (n h : ℕ) {s t : System}
    → Runs n h 0 0 s.server
    → (r : SystemReach files root s t)
    → length t.server.started ≡ length s.server.started + successes r
SystemReach-successes files root n h v begun = omega arith
SystemReach-successes files root n h v (then_step r (accepts new opened step k o e)) = omega (
  arith,
  SystemReach-successes files root n h v r,
  Step-succeeds n h (Reach-Runs n h 0 0 v (SystemReach-server files root r)) step,
)
SystemReach-successes files root n h v (then_step r (serves before after c d running e step f g)) =
    rw g (SystemReach-successes files root n h v r)

HasSent-le : (p : Phase) (rep : Reply) (sent : List Reply) → HasSent p rep sent → length sent ≤ 1
HasSent-le reading rep sent h = rw h (omega arith)
HasSent-le writing rep sent h = rw h.0 (omega arith)
HasSent-le closed rep sent h = rw h.0 (omega arith)
HasSent-le dropped rep sent h = rw h (omega arith)

replies-le : (cs : List Connection) → All Inv cs → replies cs ≤ length cs
replies-le [] h = omega arith
replies-le (c ∷ cs) h = omega (arith, HasSent-le c.phase c.reply c.sent h.0.log, replies-le cs h.1)

-- In every state that the system reaches from a constructed server that listens over HTTP and has
-- no connection yet, in whatever order the completions come, there are as many connections as
-- accepts that completed without an error, each keeps its invariant, by which it has sent at
-- most one reply, a framed one, and there are no more replies than such accepts.
pub listen_and_serve-SystemInv :
    (files : Files) (root : Bytes) (n : ℕ) (s t : Server) (u : System)
    → construct (suc n) ≡ some s
    → listen_and_serve true s ≡ serving t
    → (r : SystemReach files root (record { server = t; connections = [] }) u)
    → All Inv u.connections
      × (length u.connections ≡ successes r)
      × (replies u.connections ≤ successes r)
listen_and_serve-SystemInv files root n s t u c l r =
    let (t', e, runs, none_yet) = serve-Runs (suc n) s (construct-IsFresh n s c) in
    let same : t' ≡ t = serving-inj (sym e ∙ l) in
    let first : SystemInv (record { server = t; connections = [] }) = record {
      each = tt;
      counted =
          unfold plains in ap plains (sym (ap (λ (z : Server). z.started) (sym same) ∙ none_yet));
    } in
    let v = SystemReach-Inv files root first r in
    let all_plain =
      (listen_and_serve-Reach n s t u.server c l (SystemReach-server files root r)).1 in
    let counted =
      v.counted
      ∙ plains-All u.server.started all_plain
      ∙ SystemReach-successes files root (suc n) 2 (subst (Runs (suc n) 2 0 0) same runs) r
      ∙ ap (λ (z : Server). length z.started + successes r) (sym same)
      ∙ ap (λ (ks : List Started). length ks + successes r) none_yet in
    (v.each, omega (arith, counted), omega (arith, replies-le u.connections v.each, counted))
