-- ===== src/Server/System/Progress.antt =====
-- src/whz_server.cpp and src/whz_connection.cpp: every completion that the system waits for is handled.
use work_horz.Base.{ℕ, suc, Bool, true, List, [], ◌∷◌, ◌++◌, some, ◌≡◌, Bytes, refl, length, ◌≤◌}
use work_horz.Http.Handler.{Files}
use work_horz.Http.Connection.{Connection, reading, on_read, buffer_size, read}
use work_horz.Http.Connection.Lifecycle.{on_read-Inv}
use work_horz.Server.Accept.{
  Accept, Server, construct, serving, listen_and_serve, on_accept, IsRunning, Step, accepted,
}
use work_horz.Server.Accept.Loops.{without-Runs, on_accept-Runs}
use work_horz.Server.Accept.Serving.{listen_and_serve-Reach}
use work_horz.Server.System.{
  System, SystemReach, SystemStep, serves, SystemReach-server, All-after,
  listen_and_serve-SystemInv,
}

-- In every state that the system reaches from a constructed server that listens over HTTP and has
-- no connection yet, as long as the pool is not stopped: each accept that is pending can complete, with
-- an error or without one, and each connection that reads can get any bytes that fit into its buffer.
-- The handler then runs to its end, with no undefined behaviour and without ending the program, and
-- that is a step of the server or of the connection. Writes are left out, since `shutdown` may
-- throw when one completes.
pub SystemReach-progress :
    (files : Files) (root : Bytes) (n : ℕ) (s t : Server) (u : System)
    → construct (suc n) ≡ some s
    → listen_and_serve true s ≡ serving t
    → SystemReach files root (record { server = t; connections = [] }) u
    → IsRunning u.server
    → ((before after : List Accept) (a : Accept) (ok : Bool)
        → u.server.pending ≡ before ++ a ∷ after
        → (v : Server) × (on_accept a ok (record u.server { pending = before ++ after }) ≡ some v)
          × Step u.server v)
      × ((before after : List Connection) (c : Connection) (got : Bytes)
          → u.connections ≡ before ++ c ∷ after
          → c.phase ≡ reading
          → length got ≤ buffer_size
          → (d : Connection) × (on_read files root c got ≡ some d)
            × SystemStep files root u (record u { connections = before ++ d ∷ after }))
SystemReach-progress files root n s t u c l r running = (
  λ before after a ok e.
      let runs = (listen_and_serve-Reach n s t u.server c l (SystemReach-server files root r)).0 in
      let (h, p, q, w, _, _, _) = without-Runs (suc n) before after a 2 0 0 u.server e runs in
      let (v, f, _, _) = on_accept-Runs (suc n) a ok h p q _ w in
      (v, f, accepted before after a ok running e f),
  λ before after k got e reads fits.
      let (each, _, _) = listen_and_serve-SystemInv files root n s t u c l r in
      let (d, f, _) =
        on_read-Inv files root k got reads (All-after before after k (rw e at each)).0 in
      (d, f, serves before after k d running e (read got reads fits f) refl refl),
)
