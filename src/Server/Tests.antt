-- ===== src/Server/Tests.antt =====
-- Concrete runs of the pool, the accept loops and a TLS connection.
use work_horz.Base.{
  ℕ, Bool, List, ◌<◌, get_elem?, true, false, [], ◌∷◌, ◌++◌, some, none, length, ◌≤◌, ◌≡◌, refl,
  Bytes, codes, arith, All,
}
use work_horz.Server.Pool.{IoContextPool, create, fill, get_io_context, get_io_contexts, advance}
use work_horz.Server.Pool.Rotation.{IsPool}
use work_horz.Server.Accept.{
  Accept, Server, Started, plain, construct, take_context, async_accept, begin_accept,
  bind_and_listen_http, do_accept, do_accept_http, start_accept, start_accept_http,
  listen_and_serve, listen_and_serve_tls, serving, Step, here, accepted, on_accept,
}
use work_horz.Server.Pool.Queue.{
  queue, seen, serve_times, get_io_contexts-serve_times, get_io_contexts-fair,
}
use mathlib.Core.Option
use work_horz.Server.Accept.Loops.{Runs}
use work_horz.Server.Accept.Serving.{listen_and_serve-total, listen_and_serve-Reach}
use work_horz.Http.Handler.{Files}
use work_horz.Http.Reply.{ok}
use work_horz.Http.Connection.{start, Connection, reading, on_read, buffer_size}
use work_horz.Server.System.Progress.{SystemReach-progress}
use work_horz.Http.Connection.Lifecycle.{Inv}
use work_horz.Server.System.{
  System, SystemReach, SystemStep, successes, begun, then_step, accepts, replies,
  listen_and_serve-SystemInv,
}
use work_horz.Server.SslConnection.{SslConnection, Reach-echo}
use work_horz.Server.SslConnection

abbrev pool : IoContextPool
pool = record { io_contexts = 0 ∷ 1 ∷ []; work = 0 ∷ 1 ∷ []; next_io_context = 0; stopped = [] }

pool-IsPool : IsPool 2 pool
pool-IsPool = record { contexts = refl; guarded = refl; next_lt = omega arith }

get_io_contexts-serve_times_example :
    Option.map seen (get_io_contexts 3 pool) ≡ serve_times 3 (queue pool)
get_io_contexts-serve_times_example = get_io_contexts-serve_times 2 3 pool pool-IsPool

get_io_contexts-fair_example :
    (got : List ℕ) × (pool' : IoContextPool) × (k : ℕ) × (get_io_contexts 2 pool
      ≡ some (got, pool'))
    × (k < 2)
    × (get_elem? got k ≡ some 1)
get_io_contexts-fair_example = get_io_contexts-fair 2 1 pool pool-IsPool (omega arith)

-- The server with a pool of two contexts, before and after it listens.
abbrev server : Server
server = record {
  pool = pool;
  acceptor_open = false;
  pending = [];
  started = [];
  logged = codes "WHZ Server is running" ∷ [];
}

abbrev http_server : Server
http_server = record server {
  acceptor_open = true;
  pending = do_accept_http ∷ start_accept_http ∷ [];
}

abbrev tls_server : Server
tls_server = record server {
  pool = record pool { next_io_context = 1 };
  acceptor_open = true;
  pending = do_accept ∷ start_accept ∷ [];
}

constructed : construct 2 ≡ some server
unfolding construct create fill take_context get_io_context advance
constructed = refl

listen_and_serve-total_example :
    (s : Server) × (construct 2 ≡ some s)
    × ((t : Server) × (listen_and_serve true s ≡ serving t) × Runs 2 2 0 0 t × (t.started ≡ []))
    × ((t : Server) × (listen_and_serve_tls true s ≡ serving t) × Runs 2 0 1 1 t × (t.started ≡ []))
listen_and_serve-total_example = listen_and_serve-total 1

serves : listen_and_serve true server ≡ serving http_server
unfolding listen_and_serve bind_and_listen_http begin_accept async_accept take_context
    get_io_context advance
serves = refl

listen_and_serve-Reach_example :
    Runs 2 2 0 0 http_server × All (λ (k : Started). k ≡ plain) http_server.started
listen_and_serve-Reach_example =
    listen_and_serve-Reach 1 server http_server http_server constructed serves here

abbrev buffer : Bytes
buffer = codes "........"

abbrev shaken : SslConnection
shaken = SslConnection.on_handshake true (SslConnection.start buffer)

abbrev echoed : SslConnection
echoed = SslConnection.on_read (some (codes "GET")) shaken

echoing : SslConnection.Reach (SslConnection.start buffer) echoed
unfolding SslConnection.start SslConnection.on_handshake SslConnection.do_read
echoing =
    SslConnection.next
      (SslConnection.next SslConnection.here (SslConnection.handshake true refl refl))
      (SslConnection.read (codes "GET") refl (omega arith) refl)

Reach-echo_example : echoed.sent ≡ echoed.received
Reach-echo_example = Reach-echo buffer echoing

-- One loop has accepted a connection, which has read nothing yet.
abbrev system : System
system = record {
  server = record http_server {
    pool = record pool { next_io_context = 1 };
    pending = start_accept_http ∷ do_accept_http ∷ [];
    started = plain ∷ [];
  };
  connections = start 0 0 ok ∷ [];
}

no_files : Files
no_files path = none

system-SystemReach :
    SystemReach no_files [] (record { server = http_server; connections = [] }) system
unfolding on_accept async_accept take_context get_io_context advance
system-SystemReach = then_step begun (
    accepts (plain ∷ []) (start 0 0 ok ∷ [])
      (accepted [] (start_accept_http ∷ []) do_accept_http true refl refl refl) refl
      (
        record {
          major = 0;
          minor = 0;
          status = ok;
          major_lt = omega arith;
          minor_lt = omega arith;
          started = refl;
        },
        tt,
      )
      refl)

listen_and_serve-SystemInv_example :
    All Inv (start 0 0 ok ∷ [])
    × (1 ≡ successes system-SystemReach)
    × (replies (start 0 0 ok ∷ []) ≤ successes system-SystemReach)
listen_and_serve-SystemInv_example =
    listen_and_serve-SystemInv no_files [] 1 server http_server system constructed serves
      system-SystemReach

SystemReach-progress_example :
    ((before after : List Accept) (a : Accept) (ok : Bool)
      → system.server.pending ≡ before ++ a ∷ after
      → (v : Server) × (on_accept a ok (record system.server { pending = before ++ after })
          ≡ some v)
        × Step system.server v)
    × ((before after : List Connection) (c : Connection) (got : Bytes)
        → system.connections ≡ before ++ c ∷ after
        → c.phase ≡ reading
        → length got ≤ buffer_size
        → (d : Connection) × (on_read no_files [] c got ≡ some d)
          × SystemStep no_files [] system (record system { connections = before ++ d ∷ after }))
SystemReach-progress_example =
    SystemReach-progress no_files [] 1 server http_server system constructed serves
      system-SystemReach refl
