-- ===== src/Server/Accept.antt =====
-- src/whz_server.cpp: the accept loops. `pending` are the `async_accept`s that have not completed, by
-- the function that started them, and `started` the connections that were made.
pub mod Loops
pub mod Serving
pub mod Mixed
pub mod Counted
use mathlib.Core.Option
use work_horz.Base.{
  ℕ, zero, suc, ◌+◌, ◌-◌, ◌*◌, ◌/◌, ◌≤◌, ◌<◌, ◌%◌, Bool, true, false, not, ◌&&◌, ◌||◌, List, [],
  ◌∷◌, ◌++◌, Option, none, some, ◌≡◌, ◌≢◌, ◌↔◌, refl, sym, ap, ◌∙◌, ◌⊎◌, inl, inr, ◌==◌, leb, ltb,
  if◌then◌else◌, Bytes, is_empty, length, take, drop, length-drop, replicate, All, All-append,
  length-append, take-append-drop, length-replicate, bytes_eq, bytes_eq_iff, bytes_eq_refl,
  starts_with, contains, codes, String, map, append-nil, append_assoc, Option-cases, Bool-cases,
  arith,
}
use work_horz.Server.Pool.{IoContextPool, create, get_io_context, stop}

pub data Accept : Type 0 where
  do_accept_http do_accept start_accept_http start_accept : Accept

pub data Started : Type 0 where
  plain tls : Started

pub record Server : Type 0 where
  pub pool : IoContextPool
  pub acceptor_open : Bool
  pub pending : List Accept
  pub started : List Started
  -- what it logs as information
  pub logged : List Bytes

-- A context from the pool, for what wants one; `none` is an index out of range.
unfoldable pub take_context : Server → Option Server
take_context s =
    Option.map (λ (r : ℕ × IoContextPool). record s { pool = r.1 }) (get_io_context s.pool)

-- The constructor: the signal set and the acceptor get a context each, and a message is logged;
-- `none` is `exit(1)`.
unfoldable pub construct : ℕ → Option Server
construct io_pool_size = elim (create io_pool_size) [
  | none ↦ none
  | some pool ↦
      elim (take_context
        (record { pool = pool; acceptor_open = false; pending = []; started = []; logged = [] })) [
          | none ↦ none
          | some s ↦
              Option.map (λ (t : Server). record t { logged = codes "WHZ Server is running" ∷ [] })
                (take_context s)
        ]
]

-- `acceptor_.async_accept(io_context_pool_.get_io_context(), …)`.
unfoldable pub async_accept : Accept → Server → Option Server
async_accept a s =
    Option.map (λ (t : Server). record t { pending = t.pending ++ a ∷ [] }) (take_context s)

-- `std::make_shared<…>(…)->start()`.
abbrev pub start : Started → Server → Server
start k s = record s { started = s.started ++ k ∷ [] }

-- The handlers of the four functions; `ok` is that there was no error.
unfoldable pub on_accept : Accept → Bool → Server → Option Server
on_accept do_accept_http ok s =
    if not s.acceptor_open
    then some s
    else async_accept do_accept_http (if ok then start plain s else s)
on_accept do_accept ok s =
    if not s.acceptor_open then some s else async_accept do_accept (start plain s)
on_accept start_accept_http ok s = async_accept do_accept_http (if ok then start plain s else s)
on_accept start_accept ok s =
    if not s.acceptor_open
    then some s
    else async_accept start_accept (if ok then start tls s else s)

-- What `listen_and_serve` comes to before the pool runs: an exception of the resolver or of the
-- acceptor, the error code of a failed bind, or a server whose pool runs.
pub data Listening : Type 0 where
  threw : Listening
  fault : Listening
  io_error : Server → Listening
  serving : Server → Listening

-- `bind_and_listen_http` and `bind_and_listen`; both return `std::nullopt`, which is `none`. The
-- second one also takes a context for a resolver that it does not use.
unfoldable pub bind_and_listen_http : Server → Option (Option ℕ × Server)
bind_and_listen_http s =
    Option.map (λ (t : Server). (none, t))
      (async_accept do_accept_http (record s { acceptor_open = true }))

unfoldable pub bind_and_listen : Server → Option (Option ℕ × Server)
bind_and_listen s = elim (take_context s) [
  | none ↦ none
  | some t ↦
      Option.map (λ (u : Server). (none, u))
        (async_accept do_accept (record t { acceptor_open = true }))
]

-- `start_accept_http` and `start_accept`, at their first call.
unfoldable pub begin_accept : Accept → Server → Option Server
begin_accept a s = if not s.acceptor_open then some s else async_accept a s

abbrev or_fault : Option Server → Listening
or_fault none = fault
or_fault (some s) = serving s

-- Behind the bind: its error code is an error, and otherwise the loop is started.
abbrev serve_with : Accept → Option (Option ℕ × Server) → Listening
serve_with a none = fault
serve_with a (some (some code, s)) = io_error s
serve_with a (some (none, s)) = or_fault (begin_accept a s)

-- `binds` says that the resolver and the acceptor throw nothing.
unfoldable pub listen_and_serve : Bool → Server → Listening
listen_and_serve binds s =
    if binds then serve_with start_accept_http (bind_and_listen_http s) else threw

unfoldable pub listen_and_serve_tls : Bool → Server → Listening
listen_and_serve_tls binds s = if binds then serve_with start_accept (bind_and_listen s) else threw

-- The handler of `do_await_stop`.
pub on_signal : Server → Server
on_signal s = record s { pool = stop s.pool }

-- The contexts run, and with them the handlers, until the pool is stopped.
abbrev pub IsRunning : Server → Type 0
IsRunning s = s.pool.stopped ≡ []

-- One pending operation completes, which none does once the pool is stopped.
pub data Step (s t : Server) : Type 0 where
  accepted :
      (before after : List Accept) (a : Accept) (ok : Bool)
      → IsRunning s
      → s.pending ≡ before ++ a ∷ after
      → on_accept a ok (record s { pending = before ++ after }) ≡ some t
      → Step s t
  signalled : IsRunning s → t ≡ on_signal s → Step s t

pub data Reach (s : Server) : Server → Type 0 where
  here : Reach s s
  next : {t u : Server} → Reach s t → Step t u → Reach s u
