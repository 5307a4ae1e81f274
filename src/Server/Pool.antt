-- ===== src/Server/Pool.antt =====
-- src/whz_io_context_pool.cpp: the pool of io_contexts. A context is its number.
pub mod Rotation
pub mod Queue
use mathlib.Core.Option
use work_horz.Base.{
  ℕ, zero, suc, get_elem?, List, [], ◌∷◌, ◌++◌, Option, none, some, ◌==◌, if◌then◌else◌, length,
}

-- `stopped` are the contexts that `stop` has been called on.
pub record IoContextPool : Type 0 where
  pub io_contexts : List ℕ
  pub work : List ℕ
  pub next_io_context : ℕ
  pub stopped : List ℕ

-- The loop of the constructor: `left` rounds, the next one for context `i`.
unfoldable pub fill : ℕ → ℕ → IoContextPool → IoContextPool
fill zero i pool = pool
fill (suc left) i pool =
    fill left (suc i)
      (record pool { io_contexts = pool.io_contexts ++ i ∷ []; work = pool.work ++ i ∷ [] })

-- The constructor; `none` is `exit(1)`.
unfoldable pub create : ℕ → Option IoContextPool
create pool_size =
    if pool_size == 0
    then none
    else some (
        fill pool_size 0
          (record { io_contexts = []; work = []; next_io_context = 0; stopped = [] }))

-- One thread for each context: the contexts that the threads run.
pub run : IoContextPool → List ℕ
run pool = pool.io_contexts

unfoldable pub stop : IoContextPool → IoContextPool
stop pool = record pool { stopped = pool.stopped ++ pool.io_contexts }

-- The pool after `++next_io_context`, and its wrap-around.
unfoldable pub advance : IoContextPool → IoContextPool
advance pool =
    if suc pool.next_io_context == length pool.io_contexts
    then record pool { next_io_context = 0 }
    else record pool { next_io_context = suc pool.next_io_context }

-- `none` is an index out of range.
unfoldable pub get_io_context : IoContextPool → Option (ℕ × IoContextPool)
get_io_context pool =
    Option.map (λ context. (context, advance pool))
      (get_elem? pool.io_contexts pool.next_io_context)

-- Calls in a row: the contexts that they return, and the pool after them.
pub get_io_contexts : ℕ → IoContextPool → Option (List ℕ × IoContextPool)
get_io_contexts zero pool = some ([], pool)
get_io_contexts (suc n) pool = elim (get_io_context pool) [
  | none ↦ none
  | some (context, pool') ↦
      Option.map (λ (r : List ℕ × IoContextPool). (context ∷ r.0, r.1)) (get_io_contexts n pool')
]
