-- ===== src/Server/Pool/Rotation.antt =====
-- src/whz_io_context_pool.cpp: the contexts are handed out in turn.
use mathlib.Core.Option
use work_horz.Base.{
  ℕ, zero, suc, ◌+◌, ◌<◌, ◌%◌, get_elem?, List, [], ◌∷◌, ◌++◌, none, some, ◌≡◌, refl, sym, ap, ◌∙◌,
  ◌==◌, if◌then◌else◌, length, append-nil, append_assoc, arith,
}
use native.Mathlib.Numerals.{add-one}
use native.Mathlib.Nat.{mod-eq_of_lt, mod-add-mod}
use work_horz.Server.Pool.{IoContextPool, fill, create, advance, get_io_context, get_io_contexts}

-- The numbers from `s` on.
abbrev iota : ℕ → ℕ → List ℕ
iota s zero = []
iota s (suc n) = s ∷ iota (suc s) n

pub get_elem?-iota : (n s i : ℕ) → i < n → get_elem? (iota s n) i ≡ some (s + i)
get_elem?-iota zero s i h = elim h [ ]
get_elem?-iota (suc n) s zero h = ap some (omega arith)
get_elem?-iota (suc n) s (suc i) h =
    get_elem?-iota n (suc s) i (omega arith) ∙ ap some (omega arith)

length-iota : (n s : ℕ) → length (iota s n) ≡ n
length-iota zero s = refl
length-iota (suc n) s = ap suc (length-iota n (suc s))

-- A pool of `n` contexts, each with its work guard, whose next one exists.
pub record IsPool (n : ℕ) (pool : IoContextPool) : Type 0 where
  pub contexts : pool.io_contexts ≡ iota 0 n
  pub guarded : pool.work ≡ iota 0 n
  pub next_lt : pool.next_io_context < n

fill_lem :
    (left i : ℕ) (pool : IoContextPool)
    → fill left i pool ≡ record pool {
      io_contexts = pool.io_contexts ++ iota i left;
      work = pool.work ++ iota i left;
    }
unfolding fill
fill_lem zero i pool = simp append-nil
fill_lem (suc left) i pool = fill_lem left (suc i) _ ∙ simp append_assoc

-- A pool of no contexts is refused, and one of any other size is created well formed and with
-- the first context next.
pub create-IsPool :
    (n : ℕ)
    → (create 0 ≡ none)
      × ((pool : IoContextPool) × (create (suc n) ≡ some pool)
          × IsPool (suc n) pool
          × (pool.next_io_context ≡ 0))
unfolding create
create-IsPool n = (
  refl,
  (
    record {
      io_contexts = iota 0 (suc n);
      work = iota 0 (suc n);
      next_io_context = 0;
      stopped = [];
    },
    rw fill_lem (ground arith),
    record { contexts = refl; guarded = refl; next_lt = omega arith },
    refl,
  ),
)

wrap_next : (n s : ℕ) → s < n → (if suc s == n then 0 else suc s) ≡ suc s % n
wrap_next n s h = grind (arith, mod-eq_of_lt)

suc-mod : (n s : ℕ) → 0 < n → suc (s % n) % n ≡ suc s % n
suc-mod n s h =
    ap (λ k. k % n) (sym (add-one (s % n))) ∙ mod-add-mod s n 1 ∙ ap (λ k. k % n) (add-one s)

-- A call returns the next context, with the index in range, and passes the turn on.
pub get_io_context-IsPool :
    (n : ℕ) (pool : IoContextPool)
    → IsPool n pool
    → (get_io_context pool ≡ some (pool.next_io_context, advance pool))
      × IsPool n (advance pool)
      × ((advance pool).next_io_context ≡ suc pool.next_io_context % n)
unfolding get_io_context
get_io_context-IsPool n pool v = (
  ap (Option.map (λ context. (context, advance pool))) (
      ap (λ l. get_elem? l pool.next_io_context) v.contexts
      ∙ get_elem?-iota n 0 pool.next_io_context v.next_lt
      ∙ ap some (omega arith)),
  advance-IsPool,
  advance-next,
)
  where
    size : length pool.io_contexts ≡ n
    size = ap length v.contexts ∙ length-iota n 0

    advance-IsPool : IsPool n (advance pool)
    advance-IsPool = unfold advance in ground (arith, size)

    advance-next : (advance pool).next_io_context ≡ suc pool.next_io_context % n
    advance-next =
        unfold advance in ground (arith, wrap_next n pool.next_io_context v.next_lt, size)

-- The contexts that `k` calls return, from turn `s` on.
abbrev pub turns : ℕ → ℕ → ℕ → List ℕ
turns n s zero = []
turns n s (suc k) = s % n ∷ turns n (suc s) k

-- From a well-formed pool of `n` contexts whose next one is `s` modulo `n`, any number of calls
-- in a row returns the contexts `s`, `s + 1` and so on, modulo `n`, with no index out of range,
-- and leaves a well-formed pool.
pub get_io_contexts-turns :
    (n k s : ℕ) (pool : IoContextPool)
    → IsPool n pool
    → pool.next_io_context ≡ s % n
    → (pool' : IoContextPool) × (get_io_contexts k pool ≡ some (turns n s k, pool'))
      × IsPool n pool'
unfolding get_io_contexts
get_io_contexts-turns n zero s pool v e = (pool, refl, v)
get_io_contexts-turns n (suc k) s pool v e =
    let (got, w, turn) = get_io_context-IsPool n pool v in
    let (last, rest, u) =
      get_io_contexts-turns n k (suc s) (advance pool) w
        (turn ∙ ap (λ k. suc k % n) e ∙ suc-mod n s (omega arith)) in
    (last, ground arith, u)
