-- ===== src/Server/Pool/Queue.antt =====
-- src/whz_io_context_pool.cpp: the pool as a queue of its contexts.
use mathlib.Core.Option
use native.Mathlib.Nat.{add-mod_left, mod-eq_of_lt}
use work_horz.Base.{
  ℕ, zero, suc, ◌+◌, ◌-◌, ◌%◌, ◌<◌, ◌==◌, ==_iff, leb, List, [], ◌∷◌, ◌++◌, Option, none, some,
  length, take, drop, get_elem?, ◌≡◌, refl, sym, ap, ◌∙◌, append_assoc, append-nil, arith,
  Bool-cases, inl, inr,
}
use work_horz.Server.Pool.{IoContextPool, get_io_context, get_io_contexts, advance}
use work_horz.Server.Pool.Rotation.{
  IsPool, get_io_context-IsPool, turns, get_io_contexts-turns, get_elem?-iota,
}

-- The contexts in the order in which they come next.
abbrev pub queue : IoContextPool → List ℕ
queue pool =
    drop pool.next_io_context pool.io_contexts ++ take pool.next_io_context pool.io_contexts

drop-get_elem? : (xs : List ℕ) (s x : ℕ) → get_elem? xs s ≡ some x → drop s xs ≡ x ∷ drop (suc s) xs
drop-get_elem? [] s x h = cc
drop-get_elem? (y ∷ xs) zero x h = cc
drop-get_elem? (y ∷ xs) (suc s) x h = drop-get_elem? xs s x h

take-get_elem? :
    (xs : List ℕ) (s x : ℕ) → get_elem? xs s ≡ some x → take (suc s) xs ≡ take s xs ++ x ∷ []
take-get_elem? [] s x h = cc
take-get_elem? (y ∷ xs) zero x h = cc
take-get_elem? (y ∷ xs) (suc s) x h = ap (λ ys. y ∷ ys) (take-get_elem? xs s x h)

take-length : (xs : List ℕ) → take (length xs) xs ≡ xs
take-length [] = refl
take-length (x ∷ xs) = ap (λ ys. x ∷ ys) (take-length xs)

drop-length : (xs : List ℕ) → drop (length xs) xs ≡ []
drop-length [] = refl
drop-length (x ∷ xs) = drop-length xs

-- The abstract pool: the front of the queue is handed out, and goes to its back.
abbrev pub serve : List ℕ → Option (ℕ × List ℕ)
serve [] = none
serve (x ∷ xs) = some (x, xs ++ x ∷ [])

abbrev pub serve_times : ℕ → List ℕ → Option (List ℕ × List ℕ)
serve_times zero q = some ([], q)
serve_times (suc k) q = elim (serve q) [
  | none ↦ none
  | some (x, rest) ↦ Option.map (λ (r : List ℕ × List ℕ). (x ∷ r.0, r.1)) (serve_times k rest)
]

get_elem?-next :
    (n : ℕ) (pool : IoContextPool)
    → IsPool n pool
    → get_elem? pool.io_contexts pool.next_io_context ≡ some pool.next_io_context
get_elem?-next n pool v =
    ap (λ l. get_elem? l pool.next_io_context) v.contexts
    ∙ get_elem?-iota n 0 pool.next_io_context v.next_lt
    ∙ ap some (omega arith)

-- The queue behind a call.
queue-advance :
    (pool : IoContextPool) (x : ℕ)
    → get_elem? pool.io_contexts pool.next_io_context ≡ some x
    → queue (advance pool)
      ≡ (drop (suc pool.next_io_context) pool.io_contexts
          ++ take pool.next_io_context pool.io_contexts)
        ++ x ∷ []
unfolding advance
queue-advance pool x h =
    let xs = pool.io_contexts in
    let s = pool.next_io_context in
    elim (Bool-cases (suc s == length xs)) [
      | inl wraps ↦
          let last : suc s ≡ length xs = (==_iff (suc s) (length xs)).0 wraps in
          let gone : drop (suc s) xs ≡ [] = ap (λ k. drop k xs) last ∙ drop-length xs in
          let whole : take s xs ++ x ∷ [] ≡ xs =
            sym (take-get_elem? xs s x h) ∙ ap (λ k. take k xs) last ∙ take-length xs in
          rw wraps (append-nil xs ∙ sym whole ∙ ap (λ z. (z ++ take s xs) ++ x ∷ []) (sym gone))
      | inr goes_on ↦ rw goes_on (
          ap (λ z. drop (suc s) xs ++ z) (take-get_elem? xs s x h)
          ∙ sym (append_assoc (drop (suc s) xs) (take s xs) (x ∷ [])))
    ]

serve-queue :
    (n : ℕ) (pool : IoContextPool)
    → IsPool n pool
    → serve (queue pool) ≡ some (pool.next_io_context, queue (advance pool))
serve-queue n pool v =
    let there = get_elem?-next n pool v in
    ap (λ z. serve (z ++ take pool.next_io_context pool.io_contexts))
      (drop-get_elem? pool.io_contexts pool.next_io_context pool.next_io_context there)
    ∙ ap (λ q. some (pool.next_io_context, q)) (sym (queue-advance pool pool.next_io_context there))

-- What the calls return, and the queue that they leave.
abbrev pub seen : List ℕ × IoContextPool → List ℕ × List ℕ
seen (got, pool) = (got, queue pool)

abbrev in_front : ℕ → List ℕ × List ℕ → List ℕ × List ℕ
in_front x (got, q) = (x ∷ got, q)

abbrev in_front_pool : ℕ → List ℕ × IoContextPool → List ℕ × IoContextPool
in_front_pool x (got, pool) = (x ∷ got, pool)

-- Any number of calls in a row on a well-formed pool hand out what the same number of steps of the queue
-- hand out, and leave a pool whose queue is what those steps leave.
pub get_io_contexts-serve_times :
    (n k : ℕ) (pool : IoContextPool)
    → IsPool n pool
    → Option.map seen (get_io_contexts k pool) ≡ serve_times k (queue pool)
unfolding get_io_contexts
get_io_contexts-serve_times n zero pool v = refl
get_io_contexts-serve_times n (suc k) pool v =
    let (got, w, turn) = get_io_context-IsPool n pool v in
    ap (Option.map seen) (contexts got)
    ∙ pass (get_io_contexts k (advance pool))
    ∙ ap (Option.map (in_front pool.next_io_context))
        (get_io_contexts-serve_times n k (advance pool) w)
    ∙ sym (steps pool.next_io_context (queue pool) (queue (advance pool)) (serve-queue n pool v))
  where
    pass :
        (o : Option (List ℕ × IoContextPool))
        → Option.map seen (Option.map (in_front_pool pool.next_io_context) o)
          ≡ Option.map (in_front pool.next_io_context) (Option.map seen o)
    pass none = refl
    pass (some r) = refl

    contexts :
        get_io_context pool ≡ some (pool.next_io_context, advance pool)
        → get_io_contexts (suc k) pool
          ≡ Option.map (in_front_pool pool.next_io_context) (get_io_contexts k (advance pool))
    contexts got = rw (got, get_io_contexts) refl

    steps :
        (x : ℕ) (q rest : List ℕ)
        → serve q ≡ some (x, rest)
        → serve_times (suc k) q ≡ Option.map (in_front x) (serve_times k rest)
    steps x q rest e = rw (e, serve_times) refl

get_elem?-turns : (n m s k : ℕ) → k < m → get_elem? (turns n s m) k ≡ some ((s + k) % n)
get_elem?-turns n zero s k h = absurd (omega (arith, h))
get_elem?-turns n (suc m) s zero h = let e : s ≡ s + 0 = omega arith in ap (λ i. some (i % n)) e
get_elem?-turns n (suc m) s (suc k) h =
    let e : suc s + k ≡ s + suc k = omega arith in
    get_elem?-turns n m (suc s) k (omega (arith, h)) ∙ ap (λ i. some (i % n)) e

-- Every context of a well-formed pool of `n` contexts is among those that the next `n` calls return,
-- and these calls succeed.
pub get_io_contexts-fair :
    (n i : ℕ) (pool : IoContextPool)
    → IsPool n pool
    → i < n
    → (got : List ℕ) × (pool' : IoContextPool) × (k : ℕ) × (get_io_contexts n pool
        ≡ some (got, pool'))
      × (k < n)
      × (get_elem? got k ≡ some i)
get_io_contexts-fair n i pool v h =
    let s = pool.next_io_context in
    let (pool', same, _) = get_io_contexts-turns n n s pool v (sym (mod-eq_of_lt v.next_lt)) in
    elim (Bool-cases (leb s i)) [
      | inl later ↦
          let at : s + (i - s) ≡ i = ground (arith, later) in
          (
            turns n s n,
            pool',
            i - s,
            same,
            omega (arith, h),
            get_elem?-turns n n s (i - s) (omega (arith, h))
                ∙ ap (λ j. some (j % n)) at
                ∙ ap some (mod-eq_of_lt h),
          )
      | inr earlier ↦
          let at : s + (n - s + i) ≡ n + i = ground (arith, v.next_lt) in
          (
            turns n s n,
            pool',
            n - s + i,
            same,
            ground (arith, earlier, v.next_lt),
            get_elem?-turns n n s (n - s + i) (ground (arith, earlier, v.next_lt))
                ∙ ap (λ j. some (j % n)) at
                ∙ ap some (add-mod_left n i ∙ mod-eq_of_lt h),
          )
    ]
