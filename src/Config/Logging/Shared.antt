-- ===== src/Config/Logging/Shared.antt =====
-- src/whz_quill_wrapper.cpp: all loggers share one logger of the library.
use mathlib.Core.Path.{subst}
use work_horz.Base.{
  ℕ, true, false, List, [], ◌∷◌, ◌++◌, Option, none, some, ◌≡◌, sym, Bytes, All, All-append,
  Option-cases, ◌⊎◌, inl, inr, arith,
}
use work_horz.Config.{Config}
use work_horz.Config.Logging.{
  Level, Call, Quill, Logger, call, call_on, create_or_get, construct, log_message, stop_logger,
  destroy,
}
use work_horz.Config.Logging.Defined.{
  Points, log_message-defined, stop_logger-defined, destroy-defined,
}

-- The objects of a program, and the library.
pub record Program : Type 0 where
  pub objects : List Logger
  pub quill : Quill

abbrev pub IsClosed : Logger → Type 0
IsClosed o = o.is_backend_closed ≡ true

-- What a program may do that keeps two rules: `stop_logger` is for the last object that is not closed,
-- as its comment demands; and an object that is closed is only destroyed, though the methods that log
-- do not look whether it is.
pub data Step (c : Config) (s t : Program) : Type 0 where
  constructs :
      t.objects ≡ s.objects ++ (construct s.quill).0 ∷ []
      → t.quill ≡ (construct s.quill).1
      → Step c s t
  logs :
      (before after : List Logger) (o : Logger) (level : Level) (message : Bytes)
      → s.objects ≡ before ++ o ∷ after
      → o.is_backend_closed ≡ false
      → log_message c level message o s.quill ≡ some t.quill
      → t.objects ≡ s.objects
      → Step c s t
  stops :
      (before after : List Logger) (o stopped : Logger)
      → s.objects ≡ before ++ o ∷ after
      → All IsClosed before
      → All IsClosed after
      → stop_logger o s.quill ≡ some (stopped, t.quill)
      → t.objects ≡ before ++ stopped ∷ after
      → Step c s t
  destroys :
      (before after : List Logger) (o : Logger)
      → s.objects ≡ before ++ o ∷ after
      → destroy o s.quill ≡ some t.quill
      → t.objects ≡ before ++ after
      → Step c s t

pub data Reach (c : Config) (s : Program) : Program → Type 0 where
  here : Reach c s s
  next : {t u : Program} → Reach c s t → Step c t u → Reach c s u

call_on-registered :
    (pointer : ℕ) (c : Call) (q r : Quill)
    → call_on pointer c q ≡ some r
    → r.registered ≡ q.registered
unfolding call_on call
call_on-registered pointer c q r h = ground arith

log_message-registered :
    (c : Config) (level : Level) (message : Bytes) (o : Logger) (q r : Quill)
    → log_message c level message o q ≡ some r
    → r.registered ≡ q.registered
unfolding log_message
log_message-registered c level message o q r h =
    ground (arith, call_on-registered o.qlogger (Call.log level message) q r)

destroy-registered : (o : Logger) (q r : Quill) → destroy o q ≡ some r → r.registered ≡ q.registered
unfolding destroy
destroy-registered o q r h = ground (arith, call_on-registered o.qlogger Call.flush_log q r)

stop_logger-IsClosed :
    (o stopped : Logger) (q r : Quill) → stop_logger o q ≡ some (stopped, r) → IsClosed stopped
unfolding stop_logger
stop_logger-IsClosed o stopped q r h = ground arith

IsClosed-Points :
    (registered : Option ℕ) (os : List Logger) → All IsClosed os → All (Points registered) os
IsClosed-Points registered [] h = tt
IsClosed-Points registered (o ∷ os) h = ((λ e. cc), IsClosed-Points registered os h.1)

All-split :
    (P : Logger → Type 0) (before after : List Logger) (o : Logger)
    → All P (before ++ o ∷ after)
    → All P before × P o × All P after
All-split P [] after o h = (tt, h.0, h.1)
All-split P (b ∷ before) after o h =
    let (x, y, z) = All-split P before after o h.1 in ((h.0, x), y, z)

-- Where nothing is registered, every object is closed.
Points-none :
    (registered : Option ℕ) (os : List Logger) → All (Points none) os → All (Points registered) os
Points-none registered [] h = tt
Points-none registered (o ∷ os) h = ((λ e. let k = h.0 e in cc), Points-none registered os h.1)

-- What the constructor leaves registered.
create_or_get_lem :
    (q : Quill)
    → ((create_or_get q).1.registered ≡ some (create_or_get q).0.qlogger)
      × ((q.registered ≡ none) ⊎ ((create_or_get q).1.registered ≡ q.registered))
unfolding create_or_get
create_or_get_lem q = elim (Option-cases q.registered) [
  | inl e ↦ (ground (arith, e), inl e)
  | inr (current, e) ↦ (ground (arith, e), inr (ground (arith, e)))
]

construct_lem :
    (q : Quill)
    → ((construct q).1.registered ≡ some (construct q).0.qlogger)
      × ((q.registered ≡ none) ⊎ ((construct q).1.registered ≡ q.registered))
unfolding construct call
construct_lem q = create_or_get_lem _

construct-Points :
    (q : Quill) (os : List Logger)
    → All (Points q.registered) os
    → All (Points (construct q).1.registered) (os ++ (construct q).0 ∷ [])
construct-Points q os h =
    let (fits, kept) = construct_lem q in
    let old : All (Points (construct q).1.registered) os = elim kept [
      | inl e ↦
          Points-none (construct q).1.registered os
            (subst (λ (r : Option ℕ). All (Points r) os) e h)
      | inr e ↦ subst (λ (r : Option ℕ). All (Points r) os) (sym e) h
    ] in
    All-append (Points (construct q).1.registered) os _ old ((λ e. fits), tt)

abbrev Fits : Program → Type 0
Fits s = All (Points s.quill.registered) s.objects

moved :
    {a b : Option ℕ} {os ps : List Logger} → b ≡ a → ps ≡ os → All (Points a) os → All (Points b) ps
moved e f h = rw (e, f) h

Step-Fits : (c : Config) {s t : Program} → Fits s → Step c s t → Fits t
Step-Fits c {s} {t} v (constructs e f) = rw (e, f) (construct-Points s.quill s.objects v)
Step-Fits c {s} {t} v (logs before after o level message e open_yet f g) =
    moved (log_message-registered c level message o s.quill t.quill f) g v
Step-Fits c {s} {t} v (stops before after o stopped e cb ca f g) = rw g (
    All-append (Points t.quill.registered) before (stopped ∷ after)
      (IsClosed-Points t.quill.registered before cb)
      (IsClosed-Points t.quill.registered (stopped ∷ after)
        (stop_logger-IsClosed o stopped s.quill t.quill f, ca)))
Step-Fits c {s} {t} v (destroys before after o e f g) =
    let (x, y, z) = All-split (Points s.quill.registered) before after o (rw e at v) in
    moved (destroy-registered o s.quill t.quill f) g
      (All-append (Points s.quill.registered) before after x z)

Reach-Fits : (c : Config) {s t : Program} → Fits s → Reach c s t → Fits t
Reach-Fits c v here = v
Reach-Fits c v (next r step) = Step-Fits c (Reach-Fits c v r) step

-- In every state of a program that starts without loggers, whatever the library holds then, that stops a
-- logger only where it is the last one that is not closed, and that neither logs through an
-- object that is closed nor stops it again: a logger that is not closed logs, is stopped and is
-- destroyed with no use of a logger that was removed, and one that is closed is destroyed with
-- none.
pub Reach-defined :
    (c : Config) (q : Quill) (s : Program) (before after : List Logger) (o : Logger)
    → Reach c (record { objects = []; quill = q }) s
    → s.objects ≡ before ++ o ∷ after
    → (o.is_backend_closed ≡ false
        → ((level : Level) (message : Bytes)
            → (r : Quill) × (log_message c level message o s.quill ≡ some r))
          × ((r : Logger × Quill) × (stop_logger o s.quill ≡ some r)))
      × ((r : Quill) × (destroy o s.quill ≡ some r))
Reach-defined c q s before after o r e =
    let (_, points, _) =
      All-split (Points s.quill.registered) before after o (rw e at (Reach-Fits c tt r)) in
    (
      λ open_yet. (
        λ level message. log_message-defined c level message o s.quill (points open_yet),
        stop_logger-defined o s.quill (points open_yet),
      ),
      destroy-defined o s.quill points,
    )
