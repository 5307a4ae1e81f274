-- ===== src/Http/Handler/Confined.antt =====
-- src/whz_request_handler.cpp: which files a reply can depend on.
use work_horz.Base.{
  true, false, [], ◌∷◌, ◌++◌, none, some, ◌≡◌, inl, inr, if◌then◌else◌, Bytes, starts_with,
  contains, codes, Option-cases, Bool-cases, arith,
}
use work_horz.Http.Message.{Request}
use work_horz.Http.Handler.{
  Files, last, c_str, is_allowed, with_index, request_path, handle_request,
}
use work_horz.Http.Reply.{Reply}
use work_horz.Http.Url.{url_decode}

-- The path stays below the directory that it is read in: it begins with `/` and never goes up.
pub record IsConfined (path : Bytes) : Type 0 where
  pub rooted : starts_with path (codes "/") ≡ true
  pub no_parent : contains path (codes "..") ≡ false

contains-index :
    (p : Bytes)
    → last p ≡ b'/'
    → contains p (codes "..") ≡ false
    → contains (p ++ codes "index.html") (codes "..") ≡ false
unfolding contains starts_with last
contains-index [] h k = cc
contains-index (c ∷ []) h k = rw h
contains-index (c ∷ d ∷ p) h k = ground (arith, contains-index (d ∷ p) h)

starts_with-append :
    (p q : Bytes) → starts_with p (codes "/") ≡ true → starts_with (p ++ q) (codes "/") ≡ true
unfolding starts_with
starts_with-append [] q h = cc
starts_with-append (c ∷ p) q h = ground arith

is_allowed-IsConfined : (p : Bytes) → is_allowed p ≡ true → IsConfined (with_index p)
unfolding is_allowed with_index
is_allowed-IsConfined p h =
    ground (arith, contains-index p, starts_with-append p (codes "index.html"))

-- Every path that the handler goes on with is confined.
request_path-IsConfined :
    (req : Request) (path : Bytes) → request_path req ≡ some path → IsConfined path
unfolding request_path
request_path-IsConfined req path h = elim (Option-cases (url_decode req.uri)) [
  | inl e ↦ cc (rw (e, request_path) at h)
  | inr (p, e) ↦ allowed p (rw (e, request_path) at h)
]
  where
    allowed :
        (p : Bytes)
        → (if is_allowed p then some (with_index p) else none) ≡ some path
        → IsConfined path
    allowed p k = elim (Bool-cases (is_allowed p)) [
      | inl good ↦
          let same : with_index p ≡ path = ground arith in rw same at (is_allowed-IsConfined p good)
      | inr bad ↦ cc (rw bad at k)
    ]

-- The reply depends on no file but those at confined paths behind the root: where two file systems
-- agree on these, every request gets the same reply from both.
pub handle_request_confined :
    (files others : Files) (root : Bytes) (req : Request) (rep : Reply)
    → ((path : Bytes)
        → IsConfined path
        → files (c_str (root ++ path)) ≡ others (c_str (root ++ path)))
    → handle_request files root req rep ≡ handle_request others root req rep
unfolding handle_request
handle_request_confined files others root req rep agree = elim (Option-cases (request_path req)) [
  | inl bad ↦ rw (bad, handle_request)
  | inr (path, e) ↦ rw (e, handle_request) (rw (agree path (request_path-IsConfined req path e)))
]
