-- ===== src/Http/Handler.antt =====
-- src/whz_request_handler.cpp: `handle_request`. The files are a parameter: what `std::ifstream` gets
-- when it opens a path, all the bytes that it can read, or `none` where it cannot be opened.
pub mod Served
pub mod Confined
use work_horz.Base.{
  ℕ, zero, suc, ◌+◌, ◌-◌, ◌*◌, ◌/◌, ◌≤◌, ◌<◌, ◌%◌, Bool, true, false, not, ◌&&◌, ◌||◌, List, [],
  ◌∷◌, ◌++◌, Option, none, some, ◌≡◌, ◌≢◌, ◌↔◌, refl, sym, ap, ◌∙◌, ◌⊎◌, inl, inr, ◌==◌, leb, ltb,
  if◌then◌else◌, Bytes, is_empty, length, take, drop, replicate, All, All-append, length-append,
  take-append-drop, length-replicate, bytes_eq, bytes_eq_iff, bytes_eq_refl, starts_with, contains,
  codes, String, map, append-nil, append_assoc, Option-cases, Bool-cases, arith,
}
use work_horz.Http.Message.{Request}
use work_horz.Http.Reply.{Reply, ok, bad_request, not_found, content_headers, stock_reply}
use work_horz.Http.Url.{url_decode}

abbrev pub Files : Type 0
Files = Bytes → Option Bytes

-- The last byte, of a string that is not empty.
unfoldable pub last : Bytes → ℕ
last [] = 0
last (c ∷ []) = c
last (c ∷ d ∷ s) = last (d ∷ s)

-- The part of a std::string that its `c_str()` shows: up to the first NUL.
unfoldable pub c_str : Bytes → Bytes
c_str [] = []
c_str (c ∷ s) = if c == 0 then [] else c ∷ c_str s

-- The tests that a decoded path must pass.
unfoldable pub is_allowed : Bytes → Bool
is_allowed p = not (is_empty p || not (starts_with p (codes "/")) || contains p (codes ".."))

unfoldable pub with_index : Bytes → Bytes
with_index p = if last p == b'/' then p ++ codes "index.html" else p

-- `request_path` behind the checks; `none` where the request is bad.
pub request_path : Request → Option Bytes
request_path req = elim (url_decode req.uri) [
  | none ↦ none
  | some p ↦ if is_allowed p then some (with_index p) else none
]

-- `while (is.read(buf, 512).gcount() > 0) rep.content.append(buf, is.gcount());` on what is left of
-- the file, with fuel.
pub read_loop : ℕ → Bytes → Bytes → Bytes
read_loop zero content left = content
read_loop (suc fuel) content left =
    let more = read_loop fuel (content ++ take 512 left) (drop 512 left) in
    if ltb 0 (length (take 512 left)) then more else content

-- The reply to a request whose file is open.
pub send_file : Reply → Bytes → Reply
send_file rep file =
    let content = read_loop (suc (length file)) rep.content file in
    record { status = ok; headers = content_headers content; content = content }

pub handle_request : Files → Bytes → Request → Reply → Reply
handle_request files document_root req rep = elim (request_path req) [
  | none ↦ stock_reply bad_request
  | some path ↦ elim (files (c_str (document_root ++ path))) [
    | none ↦ stock_reply not_found
    | some file ↦ send_file rep file
  ]
]
