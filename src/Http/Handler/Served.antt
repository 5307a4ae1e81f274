-- ===== src/Http/Handler/Served.antt =====
-- src/whz_request_handler.cpp: what the replies hold.
use work_horz.Base.{
  starts_with, contains, codes, ◌⊎◌, false, ℕ, zero, suc, ◌<◌, true, false, [], ◌∷◌, ◌++◌, Option,
  none, some, ◌≡◌, refl, sym, ap, ◌∙◌, ◌⊎◌, inl, inr, Bytes, length, take, drop, length-drop,
  take-append-drop, length-drop, starts_with, contains, codes, append-nil, append_assoc,
  Option-cases, arith,
}
use work_horz.Http.Message.{Request}
use work_horz.Http.Handler.{
  Files, c_str, is_allowed, with_index, request_path, read_loop, send_file, handle_request,
}
use work_horz.Http.Reply.{Reply, ok, bad_request, not_found, content_headers, stock_reply}
use work_horz.Http.Reply.Wire.{IsFramed, content_headers-IsFramed, stock_reply-IsFramed}
use work_horz.Http.Url.{url_decode}
use work_horz.Http.Url.Encoded.{Encodes, url_decode-Encodes}

-- The loop reads the whole file: each round takes 512 bytes, or what is left.
read_loop_more :
    (fuel c : ℕ) (content left : Bytes)
    → read_loop (suc fuel) content (c ∷ left)
      ≡ read_loop fuel (content ++ take 512 (c ∷ left)) (drop 512 (c ∷ left))
unfolding read_loop
read_loop_more fuel c content left = ground arith

read_loop_lem :
    (fuel : ℕ) (content left : Bytes)
    → length left < fuel
    → read_loop fuel content left ≡ content ++ left
read_loop_lem zero content left h = elim h [ ]
read_loop_lem (suc fuel) content [] h = unfold read_loop in sym (append-nil content)
read_loop_lem (suc fuel) content (c ∷ left) h =
    read_loop_more fuel c content left
    ∙ read_loop_lem fuel (content ++ take 512 (c ∷ left)) (drop 512 (c ∷ left))
        (omega (arith, length-drop 512 (c ∷ left)))
    ∙ append_assoc content _ _
    ∙ ap (λ z. content ++ z) (take-append-drop 512 (c ∷ left))

send_file_lem :
    (rep : Reply) (file : Bytes)
    → send_file rep file ≡ record {
      status = ok;
      headers = content_headers (rep.content ++ file);
      content = rep.content ++ file;
    }
unfolding send_file
send_file_lem rep file = rw (read_loop_lem (suc (length file)) rep.content file (omega arith))

-- Every reply of the handler is framed: its headers are clean, and its declared length is the
-- length of its content.
pub handle_request-IsFramed :
    (files : Files) (root : Bytes) (req : Request) (rep : Reply)
    → IsFramed (handle_request files root req rep)
unfolding handle_request
handle_request-IsFramed files root req rep = elim (Option-cases (request_path req)) [
  | inl bad ↦ rw (bad, handle_request) (stock_reply-IsFramed bad_request)
  | inr (path, e) ↦ elim (Option-cases (files (c_str (root ++ path)))) [
    | inl missing ↦ rw (e, missing, handle_request) (stock_reply-IsFramed not_found)
    | inr (file, found) ↦
        rw (e, found, send_file_lem, handle_request)
          (content_headers-IsFramed ok (rep.content ++ file))
  ]
]

-- The reply for what opening a file gives.
abbrev pub stock_or_file : Option Bytes → Reply
stock_or_file none = stock_reply not_found
stock_or_file (some file) = record { status = ok; headers = content_headers file; content = file }

send_file_fresh :
    (rep : Reply) (file : Bytes) → rep.content ≡ [] → send_file rep file ≡ stock_or_file (some file)
send_file_fresh rep file e = send_file_lem rep file ∙ rw e

-- A request whose uri encodes an allowed path, given with a reply that has no content, is
-- answered by the file at the root followed by the path, up to a NUL, or by the stock page for a
-- missing file where there is none; a path that ends in `/` stands for its `index.html`.
pub handle_request_allowed :
    (files : Files) (root : Bytes) (req : Request) (rep : Reply) (path : Bytes)
    → Encodes req.uri path
    → is_allowed path ≡ true
    → rep.content ≡ []
    → handle_request files root req rep ≡ stock_or_file (files (c_str (root ++ with_index path)))
unfolding handle_request request_path
handle_request_allowed files root req rep path enc good fresh =
    rw (url_decode-Encodes enc, good, handle_request, request_path)
      (elim (Option-cases (files (c_str (root ++ with_index path)))) [
        | inl missing ↦ rw missing
        | inr (file, found) ↦ rw found (send_file_fresh rep file fresh)
      ])

-- A request whose uri encodes a path that does not begin with `/`, or that holds `..`, is
-- answered by the stock page for a bad request, whatever the files are.
pub handle_request_refused :
    (files : Files) (root : Bytes) (req : Request) (rep : Reply) (path : Bytes)
    → Encodes req.uri path
    → (starts_with path (codes "/") ≡ false) ⊎ (contains path (codes "..") ≡ true)
    → handle_request files root req rep ≡ stock_reply bad_request
unfolding handle_request request_path is_allowed
handle_request_refused files root req rep path enc h =
    rw (url_decode-Encodes enc, handle_request, request_path) (ground arith)

-- So is a request whose uri is not decoded.
pub handle_request_undecoded :
    (files : Files) (root : Bytes) (req : Request) (rep : Reply)
    → url_decode req.uri ≡ none
    → handle_request files root req rep ≡ stock_reply bad_request
unfolding handle_request request_path
handle_request_undecoded files root req rep e = rw (e, handle_request, request_path) refl
