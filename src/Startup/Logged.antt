-- ===== src/Startup/Logged.antt =====
-- src/whz-core.cpp: what `main` logs.
use work_horz.Base.{
  codes, not, is_empty, arith, Bool, true, false, some, ◌≡◌, refl, ◌∙◌, All, All-append, Bytes,
  Bool-cases, inl, inr, if◌then◌else◌, ◌≤◌,
}
use work_horz.Config.{Config, get_config_value}
use work_horz.Config.Logging
use work_horz.Config.Logging.{
  Level, info, error, Call, log, Quill, Logger, call, create_or_get, parameter_of, is_type_bool,
  log_value, is_on, log_message,
}
use work_horz.Config.Logging.Defined.{call_on-some}
use work_horz.Config.Values.{Json}
use work_horz.QrCode.{QrCode, image_size}
use work_horz.Server.Accept.{Server, construct, listen_and_serve}
use work_horz.Startup.Given.{Machine, Ending, server_runs}
use work_horz.Startup.Drawn.{generate_svg, encode_base64_png-total}
use work_horz.Startup.{no_logger, say, start_server, listen, draw_base64, draw, serve, card, params}

-- A message may be logged if the configuration has switched its level on.
abbrev pub Permitted : Config → Call → Type 0
Permitted c (log level text) = is_on (get_config_value c (parameter_of level)) ≡ true
Permitted c _ = Unit

-- The logger can be called, and nothing was logged that may not be.
pub record Ready (c : Config) (logger : Logger) (q : Quill) : Type 0 where
  pub points : q.registered ≡ some logger.qlogger
  pub permitted : All (Permitted c) q.calls

log_message-Ready :
    (c : Config) (logger : Logger) (level : Level) (text : Bytes) (q : Quill)
    → Ready c logger q
    → (r : Quill) × (log_message c level text logger q ≡ some r) × Ready c logger r
unfolding log_message call
log_message-Ready c logger level text q v =
    elim (Bool-cases (is_on (get_config_value c (parameter_of level)))) [
      | inl on ↦ (
        call (log level text) q,
        rw (on, log_message) (call_on-some logger.qlogger (log level text) q v.points),
        record {
          points = v.points;
          permitted = All-append (Permitted c) q.calls _ v.permitted (on, tt);
        },
      )
      | inr off ↦ (q, rw (off, log_message) refl, v)
    ]

-- The library makes codes of at most 177 modules to a side.
abbrev pub IsCode : QrCode → Type 0
IsCode qr = qr.size ≤ 177

module _ (json : Json) {D F L : Type 0} (m : Machine json D F L) (c : Config)
    (logger : Logger) where
  pub say-Ready :
      (level : Level) (text : Bytes) (rest : Quill → Ending) (q : Quill)
      → Ready c logger q
      → (r : Quill) × (say json m c logger level text rest q ≡ rest r) × Ready c logger r
  unfolding say
  say-Ready level text rest q v =
      let (r, e, w) = log_message-Ready c logger level text q v in (r, rw (e, say) refl, w)

  start_server-construct :
      (s : Server) (q : Quill)
      → construct 1 ≡ some s
      → start_server json m q ≡ server_runs (listen_and_serve m.binds s) q
  unfolding start_server
  start_server-construct s q e = rw (e, start_server) refl

  -- Whatever is drawn, the server is started.
  pub listen-Ready :
      (s : Server) (q : Quill)
      → construct 1 ≡ some s
      → Ready c logger q
      → (r : Quill) × (listen json m c logger q ≡ server_runs (listen_and_serve m.binds s) r)
        × Ready c logger r
  unfolding listen
  listen-Ready s q e v =
      let (r, f, w) =
        say-Ready info (codes "*** Starting WHZ Listening Server ***") (start_server json m) q v in
      (r, f ∙ start_server-construct s r e, w)

  -- What may be said in between changes nothing else.
  say_or-Ready :
      (b : Bool) (level : Level) (text : Bytes) (s : Server) (rest : Quill → Ending) (q : Quill)
      → ((r : Quill)
          → Ready c logger r
          → (x : Quill) × (rest r ≡ server_runs (listen_and_serve m.binds s) x) × Ready c logger x)
      → Ready c logger q
      → (x : Quill) × ((if b then say json m c logger level text rest q else rest q)
          ≡ server_runs (listen_and_serve m.binds s) x)
        × Ready c logger x
  say_or-Ready true level text s rest q h v =
      let (r, f, w) = say-Ready level text rest q v in let (x, g, y) = h r w in (x, f ∙ g, y)
  say_or-Ready false level text s rest q h v = h q v

  card-small :
      IsCode (m.encode_text (card json m))
      → image_size (m.encode_text (card json m)) (params json m) ≤ 46340
  unfolding image_size
  card-small small = omega (arith, small)

  draw_base64-Ready :
      (s : Server) (q : Quill)
      → IsCode (m.encode_text (card json m))
      → construct 1 ≡ some s
      → Ready c logger q
      → (r : Quill) × (draw_base64 json m c logger q ≡ server_runs (listen_and_serve m.binds s) r)
        × Ready c logger r
  unfolding draw_base64
  draw_base64-Ready s q small e v =
      let (text, f) =
        encode_base64_png-total m.write_png (m.encode_text (card json m)) (params json m)
          (omega arith) (card-small small) in
      let (r, g, w) =
        say_or-Ready (is_empty text) error (codes "Failed to generate Base64 PNG QR Code.") s
          (listen json m c logger) q (λ x. listen-Ready s x e) v in
      (r, rw (f, draw_base64) g, w)

  draw-Ready :
      (s : Server) (q : Quill)
      → IsCode (m.encode_text (card json m))
      → construct 1 ≡ some s
      → Ready c logger q
      → (r : Quill) × (draw json m c logger q ≡ server_runs (listen_and_serve m.binds s) r)
        × Ready c logger r
  unfolding draw
  draw-Ready s q small e v =
      let (drawn, f) =
        generate_svg m.write_png (m.can_open (codes "qrcode.svg")) (m.encode_text (card json m))
          (params json m) in
      let (r, g, w) =
        say_or-Ready (not drawn.0) error (codes "Failed to generate SVG QR Code.") s
          (draw_base64 json m c logger) q (λ x. draw_base64-Ready s x small e) v in
      (r, rw (f, draw) g, w)

  -- From the vCard on the program ends up in the server.
  pub serve-Ready :
      (s : Server) (q : Quill)
      → IsCode (m.encode_text (card json m))
      → construct 1 ≡ some s
      → Ready c logger q
      → (r : Quill) × (serve json m c logger q ≡ server_runs (listen_and_serve m.binds s) r)
        × Ready c logger r
  unfolding serve
  serve-Ready s q small e v =
      let (q1, e1, v1) = say-Ready info (codes "Testing VCard") _ q v in
      let (q2, e2, v2) = say-Ready info (codes "Testing Utils") _ q1 v1 in
      let (q3, e3, v3) =
        say-Ready info (codes "Testing QR Code Generator") (draw json m c logger) q2 v2 in
      let (r, f, w) = draw-Ready s q3 small e v3 in (r, e1 ∙ e2 ∙ e3 ∙ f, w)

-- The logger of the constructor.
pub construct-Ready :
    (c : Config) → Ready c (Logging.construct no_logger).0 (Logging.construct no_logger).1
unfolding Logging.construct create_or_get call
construct-Ready c = record { points = refl; permitted = (tt, (tt, (tt, tt))) }
