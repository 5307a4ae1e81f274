-- ===== src/Startup/Outcome.antt =====
-- src/whz-core.cpp: how `main` ends.
use work_horz.Base.{
  All, true, Option, none, some, ◌≡◌, ◌≢◌, refl, ap, ◌∙◌, ◌⊎◌, inl, inr, Bytes, codes,
}
use work_horz.Config.{Config, initial}
use work_horz.Config.Values.{Json}
use work_horz.Config.Read.{returned, read_config}
use work_horz.Localization.Conversions.{IsTranscoder}
use work_horz.Compression.Zip.{Disk}
use work_horz.Templating.{
  Outcome, value, unexpected, terminated, gave, placeholder, TemplateProcessor, create,
  set_template_definer, process_template,
}
use work_horz.Templating.Process.{Compiles, process_template-placeholder}
use work_horz.Server.Accept.{Listening, Server, serving, construct, listen_and_serve}
use work_horz.Server.Accept.Serving.{listen_and_serve-total}
use work_horz.Startup.Given.{Machine, Ending, ended_abnormally, server_runs}
use work_horz.Config.Logging
use work_horz.Config.Logging.{Quill, Logger, info}
use work_horz.Startup.Translated.{use_localization-on}
use work_horz.Startup.Logged.{Permitted, Ready, IsCode, say-Ready, serve-Ready, construct-Ready}
use work_horz.Startup.Parts.{prepared}
use work_horz.Startup.{
  card, serve, use_templates, run_main, run_arguments, run_read, config_path, no_logger,
  compress_then, use_parts,
}

Outcome-cases :
    {A : Type 0} (o : Outcome A)
    → ((a : A) × (o ≡ value a)) ⊎ (((e : Bytes) × (o ≡ unexpected e)) ⊎ (o ≡ terminated))
Outcome-cases (value a) = inl (a, refl)
Outcome-cases (unexpected e) = inr (inl (e, refl))
Outcome-cases terminated = inr (inr refl)

unexpected≢terminated : {o : Outcome Bytes} {e : Bytes} → o ≡ unexpected e → o ≢ terminated
unexpected≢terminated h k = cc

use_templates_lem :
    (json : Json) {D F L : Type 0} (m : Machine json D F L) (files : Bytes → Option Bytes)
    (rest : Quill → Ending) (q : Quill) (db : D)
    → m.open_database (codes "database.db") ≡ gave db
    → (Compiles files m.format (codes "template.whzt")
        × (use_templates json m files rest q ≡ ended_abnormally))
      ⊎ ((Compiles files m.format (codes "template.whzt") → ⊥)
          × (use_templates json m files rest q ≡ rest q))
unfolding use_templates create
use_templates_lem json m files rest q db opened =
    let p : TemplateProcessor = record { template_definer = none } in
    let file : Bytes = codes "template.whzt" in
    let (never, (there, back)) = process_template-placeholder (m.query db) files m.format p file in
    let (no_value, _) =
      process_template-placeholder (m.query db) files m.format (set_template_definer placeholder p)
        file in
    elim (Outcome-cases
      (process_template (m.query db) files m.format (set_template_definer placeholder p) file)) [
        | inl (text, e) ↦ absurd (no_value text e)
        | inr (inl (what, e)) ↦ inr (
          λ compiles. unexpected≢terminated e (back compiles),
          rw (opened, use_templates) (rw e refl),
        )
        | inr (inr e) ↦ inl (there e, rw (opened, use_templates) (rw e refl))
      ]

-- The parts before the templates.
compress_then-Ready :
    (json : Json) {D F L : Type 0} (m : Machine json D F L) (c : Config) (logger : Logger)
    (disk : Disk) (q : Quill)
    → prepared json m ≡ some (some disk)
    → Ready c logger q
    → (r : Quill) × (compress_then json m c logger q
        ≡ use_templates json m disk.files (serve json m c logger) r)
      × Ready c logger r
unfolding compress_then
compress_then-Ready json m c logger disk q d v =
    let (r, e, w) =
      say-Ready json m c logger info (codes "Test File Compression")
        (use_templates json m disk.files (serve json m c logger)) q v in
    (r, rw (d, compress_then) e, w)

use_parts-Ready :
    (json : Json) {D F L : Type 0} (m : Machine json D F L) (c : Config) (logger : Logger)
    (disk : Disk) (en de : L) (q : Quill)
    → IsTranscoder m.simdutf
    → m.boost.generate (codes "path/to/locale") (codes "messages") (codes "en_US") ≡ some en
    → m.boost.generate (codes "path/to/locale") (codes "messages") (codes "de_DE") ≡ some de
    → prepared json m ≡ some (some disk)
    → Ready c logger q
    → (r : Quill) × (use_parts json m c logger q
        ≡ use_templates json m disk.files (serve json m c logger) r)
      × Ready c logger r
unfolding use_parts
use_parts-Ready json m c logger disk en de q t ge gd d v =
    let (q1, e1, v1) =
      say-Ready json m c logger info (codes "My first logging message ma! :D") _ q v in
    let (q2, e2, v2) =
      say-Ready json m c logger info (codes "Testing Localization Manager") _ q1 v1 in
    let (q3, e3, v3) =
      say-Ready json m c logger info (codes "Test Encryption") (compress_then json m c logger) q2
        v2 in
    let (q4, e4, v4) = compress_then-Ready json m c logger disk q3 d v3 in
    (q4, e1 ∙ e2 ∙ use_localization-on json m en de _ t ge gd ∙ e3 ∙ e4, v4)

run_main-read_config :
    (json : Json) {D F L : Type 0} (m : Machine json D F L) (path : Bytes) (c : Config)
    → m.arguments ≡ inr path
    → read_config json m.path_exists m.load initial (config_path json m path) ≡ returned true c
    → run_main json m
      ≡ use_parts json m c (Logging.construct no_logger).0 (Logging.construct no_logger).1
unfolding run_main run_arguments run_read
run_main-read_config json m path c a r = ap (run_arguments json m) a ∙ ap (run_read json m) r

-- If the configuration is read, the two locales can be generated, simdutf converts as Unicode says,
-- the database can be opened, the parts before the templates meet no undefined behaviour and no exception,
-- the QR code of the card has at most 177 modules to a side, and the resolver and the acceptor throw
-- nothing, then the program is terminated where the file `template.whzt` can be read and its content can
-- be compiled, and otherwise a server of one context runs, whatever the configuration holds; every
-- message that `main` itself has logged by then is of a level that the configuration has switched on.
pub run_main-Compiles :
    (json : Json) {D F L : Type 0} (m : Machine json D F L) (path : Bytes) (c : Config)
    (disk : Disk) (db : D) (en de : L)
    → m.arguments ≡ inr path
    → read_config json m.path_exists m.load initial (config_path json m path) ≡ returned true c
    → IsTranscoder m.simdutf
    → m.boost.generate (codes "path/to/locale") (codes "messages") (codes "en_US") ≡ some en
    → m.boost.generate (codes "path/to/locale") (codes "messages") (codes "de_DE") ≡ some de
    → prepared json m ≡ some (some disk)
    → m.open_database (codes "database.db") ≡ gave db
    → IsCode (m.encode_text (card json m))
    → m.binds ≡ true
    → (Compiles disk.files m.format (codes "template.whzt") × (run_main json m ≡ ended_abnormally))
      ⊎ ((Compiles disk.files m.format (codes "template.whzt") → ⊥)
          × (s : Server) × (t : Server) × (q : Quill) × (construct 1 ≡ some s)
          × (listen_and_serve true s ≡ serving t)
          × (run_main json m ≡ server_runs (serving t) q)
          × All (Permitted c) q.calls)
run_main-Compiles json m path c disk db en de a r t ge gd d opened small b =
    let logger = (Logging.construct no_logger).0 in
    let (q, begun, v) =
      use_parts-Ready json m c logger disk en de (Logging.construct no_logger).1 t ge gd d
        (construct-Ready c) in
    let entered : run_main json m ≡ use_templates json m disk.files (serve json m c logger) q =
      run_main-read_config json m path c a r ∙ begun in
    elim (use_templates_lem json m disk.files (serve json m c logger) q db opened) [
      | inl (compiles, ended) ↦ inl (compiles, entered ∙ ended)
      | inr (fails, went_on) ↦
          let (s, made, (u, listens, _, _), _) = listen_and_serve-total 0 in
          let (last, served, w) = serve-Ready json m c logger s q small made v in
          inr (
            fails,
            s,
            u,
            last,
            made,
            listens,
            entered
                ∙ went_on
                ∙ served
                ∙ ap (λ binds. server_runs (listen_and_serve binds s) last) b
                ∙ ap (λ (l : Listening). server_runs l last) listens,
            w.permitted,
          )
    ]
