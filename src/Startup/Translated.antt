-- ===== src/Startup/Translated.antt =====
-- src/whz-core.cpp: the part of `main` on localization comes to its end.
use work_horz.Base.{true, [], some, ◌≡◌, refl, Bytes, codes}
use work_horz.Config.Values.{Json}
use work_horz.Localization.{
  Boost, LocalizationManager, emplace, add_locale, switch_locale, translate,
}
use work_horz.Localization.Conversions.{IsTranscoder, to_utf8-encode, to_latin1-total}
use work_horz.Startup.Given.{Machine, Ending}
use work_horz.Startup.Parts.{shows_latin1, shows_both, use_languages, use_localization}

-- Printing a translation has no undefined behaviour.
shows-total :
    (json : Json) {D F L : Type 0} (m : Machine json D F L) (text : Bytes)
    → IsTranscoder m.simdutf
    → (shows_latin1 json m text ≡ true) × (shows_both json m text ≡ true)
unfolding shows_latin1 shows_both
shows-total json m text t =
    let (latin1, e) = to_latin1-total m.simdutf t text in
    (rw (e, shows_latin1) refl, rw (e, shows_both) (rw (to_utf8-encode m.simdutf t latin1) refl))

use_languages-on :
    (json : Json) {D F L : Type 0} (m : Machine json D F L) (manager : LocalizationManager L)
    (rest : Ending)
    → IsTranscoder m.simdutf
    → use_languages json m manager rest ≡ rest
unfolding use_languages
use_languages-on json m manager rest t =
    let english = switch_locale m.boost (codes "en_US") manager in
    let german = switch_locale m.boost (codes "de_DE") english in
    let (hello, _) = shows-total json m (translate m.boost (codes "Hello, my World!") english) t in
    let (hallo, again) =
      shows-total json m (translate m.boost (codes "Hallo, meine Welt!") german) t in
    rw (hello, use_languages) (rw (hallo, again) refl)

add_locale-generate :
    {L : Type 0} (boost : Boost L) (locale_dir domain language : Bytes) (locale : L)
    (manager : LocalizationManager L)
    → boost.generate locale_dir domain language ≡ some locale
    → (next : LocalizationManager L) × (add_locale boost locale_dir domain language manager
        ≡ some next)
unfolding add_locale
add_locale-generate boost locale_dir domain language locale manager e =
    (record manager { locales = emplace language locale manager.locales }, rw e refl)

pub use_localization-on :
    (json : Json) {D F L : Type 0} (m : Machine json D F L) (en de : L) (rest : Ending)
    → IsTranscoder m.simdutf
    → m.boost.generate (codes "path/to/locale") (codes "messages") (codes "en_US") ≡ some en
    → m.boost.generate (codes "path/to/locale") (codes "messages") (codes "de_DE") ≡ some de
    → use_localization json m rest ≡ rest
unfolding use_localization
use_localization-on json m en de rest t e d =
    let (one, f) =
      add_locale-generate m.boost (codes "path/to/locale") (codes "messages") (codes "en_US") en
        (record { locales = []; global_locale = m.first_locale; cout_locale = m.first_locale }) e in
    let (two, g) =
      add_locale-generate m.boost (codes "path/to/locale") (codes "messages") (codes "de_DE") de one
        d in
    rw (f, use_localization) (rw g (use_languages-on json m two rest t))
