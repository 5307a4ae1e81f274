-- ===== src/Localization/Tests.antt =====
-- Concrete locales and conversions.
use work_horz.Base.{[], ◌∷◌, ◌++◌, some, ◌≡◌, refl, Bytes, codes, bytes_eq, All, ◌<◌, none}
use work_horz.Localization.{Boost, LocalizationManager, find, translate, to_latin1, to_utf8}
use work_horz.Localization.Conversions.{
  unicode, unicode-IsTranscoder, decode, encode, to_utf8-to_latin1,
}
use work_horz.Localization.Calls.{add, switch, run}
use work_horz.Localization.Order.{view, run-swapped}
use work_horz.Localization.Languages.{run-translate}

-- `Zürich`.
abbrev latin1_city : Bytes
latin1_city = b'Z' ∷ 252 ∷ codes "rich"

abbrev city : Bytes
city = b'Z' ∷ 195 ∷ 188 ∷ codes "rich"

to_utf8-to_latin1_example :
    ((latin1 : Bytes)
      → decode city ≡ some latin1
      → (to_latin1 unicode city ≡ some latin1) × (to_utf8 unicode latin1 ≡ some city))
    × (decode city ≡ none → to_latin1 unicode city ≡ some [])
    × (to_utf8 unicode city ≡ some (encode city))
    × (All (λ c. c < 256) city → to_latin1 unicode (encode city) ≡ some city)
to_utf8-to_latin1_example = to_utf8-to_latin1 unicode unicode-IsTranscoder city

decode-city : decode city ≡ some latin1_city
unfolding decode
decode-city = refl

-- A locale is the language that it was generated for.
abbrev boost : Boost Bytes
boost = record {
  generate = λ locale_dir domain language. some language;
  translate = λ locale msg. locale ++ msg;
}

abbrev manager : LocalizationManager Bytes
manager = record { locales = []; global_locale = codes "C"; cout_locale = codes "C" }

run-translate_example :
    (last : LocalizationManager Bytes) × (run boost
        (add (codes "d") (codes "m") (codes "en")
          ∷ add (codes "d") (codes "m") (codes "de")
          ∷ switch (codes "en")
          ∷ switch (codes "de")
          ∷ add (codes "e") (codes "m") (codes "de")
          ∷ [])
        manager
      ≡ some last)
    × (translate boost (codes "!") last ≡ codes "de!")
    × (last.cout_locale ≡ codes "de")
unfolding find bytes_eq
run-translate_example =
    run-translate boost (add (codes "d") (codes "m") (codes "en") ∷ []) (switch (codes "en") ∷ [])
      (add (codes "e") (codes "m") (codes "de") ∷ []) (codes "d") (codes "m") (codes "de")
      (codes "de") manager (codes "!") refl ((codes "en", refl), tt) (refl, tt) refl (tt, tt)
      ((codes "de", refl), tt) (tt, tt)

run-swapped_example :
    (one : LocalizationManager Bytes) × (other : LocalizationManager Bytes) × (run boost
        (add (codes "d") (codes "m") (codes "en")
          ∷ add (codes "d") (codes "m") (codes "de")
          ∷ switch (codes "de")
          ∷ [])
        manager
      ≡ some one)
    × (run boost
          (add (codes "d") (codes "m") (codes "de")
            ∷ add (codes "d") (codes "m") (codes "en")
            ∷ switch (codes "de")
            ∷ [])
          manager
        ≡ some other)
    × (view one ≡ view other)
    × (translate boost (codes "!") one ≡ translate boost (codes "!") other)
unfolding bytes_eq
run-swapped_example =
    run-swapped boost (switch (codes "de") ∷ []) (codes "d") (codes "m") (codes "en") (codes "d")
      (codes "m") (codes "de") (codes "en") (codes "de") manager (codes "!") refl refl refl (tt, tt)
