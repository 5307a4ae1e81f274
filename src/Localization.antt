-- ===== src/Localization.antt =====
-- src/LocalizationManager.hpp: the languages, and the conversions between UTF-8 and Latin-1. The locales
-- of Boost and the transcoder simdutf are parameters.
pub mod Calls
pub mod Languages
pub mod Order
pub mod Conversions
mod Tests
use mathlib.Core.Option
use work_horz.Base.{
  ℕ, ◌*◌, Bool, List, [], ◌∷◌, ◌++◌, Option, none, some, leb, bytes_eq, if◌then◌else◌, Bytes,
  length, ◌-◌, take, replicate,
}

-- What a `generator` makes of a message path, a domain and a language, `none` an exception, and a
-- message in a locale.
pub record Boost (Locale : Type 0) : Type 0 where
  pub generate : Bytes → Bytes → Bytes → Option Locale
  pub translate : Locale → Bytes → Bytes

-- The map of the manager, and the locales that the program has for all its threads.
pub record LocalizationManager (Locale : Type 0) : Type 0 where
  pub locales : List (Bytes × Locale)
  pub global_locale : Locale
  pub cout_locale : Locale

module _ {Locale : Type 0} where
  -- `find`.
  unfoldable pub find : Bytes → List (Bytes × Locale) → Option Locale
  find language [] = none
  find language ((name, locale) ∷ rest) =
      if bytes_eq name language then some locale else find language rest

  -- `emplace`: an entry that is there stays.
  unfoldable pub emplace : Bytes → Locale → List (Bytes × Locale) → List (Bytes × Locale)
  emplace language locale locales = elim (find language locales) [
    | none ↦ (language, locale) ∷ locales
    | some present ↦ locales
  ]

module _ {Locale : Type 0} (boost : Boost Locale) where
  -- `addLocale`; the locale is generated before the map is looked at.
  unfoldable pub add_locale :
      Bytes → Bytes → Bytes → LocalizationManager Locale → Option (LocalizationManager Locale)
  add_locale locale_dir domain language m =
      Option.map (λ (locale : Locale). record m { locales = emplace language locale m.locales })
        (boost.generate locale_dir domain language)

  -- `switchLocale`.
  unfoldable pub switch_locale : Bytes → LocalizationManager Locale → LocalizationManager Locale
  switch_locale language m = elim (find language m.locales) [
    | none ↦ m
    | some locale ↦ record m { global_locale = locale; cout_locale = locale }
  ]

  -- `translate`.
  unfoldable pub translate : Bytes → LocalizationManager Locale → Bytes
  translate msg m = boost.translate m.global_locale msg

-- What simdutf writes for an input, and the number that it returns.
pub record Simdutf : Type 0 where
  pub convert_utf8_to_latin1 : Bytes → Bytes × ℕ
  pub convert_latin1_to_utf8 : Bytes → Bytes × ℕ
  pub validate_utf8 : Bytes → Bool

-- `resize`.
abbrev pub resize : ℕ → Bytes → Bytes
resize count text = take count text ++ replicate (count - length text) 0

-- The text that is written into a buffer of a size, zeros at first, and resized to the number that was
-- returned; `none` is a write behind the buffer.
unfoldable pub convert_into : ℕ → Bytes × ℕ → Option Bytes
convert_into size (written, count) =
    if leb (length written) size
    then some (resize count (written ++ replicate (size - length written) 0))
    else none

module _ (simdutf : Simdutf) where
  -- `toLatin1`.
  unfoldable pub to_latin1 : Bytes → Option Bytes
  unfolding convert_into
  to_latin1 utf8_str = convert_into (length utf8_str) (simdutf.convert_utf8_to_latin1 utf8_str)

  -- `toUtf8`.
  unfoldable pub to_utf8 : Bytes → Option Bytes
  unfolding convert_into
  to_utf8 latin1_str =
      convert_into (length latin1_str * 2) (simdutf.convert_latin1_to_utf8 latin1_str)

  -- `isValidUtf8`.
  abbrev pub is_valid_utf8 : Bytes → Bool
  is_valid_utf8 = simdutf.validate_utf8
