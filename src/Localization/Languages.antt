-- ===== src/Localization/Languages.antt =====
-- src/LocalizationManager.hpp: which locale a message is translated in.
use mathlib.Core.Path.{subst}
use work_horz.Base.{
  false, List, ◌∷◌, ◌++◌, none, some, some-inj, map-some, ◌≡◌, refl, ap, ◌∙◌, bytes_eq,
  bytes_eq_refl, bytes_eq_iff, Bytes, Option-cases, Bool-cases, inl, inr, All, arith,
}
use work_horz.Localization.{
  Boost, LocalizationManager, find, emplace, add_locale, switch_locale, translate,
}
use work_horz.Localization.Calls.{
  Call, add, switch, call, CanGenerate, run, run_next, run-append, run-keeps,
}

-- The call adds another language than this one.
abbrev pub AddsOther : Bytes → Call → Type 0
AddsOther name (add locale_dir domain language) = bytes_eq language name ≡ false
AddsOther name (switch language) = Unit

abbrev pub Adds : Call → Type 0
Adds (add locale_dir domain language) = Unit
Adds (switch language) = ⊥

module _ {Locale : Type 0} where
  pub find-emplace_present :
      (name language : Bytes) (x l : Locale) (locales : List (Bytes × Locale))
      → find name locales ≡ some l
      → find name (emplace language x locales) ≡ some l
  unfolding find emplace
  find-emplace_present name language x l locales h = elim (Option-cases (find language locales)) [
    | inr (present, e) ↦ rw (e, emplace) h
    | inl e ↦ elim (Bool-cases (bytes_eq language name)) [
      | inl same ↦ absurd (let k = (bytes_eq_iff language name).0 same in cc)
      | inr other ↦ ground (arith, e, other, h)
    ]
  ]

  pub find-emplace_other :
      (name language : Bytes) (x : Locale) (locales : List (Bytes × Locale))
      → bytes_eq language name ≡ false
      → find name locales ≡ none
      → find name (emplace language x locales) ≡ none
  unfolding find emplace
  find-emplace_other name language x locales e h = ground (arith, e, h)

  pub find-emplace_new :
      (name : Bytes) (x : Locale) (locales : List (Bytes × Locale))
      → find name locales ≡ none
      → find name (emplace name x locales) ≡ some x
  unfolding find emplace
  find-emplace_new name x locales h = ground (arith, h, bytes_eq_refl name)

module _ {Locale : Type 0} (boost : Boost Locale) where
  -- Messages are translated in the locale, and printed by it.
  abbrev Speaks : Locale → LocalizationManager Locale → Type 0
  Speaks locale m = (m.global_locale ≡ locale) × (m.cout_locale ≡ locale)

  call_add :
      (locale_dir domain language : Bytes) (a b : LocalizationManager Locale)
      → call boost (add locale_dir domain language) a ≡ some b
      → (x : Locale) × (boost.generate locale_dir domain language ≡ some x)
        × (record a { locales = emplace language x a.locales } ≡ b)
  unfolding call add_locale
  call_add locale_dir domain language a b e =
      map-some _ (boost.generate locale_dir domain language) b e

  switch_locales :
      (language : Bytes) (m : LocalizationManager Locale)
      → (switch_locale boost language m).locales ≡ m.locales
  unfolding switch_locale
  switch_locales language m = ground arith

  switch_present :
      (language : Bytes) (locale : Locale) (m : LocalizationManager Locale)
      → find language m.locales ≡ some locale
      → Speaks locale (switch_locale boost language m)
  unfolding switch_locale
  switch_present language locale m h = rw (h, switch_locale) (refl, refl)

  present-kept :
      (name : Bytes) (locale : Locale) (c : Call) (a b : LocalizationManager Locale)
      → find name a.locales ≡ some locale
      → call boost c a ≡ some b
      → find name b.locales ≡ some locale
  present-kept name locale (add locale_dir domain language) a b h e =
      let (x, g, same) = call_add locale_dir domain language a b e in
      subst (λ (m : LocalizationManager Locale). find name m.locales ≡ some locale) same
        (find-emplace_present name language x locale a.locales h)
  present-kept name locale (switch language) a b h e =
      let same : switch_locale boost language a ≡ b = some-inj (unfold call in e) in
      subst (λ (m : LocalizationManager Locale). find name m.locales ≡ some locale) same
        (ap (find name) (switch_locales language a) ∙ h)

  absent-kept :
      (name : Bytes) (c : Call) (a b : LocalizationManager Locale)
      → AddsOther name c
      → find name a.locales ≡ none
      → call boost c a ≡ some b
      → find name b.locales ≡ none
  absent-kept name (add locale_dir domain language) a b other h e =
      let (x, g, same) = call_add locale_dir domain language a b e in
      subst (λ (m : LocalizationManager Locale). find name m.locales ≡ none) same
        (find-emplace_other name language x a.locales other h)
  absent-kept name (switch language) a b other h e =
      let same : switch_locale boost language a ≡ b = some-inj (unfold call in e) in
      subst (λ (m : LocalizationManager Locale). find name m.locales ≡ none) same
        (ap (find name) (switch_locales language a) ∙ h)

  Speaks-kept :
      (locale : Locale) (c : Call) (a b : LocalizationManager Locale)
      → Adds c
      → Speaks locale a
      → call boost c a ≡ some b
      → Speaks locale b
  Speaks-kept locale (add locale_dir domain language) a b adds h e =
      let (x, g, same) = call_add locale_dir domain language a b e in subst (Speaks locale) same h
  Speaks-kept locale (switch language) a b adds h e = elim adds [ ]

  -- After a switch to a language that was added, and until the next switch, a message is translated
  -- in the locale of the first `addLocale` of the language, which was not in the map before, whatever other languages were added and
  -- switched to before, and whatever was added since. Each locale that is added can be generated.
  pub run-translate :
      (before between after : List Call) (locale_dir domain name : Bytes) (locale : Locale)
      (m : LocalizationManager Locale) (msg : Bytes)
      → find name m.locales ≡ none
      → All (CanGenerate boost) before
      → All (AddsOther name) before
      → boost.generate locale_dir domain name ≡ some locale
      → All (CanGenerate boost) between
      → All (CanGenerate boost) after
      → All Adds after
      → (last : LocalizationManager Locale) × (run boost
            (before ++ (add locale_dir domain name ∷ (between ++ (switch name ∷ after))))
            m
          ≡ some last)
        × (translate boost msg last ≡ boost.translate locale msg)
        × (last.cout_locale ≡ locale)
  run-translate before between after locale_dir domain name locale m msg h g others e gb ga adds =
      let (m1, r1, absent) =
        run-keeps boost (λ (a : LocalizationManager Locale). find name a.locales ≡ none)
          (AddsOther name) before m (absent-kept name) g others h in
      let added : LocalizationManager Locale = record m1 {
        locales = emplace name locale m1.locales;
      } in
      let there : call boost (add locale_dir domain name) m1 ≡ some added =
        unfold call add_locale in rw e refl in
      let (m2, r2, present) =
        run-keeps boost (λ (a : LocalizationManager Locale). find name a.locales ≡ some locale)
          (CanGenerate boost) between added (λ c a b q. present-kept name locale c a b) gb gb
          (find-emplace_new name locale m1.locales absent) in
      let (last, r3, speaks) =
        run-keeps boost (Speaks locale) Adds after (switch_locale boost name m2)
          (Speaks-kept locale) ga adds (switch_present name locale m2 present) in
      (
        last,
        run-append boost before _ m m1 r1
            ∙ run_next boost _ _ m1 added there
            ∙ run-append boost between _ added m2 r2
            ∙ run_next boost (switch name) after m2 (switch_locale boost name m2)
                (unfold call in refl)
            ∙ r3,
        unfold translate in ap (λ (l : Locale). boost.translate l msg) speaks.0,
        speaks.1,
      )
