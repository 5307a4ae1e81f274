-- ===== src/Localization/Calls.antt =====
-- src/LocalizationManager.hpp: sequences of calls of the manager.
use work_horz.Base.{
  List, [], ◌∷◌, ◌++◌, Option, none, some, some-inj, ◌≡◌, refl, sym, ap, ◌∙◌, Bytes, Option-cases,
  inl, inr, All,
}
use work_horz.Localization.{Boost, LocalizationManager, emplace, add_locale, switch_locale}

-- The calls that change something.
pub data Call : Type 0 where
  add : Bytes → Bytes → Bytes → Call
  switch : Bytes → Call

module _ {Locale : Type 0} where
  -- What changes something, with the locales; `none` is an exception.
  unfoldable pub call :
      Boost Locale → Call → LocalizationManager Locale → Option (LocalizationManager Locale)
  call boost (add locale_dir domain language) m = add_locale boost locale_dir domain language m
  call boost (switch language) m = some (switch_locale boost language m)

  -- The locale of what the call adds can be generated.
  abbrev pub CanGenerate : Boost Locale → Call → Type 0
  CanGenerate boost (add locale_dir domain language) =
      (locale : Locale) × (boost.generate locale_dir domain language ≡ some locale)
  CanGenerate boost (switch language) = Unit

module _ {Locale : Type 0} (boost : Boost Locale) where
  unfoldable pub run : List Call → LocalizationManager Locale → Option (LocalizationManager Locale)
  run [] m = some m
  run (c ∷ calls) m = elim (call boost c m) [ none ↦ none | some next ↦ run calls next ]

  call-total :
      (c : Call) (m : LocalizationManager Locale)
      → CanGenerate boost c
      → (next : LocalizationManager Locale) × (call boost c m ≡ some next)
  unfolding call add_locale
  call-total (add locale_dir domain language) m (locale, e) =
      (record m { locales = emplace language locale m.locales }, rw e refl)
  call-total (switch language) m h = (switch_locale boost language m, refl)

  pub run_next :
      (c : Call) (calls : List Call) (m next : LocalizationManager Locale)
      → call boost c m ≡ some next
      → run (c ∷ calls) m ≡ run calls next
  unfolding run
  run_next c calls m next e = rw (e, run) refl

  run_none :
      {Z : Type 0} (c : Call) (calls : List Call) (m next : LocalizationManager Locale)
      → call boost c m ≡ none
      → run (c ∷ calls) m ≡ some next
      → Z
  unfolding run
  run_none c calls m next e h = absurd (let k : none ≡ some next = rw (e, run) at h in cc)

  pub run-append :
      (first second : List Call) (m next : LocalizationManager Locale)
      → run first m ≡ some next
      → run (first ++ second) m ≡ run second next
  run-append [] second m next e = ap (run second) (some-inj (unfold run in e))
  run-append (c ∷ first) second m next e = elim (Option-cases (call boost c m)) [
    | inl none_left ↦ run_none c first m next none_left e
    | inr (middle, f) ↦
        run_next c (first ++ second) m middle f
        ∙ run-append first second middle next (sym (run_next c first m middle f) ∙ e)
  ]

  -- Calls that keep a property of the manager one by one keep it together.
  pub run-keeps :
      (P : LocalizationManager Locale → Type 0) (Q : Call → Type 0) (calls : List Call)
      (m : LocalizationManager Locale)
      → ((c : Call) (a b : LocalizationManager Locale) → Q c → P a → call boost c a ≡ some b → P b)
      → All (CanGenerate boost) calls
      → All Q calls
      → P m
      → (next : LocalizationManager Locale) × (run calls m ≡ some next) × P next
  run-keeps P Q [] m step g q p = (m, unfold run in refl, p)
  run-keeps P Q (c ∷ calls) m step g q p =
      let (middle, e) = call-total c m g.0 in
      let (next, f, r) = run-keeps P Q calls middle step g.1 q.1 (step c m middle q.0 p e) in
      (next, run_next c calls m middle e ∙ f, r)
