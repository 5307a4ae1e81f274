-- ===== src/Localization/Order.antt =====
-- src/LocalizationManager.hpp: the map of locales has no order.
use mathlib.Core.Quot
use mathlib.Core.Quot.{Quot, Quot-set}
use work_horz.Base.{
  true, false, List, [], ◌∷◌, none, some, ◌≡◌, refl, sym, ap, ◌∙◌, bytes_eq, bytes_eq_iff, Bytes,
  Option-cases, Bool-cases, inl, inr, All, arith,
}
use work_horz.Localization.{
  Boost, LocalizationManager, find, emplace, add_locale, switch_locale, translate,
}
use work_horz.Localization.Calls.{Call, add, switch, call, CanGenerate, run, run_next}
use work_horz.Localization.Languages.{find-emplace_present, find-emplace_other, find-emplace_new}

apart-other :
    (a b name : Bytes) → bytes_eq a b ≡ false → bytes_eq a name ≡ true → bytes_eq b name ≡ false
apart-other a b name apart same =
    ground (arith, apart, same, bytes_eq_iff a b, bytes_eq_iff a name, bytes_eq_iff b name)

module _ {Locale : Type 0} where
  -- Two lists that are the same map.
  abbrev pub SameEntries : List (Bytes × Locale) → List (Bytes × Locale) → Type 0
  SameEntries l k = (name : Bytes) → find name l ≡ find name k

  find-emplace_both :
      (name language : Bytes) (x : Locale) (l k : List (Bytes × Locale))
      → find name l ≡ find name k
      → find name (emplace language x l) ≡ find name (emplace language x k)
  find-emplace_both name language x l k e = elim (Option-cases (find name l)) [
    | inr (p, f) ↦
        find-emplace_present name language x p l f
        ∙ sym (find-emplace_present name language x p k (sym e ∙ f))
    | inl f ↦ elim (Bool-cases (bytes_eq language name)) [
      | inr other ↦
          find-emplace_other name language x l other f
          ∙ sym (find-emplace_other name language x k other (sym e ∙ f))
      | inl same ↦
          let named : language ≡ name = (bytes_eq_iff language name).0 same in
          rw named (find-emplace_new name x l f ∙ sym (find-emplace_new name x k (sym e ∙ f)))
    ]
  ]

  -- A new entry is found whether another one is put behind it or before it.
  emplace_around :
      (name a b : Bytes) (x y : Locale) (l : List (Bytes × Locale))
      → bytes_eq a name ≡ true
      → bytes_eq b name ≡ false
      → find name l ≡ none
      → (find name (emplace b y (emplace a x l)) ≡ some x)
        × (find name (emplace a x (emplace b y l)) ≡ some x)
  emplace_around name a b x y l same other f =
      let named : a ≡ name = (bytes_eq_iff a name).0 same in
      rw named (
        find-emplace_present name b y x _ (find-emplace_new name x l f),
        find-emplace_new name x _ (find-emplace_other name b y l other f),
      )

  -- Entries of different names can be put in either order.
  emplace_comm :
      (a b : Bytes) (x y : Locale) (l : List (Bytes × Locale))
      → bytes_eq a b ≡ false
      → SameEntries (emplace b y (emplace a x l)) (emplace a x (emplace b y l))
  emplace_comm a b x y l apart name = elim (Option-cases (find name l)) [
    | inr (p, f) ↦
        find-emplace_present name b y p _ (find-emplace_present name a x p l f)
        ∙ sym (find-emplace_present name a x p _ (find-emplace_present name b y p l f))
    | inl f ↦ elim (Bool-cases (bytes_eq a name)) [
      | inl same ↦
          let (first, second) =
            emplace_around name a b x y l same (apart-other a b name apart same) f in
          first ∙ sym second
      | inr other ↦ elim (Bool-cases (bytes_eq b name)) [
        | inl same ↦
            let (first, second) = emplace_around name b a y x l same other f in second ∙ sym first
        | inr neither ↦
            find-emplace_other name b y _ neither (find-emplace_other name a x l other f)
            ∙ sym (find-emplace_other name a x _ other (find-emplace_other name b y l neither f))
      ]
    ]
  ]

-- The map without the order of its list.
abbrev pub LocaleMap : Type 0 → Type 0
LocaleMap Locale = Quot (SameEntries {Locale = Locale})

-- What can be seen of a manager.
abbrev pub view :
    {Locale : Type 0} → LocalizationManager Locale → LocaleMap Locale × Locale × Locale
view m = (Quot.mk m.locales, m.global_locale, m.cout_locale)

-- Two managers that differ in the order of their lists only.
record Same {Locale : Type 0} (m n : LocalizationManager Locale) : Type 0 where
  entries : SameEntries m.locales n.locales
  global_same : m.global_locale ≡ n.global_locale
  cout_same : m.cout_locale ≡ n.cout_locale

Same-view : {Locale : Type 0} (m n : LocalizationManager Locale) → Same m n → view m ≡ view n
Same-view m n s = λ i. (Quot.sound s.entries i, s.global_same i, s.cout_same i)

module _ {Locale : Type 0} (boost : Boost Locale) where
  switch_none :
      (language : Bytes) (m : LocalizationManager Locale)
      → find language m.locales ≡ none
      → switch_locale boost language m ≡ m
  unfolding switch_locale
  switch_none language m e = rw (e, switch_locale) refl

  switch_some :
      (language : Bytes) (m : LocalizationManager Locale) (p : Locale)
      → find language m.locales ≡ some p
      → switch_locale boost language m ≡ record m { global_locale = p; cout_locale = p }
  unfolding switch_locale
  switch_some language m p e = rw (e, switch_locale) refl

  switch_locale-Same :
      (language : Bytes) (m n : LocalizationManager Locale)
      → Same m n
      → Same (switch_locale boost language m) (switch_locale boost language n)
  switch_locale-Same language m n s = elim (Option-cases (find language m.locales)) [
    | inl e ↦ rw (switch_none language m e, switch_none language n (sym (s.entries language) ∙ e)) s
    | inr (p, e) ↦
        rw (switch_some language m p e, switch_some language n p (sym (s.entries language) ∙ e))
          (record { entries = s.entries; global_same = refl; cout_same = refl })
  ]

  added :
      (locale_dir domain language : Bytes) (m : LocalizationManager Locale) (x : Locale)
      → boost.generate locale_dir domain language ≡ some x
      → call boost (add locale_dir domain language) m
        ≡ some (record m { locales = emplace language x m.locales })
  unfolding call add_locale
  added locale_dir domain language m x e = rw e refl

  -- A call that can generate its locale keeps two managers the same.
  call-Same :
      (c : Call) (m n : LocalizationManager Locale)
      → CanGenerate boost c
      → Same m n
      → (x : LocalizationManager Locale) × (y : LocalizationManager Locale) × (call boost c m
          ≡ some x)
        × (call boost c n ≡ some y)
        × Same x y
  call-Same (add locale_dir domain language) m n (x, e) s = (
    record m { locales = emplace language x m.locales },
    record n { locales = emplace language x n.locales },
    added locale_dir domain language m x e,
    added locale_dir domain language n x e,
    record {
      entries = λ name. find-emplace_both name language x m.locales n.locales (s.entries name);
      global_same = s.global_same;
      cout_same = s.cout_same;
    },
  )
  call-Same (switch language) m n h s = (
    switch_locale boost language m,
    switch_locale boost language n,
    unfold call in refl,
    unfold call in refl,
    switch_locale-Same language m n s,
  )

  run-Same :
      (calls : List Call) (m n : LocalizationManager Locale)
      → All (CanGenerate boost) calls
      → Same m n
      → (x : LocalizationManager Locale) × (y : LocalizationManager Locale) × (run boost calls m
          ≡ some x)
        × (run boost calls n ≡ some y)
        × Same x y
  run-Same [] m n h s = (m, n, unfold run in refl, unfold run in refl, s)
  run-Same (c ∷ calls) m n h s =
      let (a, b, e, f, t) = call-Same c m n h.0 s in
      let (x, y, g, k, u) = run-Same calls a b h.1 t in
      (x, y, run_next boost c calls m a e ∙ g, run_next boost c calls n b f ∙ k, u)

  -- Where two different languages are added, and their locales and those of the calls that follow can be
  -- generated, the order of the two makes no difference: whatever calls follow, the manager comes to the
  -- same map, as a map without order, and to the same locales of the program, and every message is
  -- translated in the same way.
  pub run-swapped :
      (calls : List Call) (dir_a domain_a a dir_b domain_b b : Bytes) (x y : Locale)
      (m : LocalizationManager Locale) (msg : Bytes)
      → bytes_eq a b ≡ false
      → boost.generate dir_a domain_a a ≡ some x
      → boost.generate dir_b domain_b b ≡ some y
      → All (CanGenerate boost) calls
      → (one : LocalizationManager Locale) × (other : LocalizationManager Locale) × (run boost
            (add dir_a domain_a a ∷ add dir_b domain_b b ∷ calls)
            m
          ≡ some one)
        × (run boost (add dir_b domain_b b ∷ add dir_a domain_a a ∷ calls) m ≡ some other)
        × (view one ≡ view other)
        × (translate boost msg one ≡ translate boost msg other)
  run-swapped calls dir_a domain_a a dir_b domain_b b x y m msg apart ga gb g =
      let ma = record m { locales = emplace a x m.locales } in
      let mb = record m { locales = emplace b y m.locales } in
      let mab = record m { locales = emplace b y (emplace a x m.locales) } in
      let mba = record m { locales = emplace a x (emplace b y m.locales) } in
      let (one, other, e, f, s) = run-Same calls mab mba g (record {
        entries = emplace_comm a b x y m.locales apart;
        global_same = refl;
        cout_same = refl;
      }) in
      (
        one,
        other,
        run_next boost _ _ m ma (added dir_a domain_a a m x ga)
            ∙ run_next boost _ _ ma mab (added dir_b domain_b b ma y gb)
            ∙ e,
        run_next boost _ _ m mb (added dir_b domain_b b m y gb)
            ∙ run_next boost _ _ mb mba (added dir_a domain_a a mb x ga)
            ∙ f,
        Same-view one other s,
        unfold translate in ap (λ (l : Locale). boost.translate l msg) s.global_same,
      )
