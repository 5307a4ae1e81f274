-- ===== src/Config/Read.antt =====
-- src/whz_config.cpp and .hpp: `read_config`, `is_config_loaded` and `relaod_config`.
use work_horz.Base.{
  sym, ap, Bool-cases, inl, inr, Bool, true, false, not, ◌||◌, List, [], ◌∷◌, Option, none, some,
  ◌≡◌, ◌≢◌, refl, ◌∙◌, if◌then◌else◌, Bytes, is_empty, arith,
}
use work_horz.Config.{initial, Config, get_config_value}
use work_horz.Config.Store.{store}
use work_horz.Config.Lookup.{same, converted, get-store, get-loaded}
use work_horz.Config.Parameter.{ConfigParameter, parameter_of_key}
use work_horz.Config.Values.{Json, Any}

-- What `parser.load` gives for a path: an error, a document that is no object, or its fields.
pub data Document {ℓ} (E : Type ℓ) : Type ℓ where
  load_error : Document E
  other_document : Document E
  object : List (Bytes × E) → Document E

-- `threw` is the simdjson_error of `get_object()` on a document that is no object.
pub data ReadResult : Type 0 where
  returned : Bool → Config → ReadResult
  threw : Config → ReadResult

returned-inj : {b b' : Bool} {c d : Config} → returned b c ≡ returned b' d → c ≡ d
returned-inj e = cc

abbrev is_config_loaded : Config → Bool
is_config_loaded c = c.config_loaded

module _ (json : Json) where
  -- The loop over the fields of the document.
  read_fields : Config → List (Bytes × json.Element) → Config
  read_fields c [] = c
  read_fields c ((key, value) ∷ fields) =
      read_fields (store json c (parameter_of_key key) value) fields

  read_document : Config → Document json.Element → ReadResult
  read_document c load_error = returned false c
  read_document c other_document = threw c
  read_document c (object fields) =
      returned true (record (read_fields c fields) { config_loaded = true })

  -- `exists` is std::filesystem::exists, and `load` is the parser on a path.
  pub read_config : (Bytes → Bool) → (Bytes → Document json.Element) → Config → Bytes → ReadResult
  unfolding read_document
  read_config exists load c path =
      if not (is_empty path) || exists path then read_document c (load path) else returned false c

  -- `relaod_config`.
  pub reload_config : (Bytes → Bool) → (Bytes → Document json.Element) → Config → ReadResult
  reload_config exists load c = read_config exists load c []

  -- The value that a document gives a parameter: that of its last field with the parameter's key.
  unfoldable pub setting : ConfigParameter → List (Bytes × json.Element) → Option json.Element
  setting q [] = none
  setting q ((key, value) ∷ fields) = elim (setting q fields) [
    | some later ↦ some later
    | none ↦ if same (parameter_of_key key) q then some value else none
  ]

  -- The value of a parameter behind the loop: what the document sets it to, or what it was.
  abbrev pub expected : Config → ConfigParameter → Option json.Element → Any
  expected c q none = get_config_value c q
  expected c q (some value) = converted json q value

  read_fields-setting :
      (fields : List (Bytes × json.Element)) (c : Config) (q : ConfigParameter)
      → get_config_value (read_fields c fields) q ≡ expected c q (setting q fields)
  unfolding read_fields setting
  read_fields-setting [] c q = refl
  read_fields-setting ((key, value) ∷ fields) c q =
      read_fields-setting fields (store json c (parameter_of_key key) value) q
      ∙ ground (arith, get-store json c (parameter_of_key key) q value)

  -- Where the path is not empty and the document that it loads is an object, the result of
  -- reading it is true, the configuration counts as loaded, and each parameter has the value
  -- of the last field with its key, converted to the parameter's type, or is as it was where
  -- there is no such field. A text is converted to a view, which dangles from then on: nothing is
  -- stated of its bytes.
  pub read_config-object :
      (exists : Bytes → Bool) (load : Bytes → Document json.Element) (c : Config) (path : Bytes)
      (fields : List (Bytes × json.Element))
      → path ≢ []
      → load path ≡ object fields
      → (d : Config) × (read_config exists load c path ≡ returned true d)
        × (d.config_loaded ≡ true)
        × ((q : ConfigParameter) → get_config_value d q ≡ expected c q (setting q fields))
  unfolding read_config
  read_config-object exists load c [] fields ne e = absurd (ne refl)
  read_config-object exists load c (x ∷ path) fields ne e = (
    record (read_fields c fields) { config_loaded = true },
    rw (e, read_document),
    refl,
    λ q. get-loaded (read_fields c fields) q true ∙ read_fields-setting fields c q,
  )

  -- Where the result is false, the configuration is as it was.
  pub read_config-false :
      (exists : Bytes → Bool) (load : Bytes → Document json.Element) (c d : Config) (path : Bytes)
      → read_config exists load c path ≡ returned false d
      → d ≡ c
  unfolding read_config
  read_config-false exists load c d path h = ground arith

  read_document-values :
      (c d : Config) (b : Bool) (doc : Document json.Element) (q : ConfigParameter)
      → read_document c doc ≡ returned b d
      → (o : Option json.Element) × (get_config_value d q ≡ expected c q o)
  unfolding read_document
  read_document-values c d b load_error q e =
      (none, ap (λ x. get_config_value x q) (sym (returned-inj e)))
  read_document-values c d b other_document q e = cc
  read_document-values c d b (object fields) q e = (
    setting q fields,
    ap (λ x. get_config_value x q) (sym (returned-inj e))
        ∙ get-loaded (read_fields c fields) q true
        ∙ read_fields-setting fields c q,
  )

  -- A configuration that the program can have: the initial one, after some reads.
  pub data Loaded : Config → Type 0 where
    unread : Loaded initial
    reread :
        {c d : Config} {b : Bool} (exists : Bytes → Bool) (load : Bytes → Document json.Element)
        (path : Bytes)
        → Loaded c
        → read_config exists load c path ≡ returned b d
        → Loaded d

  read_config-values :
      (exists : Bytes → Bool) (load : Bytes → Document json.Element) (c d : Config) (b : Bool)
      (path : Bytes) (q : ConfigParameter)
      → read_config exists load c path ≡ returned b d
      → (o : Option json.Element) × (get_config_value d q ≡ expected c q o)
  unfolding read_config
  read_config-values exists load c d b path q e =
      elim (Bool-cases (not (is_empty path) || exists path)) [
        | inl there ↦ read_document-values c d b (load path) q (rw (there, read_config) at e)
        | inr missing ↦ read_document-values c d b load_error q (rw (missing, read_config) at e)
      ]

  -- What holds of a parameter's first value, and of all that it can be set to, holds of its value in
  -- every configuration that the program can have.
  pub Loaded-induction {ℓ} :
      (P : Any → Type ℓ) (q : ConfigParameter) {c : Config}
      → P (get_config_value initial q)
      → ((value : json.Element) → P (converted json q value))
      → Loaded c
      → P (get_config_value c q)
  Loaded-induction P q first set unread = first
  Loaded-induction P q first set (reread {c} {d} {b} exists load path v e) =
      let (o, h) = read_config-values exists load c d b path q e in
      rw h (cases o (Loaded-induction P q first set v))
    where
      cases : (o : Option json.Element) → P (get_config_value c q) → P (expected c q o)
      cases none h = h
      cases (some value) h = set value

  -- `relaod_config` reads the empty path, which names no file, so it never loads anything.
  pub reload_config_fails :
      (exists : Bytes → Bool) (load : Bytes → Document json.Element) (c : Config)
      → exists [] ≡ false
      → reload_config exists load c ≡ returned false c
  unfolding reload_config read_config
  reload_config_fails exists load c h = rw h
