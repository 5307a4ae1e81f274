-- ===== src/Templating/Context.antt =====
-- src/whz_templating.cpp: the data that `FetchData` gathers.
use work_horz.Base.{
  Bool, true, false, ◌||◌, List, [], ◌∷◌, Option, none, some, if◌then◌else◌, Bytes, bytes_eq,
  bytes_eq_iff, All, ◌≡◌, refl, sym, ap, ◌∙◌, Bool-cases, inl, inr, ◌⊎◌,
}
use work_horz.Templating.{
  value, Call, gave, TemplateDefiner, DataContext, assign, get, TemplateProcessor, fetch_variable,
  fetch_loop, fetch_data,
}

get-assign :
    (var text key : Bytes) (context : DataContext)
    → get (assign var text context) key ≡ (if bytes_eq var key then some text else get context key)
unfolding get assign
get-assign var text key [] = refl
get-assign var text key ((name, old) ∷ pairs) = elim (Bool-cases (bytes_eq name var)) [
  | inl here ↦
      let same : name ≡ var = (bytes_eq_iff name var).0 here in
      rw here (rw same (twice (bytes_eq var key) (get pairs key)))
  | inr further ↦ rw further (elim (Bool-cases (bytes_eq name key)) [
    | inl found ↦ elim (Bool-cases (bytes_eq var key)) [
      | inl same ↦
          let first : name ≡ key = (bytes_eq_iff name key).0 found in
          let second : var ≡ key = (bytes_eq_iff var key).0 same in
          let equal : name ≡ var = first ∙ sym second in
          let again : bytes_eq name var ≡ true = (bytes_eq_iff name var).1 equal in cc
      | inr apart ↦ rw (found, apart) refl
    ]
    | inr not_found ↦ rw not_found (get-assign var text key pairs)
  ])
]
  where
    twice :
        (b : Bool) (before : Option Bytes)
        → (if b then some text else before)
          ≡ (if b then some text else (if b then some old else before))
    twice true before = refl
    twice false before = refl

abbrev pub member : Bytes → List Bytes → Bool
member key [] = false
member key (var ∷ variables) = bytes_eq var key || member key variables

-- What a template shows for the row of a query: its first column, or nothing.
abbrev pub shown : Option Bytes → Bytes
shown none = []
shown (some text) = text

module _ (query : Bytes → Call (Option Bytes)) (definer : TemplateDefiner)
    (row : Bytes → Option Bytes) where
  -- The definer has a query for the variable, and the database answers it by the row.
  abbrev pub Answered : Bytes → Type 0
  Answered var =
      (sql : Bytes) × (definer.get_sql_for_variable var ≡ value sql) × (query sql ≡ gave (row var))

  fetch_variable_lem :
      (var sql : Bytes) (context : DataContext)
      → query sql ≡ gave (row var)
      → fetch_variable query var sql context ≡ value (assign var (shown (row var)) context)
  unfolding fetch_variable
  fetch_variable_lem var sql context e = rw e (write (row var))
    where
      write :
          (found : Option Bytes)
          → (elim found [
            | some text ↦ value (assign var text context)
            | none ↦ value (assign var [] context)
          ])
            ≡ value (assign var (shown found) context)
      write none = refl
      write (some text) = refl

  fetch_loop_lem :
      (variables : List Bytes) (context : DataContext)
      → All Answered variables
      → (fetched : DataContext) × (fetch_loop query definer variables context ≡ value fetched)
        × ((key : Bytes)
            → get fetched key
              ≡ (if member key variables then some (shown (row key)) else get context key))
  unfolding fetch_loop
  fetch_loop_lem [] context h = (context, refl, λ key. refl)
  fetch_loop_lem (var ∷ variables) context ((sql, e, f), more) =
      let begun : DataContext = assign var (shown (row var)) context in
      let (fetched, same, found) = fetch_loop_lem variables begun more in
      (
        fetched,
        rw (e, fetch_loop) (rw (fetch_variable_lem var sql context f) same),
        λ key.
            found key
            ∙ ap (λ o. if member key variables then some (shown (row key)) else o)
                (get-assign var (shown (row var)) key context)
            ∙ join key (member key variables) (Bool-cases (bytes_eq var key)),
      )
    where
      join :
          (key : Bytes) (later : Bool)
          → (bytes_eq var key ≡ true) ⊎ (bytes_eq var key ≡ false)
          → (if later
              then some (shown (row key))
              else (if bytes_eq var key then some (shown (row var)) else get context key))
            ≡ (if bytes_eq var key || later then some (shown (row key)) else get context key)
      join key true (inl here) = rw here refl
      join key false (inl here) =
          rw here (ap (λ v. some (shown (row v))) ((bytes_eq_iff var key).0 here))
      join key true (inr apart) = rw apart refl
      join key false (inr apart) = rw apart refl

-- If the template definer has a query for each variable of a template, and the database answers each by
-- a row or by none, the data holds the first column, or the empty text, for each variable, and nothing
-- for any other name.
fetch_data-get :
    (query : Bytes → Call (Option Bytes)) (definer : TemplateDefiner) (row : Bytes → Option Bytes)
    (p : TemplateProcessor) (template_file : Bytes) (variables : List Bytes)
    → p.template_definer ≡ some definer
    → definer.get_template_variables template_file ≡ value variables
    → All (Answered query definer row) variables
    → (context : DataContext) × (fetch_data query p template_file ≡ value context)
      × ((key : Bytes)
          → get context key ≡ (if member key variables then some (shown (row key)) else none))
unfolding fetch_data get
fetch_data-get query definer row p template_file variables d v h =
    let (context, same, found) = fetch_loop_lem query definer row variables [] h in
    (context, rw (d, fetch_data) (rw v same), found)
