-- ===== src/Templating.antt =====
-- src/whz_templating.cpp: `TemplateProcessor` and the placeholder `TemplateDefiner`. The template library,
-- the database library and the file system are parameters.
pub mod Context
pub mod Process
mod Tests
use work_horz.Base.{
  ℕ, Bool, true, false, not, List, [], ◌∷◌, ◌++◌, Option, none, some, if◌then◌else◌, Bytes, codes,
  bytes_eq,
}

-- What a call comes to: the value or the error of a `std::expected`, or the end of the program by
-- `std::terminate`.
pub data Outcome {ℓ} (A : Type ℓ) : Type ℓ where
  value : A → Outcome A
  unexpected : Bytes → Outcome A
  terminated : Outcome A

abbrev pub and_then {ℓ κ} : {A : Type ℓ} {B : Type κ} → Outcome A → (A → Outcome B) → Outcome B
and_then (value a) f = f a
and_then (unexpected e) f = unexpected e
and_then terminated f = terminated

-- What a call of a library throws, or the value that it returns.
pub data Call {ℓ} (A : Type ℓ) : Type ℓ where
  gave : A → Call A
  exception : Bytes → Call A

-- A `catch` that puts a text before that of the exception.
abbrev pub catch {ℓ} : {A : Type ℓ} → Bytes → Call A → Outcome A
catch text (gave a) = value a
catch text (exception what) = unexpected (text ++ what)

-- `TemplateDefiner`: the variables of a template, and the query of a variable.
pub record TemplateDefiner : Type 0 where
  pub get_template_variables : Bytes → Outcome (List Bytes)
  pub get_sql_for_variable : Bytes → Outcome Bytes

-- The class as it stands.
abbrev pub placeholder : TemplateDefiner
placeholder = record {
  get_template_variables = λ template_file. terminated;
  get_sql_for_variable = λ variable_name. terminated;
}

-- `DataContext`: the pairs of the map; there is one for each name.
abbrev pub DataContext : Type 0
DataContext = List (Bytes × Bytes)

-- `context.data[var] = text`.
unfoldable pub assign : Bytes → Bytes → DataContext → DataContext
assign var text [] = (var, text) ∷ []
assign var text ((name, old) ∷ pairs) =
    if bytes_eq name var then (name, text) ∷ pairs else (name, old) ∷ assign var text pairs

-- `data.find(key)`, as `impl_object<DataContext>::get` uses it.
unfoldable pub get : DataContext → Bytes → Option Bytes
get [] key = none
get ((name, text) ∷ pairs) key = if bytes_eq name key then some text else get pairs key

-- `template_definer_`; the database is an argument of the operations, since nothing sets it anew.
pub record TemplateProcessor : Type 0 where
  pub template_definer : Option TemplateDefiner

-- `TemplateProcessor::Create`.
unfoldable pub create : {D : Type 0} → (Bytes → Call D) → Bytes → Outcome (D × TemplateProcessor)
create open_database db_path =
    and_then (catch (codes "Failed to open database: ") (open_database db_path))
      (λ db. value (db, record { template_definer = none }))

unfoldable pub set_template_definer : TemplateDefiner → TemplateProcessor → TemplateProcessor
set_template_definer definer p = record p { template_definer = some definer }

unfoldable pub read_template_file : (Bytes → Option Bytes) → Bytes → Outcome Bytes
read_template_file files template_file = elim (files template_file) [
  | none ↦ unexpected (codes "Failed to open template file: " ++ template_file)
  | some content ↦ value content
]

unfoldable pub compile_template : {F : Type 0} → (Bytes → Call F) → Bytes → Outcome F
compile_template format template_content =
    catch (codes "Template compilation failed: ") (format template_content)

module _ (query : Bytes → Call (Option Bytes)) where
  -- One round of the loop of `FetchData`; `query` is the first column of the first row of a query.
  unfoldable pub fetch_variable : Bytes → Bytes → DataContext → Outcome DataContext
  fetch_variable var sql context =
      and_then
        (catch (codes "SQL execution error for variable '" ++ (var ++ codes "': ")) (query sql))
        (λ row. elim row [
          | some text ↦ value (assign var text context)
          | none ↦ value (assign var [] context)
        ])

  unfoldable pub fetch_loop : TemplateDefiner → List Bytes → DataContext → Outcome DataContext
  unfolding fetch_variable
  fetch_loop definer [] context = value context
  fetch_loop definer (var ∷ variables) context =
      and_then (definer.get_sql_for_variable var) (λ sql.
        and_then (fetch_variable var sql context) (λ more. fetch_loop definer variables more))

  unfoldable pub fetch_data : TemplateProcessor → Bytes → Outcome DataContext
  unfolding fetch_loop
  fetch_data p template_file = elim p.template_definer [
    | none ↦ unexpected (codes "Template definer not set.")
    | some definer ↦
        and_then (definer.get_template_variables template_file)
          (λ variables. fetch_loop definer variables [])
  ]

  -- `ProcessTemplate`; its last step returns the error `FIXME`.
  unfoldable pub process_template :
      {F : Type 0}
      → (Bytes → Option Bytes)
      → (Bytes → Call F)
      → TemplateProcessor
      → Bytes
      → Outcome Bytes
  unfolding read_template_file compile_template fetch_data
  process_template files format p template_file =
      and_then (read_template_file files template_file) (λ template_content.
        and_then (compile_template format template_content) (λ compiled.
          and_then (fetch_data p template_file) (λ context. unexpected (codes "FIXME"))))
