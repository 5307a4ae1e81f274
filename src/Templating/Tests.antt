-- ===== src/Templating/Tests.antt =====
-- A template with one variable that the database knows, and one that it does not.
use work_horz.Base.{
  [], ◌∷◌, Option, none, some, if◌then◌else◌, ◌≡◌, ◌≢◌, ◌↔◌, Bytes, codes, bytes_eq,
}
use work_horz.Templating.{
  value, terminated, Call, gave, TemplateDefiner, placeholder, TemplateProcessor,
  set_template_definer, process_template,
}
use work_horz.Templating.Process.{Compiles, process_template-placeholder}

abbrev definer : TemplateDefiner
definer = record {
  get_template_variables = λ template_file. value (codes "a" ∷ codes "b" ∷ []);
  get_sql_for_variable = λ variable_name. value variable_name;
}

abbrev row : Bytes → Option Bytes
row var = if bytes_eq var (codes "a") then some (codes "Anna") else none

abbrev query : Bytes → Call (Option Bytes)
query sql = gave (row sql)

abbrev processor : TemplateProcessor
processor = record { template_definer = some definer }

abbrev files : Bytes → Option Bytes
files path = if bytes_eq path (codes "t") then some (codes "{{a}}") else none

abbrev format : Bytes → Call Bytes
format content = gave content

process_template-placeholder_example :
    ((text : Bytes) → process_template query files format processor (codes "t") ≢ value text)
    × ((process_template query files format (set_template_definer placeholder processor) (codes "t")
          ≡ terminated)
        ↔ Compiles files format (codes "t"))
process_template-placeholder_example =
    process_template-placeholder query files format processor (codes "t")
