-- ===== src/Templating/Process.antt =====
-- src/whz_templating.cpp: what `ProcessTemplate` comes to.
use work_horz.Base.{
  ◌++◌, Option, none, some, Bytes, codes, Option-cases, ◌≡◌, ◌≢◌, ◌↔◌, ◌⊎◌, refl, inl, inr,
}
use work_horz.Templating.{
  Outcome, value, unexpected, terminated, and_then, Call, gave, exception, placeholder,
  TemplateProcessor, set_template_definer, read_template_file, compile_template, fetch_data,
  process_template,
}

-- The template file can be read and its content can be compiled.
abbrev pub Compiles : {F : Type 0} → (Bytes → Option Bytes) → (Bytes → Call F) → Bytes → Type 0
Compiles {F} files format template_file =
    (content : Bytes) × (compiled : F) × (files template_file ≡ some content)
    × (format content ≡ gave compiled)

Call-cases :
    {A : Type 0} (c : Call A) → ((a : A) × (c ≡ gave a)) ⊎ ((e : Bytes) × (c ≡ exception e))
Call-cases (gave a) = inl (a, refl)
Call-cases (exception e) = inr (e, refl)

abbrev NoValue : {A : Type 0} → Outcome A → Type 0
NoValue {A} o = (a : A) → o ≢ value a

unexpected-NoValue : {A : Type 0} (e : Bytes) → NoValue {A = A} (unexpected e)
unexpected-NoValue e a h = cc

and_then-NoValue :
    {A B : Type 0} (o : Outcome A) (f : A → Outcome B)
    → ((a : A) → NoValue (f a))
    → NoValue (and_then o f)
and_then-NoValue (value a) f h b e = h a b e
and_then-NoValue (unexpected x) f h b e = cc
and_then-NoValue terminated f h b e = cc

process_template-NoValue :
    {F : Type 0} (query : Bytes → Call (Option Bytes)) (files : Bytes → Option Bytes)
    (format : Bytes → Call F) (p : TemplateProcessor) (template_file : Bytes)
    → NoValue (process_template query files format p template_file)
unfolding process_template
process_template-NoValue query files format p template_file =
    and_then-NoValue (read_template_file files template_file)
      (λ content. and_then (compile_template format content) (λ compiled.
        and_then (fetch_data query p template_file) (λ context. unexpected (codes "FIXME"))))
      (λ content.
        and_then-NoValue (compile_template format content)
          (λ compiled.
            and_then (fetch_data query p template_file) (λ context. unexpected (codes "FIXME")))
          (λ compiled.
            and_then-NoValue (fetch_data query p template_file)
              (λ context. unexpected (codes "FIXME"))
              (λ context. unexpected-NoValue (codes "FIXME"))))

not_terminated : {o : Outcome Bytes} {e : Bytes} → o ≡ unexpected e → o ≢ terminated
not_terminated h k = cc

module _ {F : Type 0} (query : Bytes → Call (Option Bytes)) (files : Bytes → Option Bytes)
    (format : Bytes → Call F) (p : TemplateProcessor) (template_file : Bytes) where
  read_lem :
      (content : Bytes)
      → files template_file ≡ some content
      → read_template_file files template_file ≡ value content
  unfolding read_template_file
  read_lem content e = rw (e, read_template_file) refl

  missing_lem :
      files template_file ≡ none
      → read_template_file files template_file
        ≡ unexpected (codes "Failed to open template file: " ++ template_file)
  unfolding read_template_file
  missing_lem e = rw (e, read_template_file) refl

  Compiles-terminated :
      Compiles files format template_file
      → process_template query files format (set_template_definer placeholder p) template_file
        ≡ terminated
  unfolding process_template set_template_definer compile_template fetch_data
  Compiles-terminated (content, compiled, e, f) =
      rw (read_lem content e, process_template) (rw f refl)

  terminated-Compiles :
      process_template query files format (set_template_definer placeholder p) template_file
        ≡ terminated
      → Compiles files format template_file
  unfolding process_template set_template_definer compile_template
  terminated-Compiles h = elim (Option-cases (files template_file)) [
    | inl missing ↦
        let error : process_template query files format (set_template_definer placeholder p)
              template_file
            ≡ unexpected (codes "Failed to open template file: " ++ template_file) =
          rw (missing_lem missing, process_template) refl in
        absurd (not_terminated error h)
    | inr (content, there) ↦ elim (Call-cases (format content)) [
      | inl (compiled, e) ↦ (content, compiled, there, e)
      | inr (what, e) ↦
          let error : process_template query files format (set_template_definer placeholder p)
                template_file
              ≡ unexpected (codes "Template compilation failed: " ++ what) =
            rw (read_lem content there, process_template) (rw e refl) in
          absurd (not_terminated error h)
    ]
  ]

-- Whatever the definer is, no template is ever rendered. With the definer of the source, the program
-- is terminated if and only if the template file can be read and its content can be compiled.
pub process_template-placeholder :
    {F : Type 0} (query : Bytes → Call (Option Bytes)) (files : Bytes → Option Bytes)
    (format : Bytes → Call F) (p : TemplateProcessor) (template_file : Bytes)
    → ((text : Bytes) → process_template query files format p template_file ≢ value text)
      × ((process_template query files format (set_template_definer placeholder p) template_file
            ≡ terminated)
          ↔ Compiles files format template_file)
process_template-placeholder query files format p template_file = (
  process_template-NoValue query files format p template_file,
  (
    terminated-Compiles query files format p template_file,
    Compiles-terminated query files format p template_file,
  ),
)
