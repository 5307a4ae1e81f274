-- ===== src/TemplateCache/Tests.antt =====
-- A directory with one template, and its image.
use work_horz.Base.{
  true, [], ◌∷◌, some, ◌≡◌, refl, Bytes, codes, length, replicate, length-replicate,
}
use work_horz.Base.Split.{split}
use work_horz.TemplateCache.{Templates, System, total_size, written, memory_map_templates}
use work_horz.TemplateCache.Image.{memory_map_templates-split}

abbrev system : System
system = record { opens = true; truncates = λ size. true; maps = λ size. some (replicate size 0) }

abbrev templates : Templates
templates = (codes "a", codes "hi") ∷ []

abbrev mapping : Bytes
mapping = replicate (total_size templates) 0

memory_map_templates-split_example :
    (image : Bytes) × (memory_map_templates system templates ≡ written image)
    × (length image ≡ length mapping)
    × (split 0 image ≡ codes "a" ∷ codes "hi" ∷ [] ∷ [])
memory_map_templates-split_example =
    memory_map_templates-split system templates mapping refl refl refl
      (length-replicate (total_size templates) 0) ((refl, tt), ((refl, (refl, tt)), tt))
