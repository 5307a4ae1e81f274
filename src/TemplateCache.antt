-- ===== src/TemplateCache.antt =====
-- src/whz_templateCache.hpp and .cpp: `whz_templateCache`. The directory is the list of its entries, in
-- the order of the iterator; the multimap of templates is the list of its entries, in some order.
pub mod Lookup
pub mod Image
mod Tests
use work_horz.Base.{
  ℕ, ◌+◌, Bool, true, false, not, ◌&&◌, List, [], ◌∷◌, ◌++◌, Option, none, some, leb, if◌then◌else◌,
  Bytes, codes, is_empty, length, take, drop, bytes_eq,
}

-- `content` is what the file holds, or `none` where it cannot be opened.
pub record Entry : Type 0 where
  pub path : Bytes
  pub is_regular_file : Bool
  pub extension : Bytes
  pub content : Option Bytes

abbrev pub Templates : Type 0
Templates = List (Bytes × Bytes)

-- One round of the loop of `loadTemplates`.
pub load_entry : Entry → Templates → Templates
load_entry entry templates =
    if entry.is_regular_file && bytes_eq entry.extension (codes ".whzt")
    then elim entry.content [
      | none ↦ templates
      | some content ↦ templates ++ (entry.path, content) ∷ []
    ]
    else templates

pub load_loop : List Entry → Templates → Templates
unfolding load_entry
load_loop [] templates = templates
load_loop (entry ∷ entries) templates = load_loop entries (load_entry entry templates)

-- `getTemplate`: the content of the first entry with the path.
pub get_template : Bytes → Templates → Bytes
get_template path [] = []
get_template path ((name, content) ∷ rest) =
    let later = get_template path rest in if bytes_eq name path then content else later

-- The system calls: whether the file is opened, whether it can be given a size, and the memory that
-- a mapping of a size shows.
pub record System : Type 0 where
  pub opens : Bool
  pub truncates : ℕ → Bool
  pub maps : ℕ → Option Bytes

-- The size of the file: `+2` for the two terminators.
pub total_size : Templates → ℕ
total_size [] = 0
total_size ((name, content) ∷ rest) = length name + length content + 2 + total_size rest

-- `memcpy(map + ptr, …)`; `none` is a write outside of the mapping.
pub memcpy : ℕ → Bytes → Bytes → Option Bytes
memcpy ptr source map =
    if leb (ptr + length source) (length map)
    then some (take ptr map ++ (source ++ drop (ptr + length source) map))
    else none

-- The loop that writes; `c_str()` shows a terminator behind the string.
pub copy_loop : ℕ → Templates → Bytes → Option Bytes
copy_loop ptr [] map = some map
copy_loop ptr ((name, content) ∷ rest) map = elim (memcpy ptr (name ++ 0 ∷ []) map) [
  | none ↦ none
  | some map' ↦ elim (memcpy (ptr + length name + 1) (content ++ 0 ∷ []) map') [
    | none ↦ none
    | some map'' ↦ copy_loop (ptr + length name + 1 + length content + 1) rest map''
  ]
]

-- The ends of `memoryMapTemplates`; `overrun` is undefined behaviour.
pub data MapResult : Type 0 where
  open_failed truncate_failed map_failed overrun : MapResult
  written : Bytes → MapResult

pub memory_map_templates : System → Templates → MapResult
memory_map_templates system templates =
    if not system.opens
    then open_failed
    else if not (system.truncates (total_size templates))
    then truncate_failed
    else elim (system.maps (total_size templates)) [
      | none ↦ map_failed
      | some map ↦ elim (copy_loop 0 templates map) [ none ↦ overrun | some image ↦ written image ]
    ]

-- `loadTemplates`: the templates, and what comes of the memory map where one is made.
pub load_templates : System → List Entry → Bool → Templates → Templates × Option MapResult
load_templates system entries domemorymap templates =
    let loaded = load_loop entries templates in
    (
      loaded,
      if not (is_empty loaded) && domemorymap
          then some (memory_map_templates system loaded)
          else none,
    )

-- `reloadTemplates`.
pub reload_templates : System → List Entry → Templates → Templates × Option MapResult
unfolding load_templates
reload_templates system entries templates = load_templates system entries false []
