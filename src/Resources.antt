-- ===== src/Resources.antt =====
-- src/whz_resources.cpp: `resources`. Byte buffers are cells of a heap, at addresses that are never used
-- twice. A constructor is declared only: where a theorem needs one, the pointer starts as null.
pub mod Buffers
pub mod Loaded
pub mod Older
pub mod Same
mod Tests
use mathlib.Core.Option
use work_horz.Base.{
  starts_with, ℕ, suc, ◌==◌, Bool, true, false, not, ◌||◌, List, [], ◌∷◌, ◌++◌, Option, none, some,
  if◌then◌else◌, Bytes, codes, bytes_eq, is_empty,
}
use work_horz.Compression.Paths.{filename, extension}

pub data ResourceType : Type 0 where
  css html whzt js image_png image_jpg unknown : ResourceType

pub record Resources : Type 0 where
  pub resource_file_exists : Bool
  pub resource_content_str : Bytes
  pub resource_path : Bytes
  pub resource_type : ResourceType
  -- the address of the buffer; `none` is the null pointer
  pub resource_content_byte : Option ℕ

-- The object, the buffers that are allocated, the next address, and the messages to the logger.
pub record Memory : Type 0 where
  pub object : Resources
  pub buffers : List (ℕ × Bytes)
  pub next : ℕ
  pub errors : List Bytes

-- The disk: whether a path exists and is a regular file or a directory, the size of a file and the space that
-- is available, `none` an exception, and the content of a file that can be opened.
pub record FileSystem : Type 0 where
  pub exists : Bytes → Bool
  pub is_regular_file : Bytes → Bool
  pub is_directory : Bytes → Bool
  pub file_size : Bytes → Option ℕ
  pub available : Bytes → Option ℕ
  pub open_file : Bytes → Option Bytes

unfoldable pub error : Bytes → Memory → Memory
error text m = record m { errors = m.errors ++ text ∷ [] }

unfoldable pub edit : (Resources → Resources) → Memory → Memory
edit f m = record m { object = f m.object }

-- The type of an extension; `unknown` for any other one.
unfoldable pub type_of : Bytes → ResourceType
type_of ext =
    if bytes_eq ext (codes ".css")
    then css
    else if bytes_eq ext (codes ".html") || bytes_eq ext (codes ".htm")
    then html
    else if bytes_eq ext (codes ".whzt")
    then whzt
    else if bytes_eq ext (codes ".js")
    then js
    else if bytes_eq ext (codes ".png")
    then image_png
    else if bytes_eq ext (codes ".jpg") || bytes_eq ext (codes ".jpeg")
    then image_jpg
    else unknown

unfoldable pub is_image : ResourceType → Bool
is_image image_png = true
is_image image_jpg = true
is_image _ = false

unfoldable pub is_unknown : ResourceType → Bool
is_unknown unknown = true
is_unknown _ = false

-- `checkResourceFileExists`.
unfoldable pub check_resource_file_exists : FileSystem → Bytes → Memory → Bool × Memory
unfolding error edit type_of
check_resource_file_exists fs path m =
    let kind = type_of (extension path) in
    let regular = fs.is_regular_file path in
    let found : Memory =
      edit
        (λ r.
          if regular
          then record r { resource_file_exists = true; resource_path = path }
          else record r {
            resource_file_exists = false;
            resource_path = [];
            resource_type = unknown;
          })
        m in
    let typed : Memory = edit (λ r. record r { resource_type = kind }) found in
    if fs.exists path
    then (
      regular,
      if is_unknown kind
          then error
              (codes "Failed to open the file "
                ++ (path ++ codes ", file extension is unknown/unsupported."))
              typed
          else typed,
    )
    else (false, m)

-- `new char[fsize]`, filled from the file; the old pointer is overwritten.
unfoldable pub allocate : Bytes → Memory → Memory
unfolding edit
allocate content m =
    edit (λ r. record r { resource_content_byte = some m.next })
      (record m { buffers = (m.next, content) ∷ m.buffers; next = suc m.next })

-- `loadResource`.
unfoldable pub load_resource : FileSystem → Bytes → Memory → Bool × Memory
unfolding check_resource_file_exists allocate
load_resource fs path m =
    let (found, checked) =
      check_resource_file_exists fs path (edit (λ r. record r { resource_path = path }) m) in
    if not found then (false, checked) else (elim (fs.open_file path) [
      | none ↦ (false, error (codes "Failed to open the file " ++ path) checked)
      | some content ↦
          let read : Memory =
            if is_image checked.object.resource_type then allocate content checked else checked in
          (true, edit (λ r. record r { resource_content_str = content }) read)
    ])

unfoldable pub remove : ℕ → List (ℕ × Bytes) → Option (List (ℕ × Bytes))
remove a [] = none
remove a ((b, content) ∷ buffers) =
    let rest = remove a buffers in
    if b == a then some buffers else Option.map (λ kept. (b, content) ∷ kept) rest

-- `delete[]`; `none` is undefined behaviour, of a pointer to no buffer.
unfoldable pub delete : Memory → Option Memory
unfolding remove
delete m = elim m.object.resource_content_byte [
  | none ↦ some m
  | some a ↦ Option.map (λ kept. record m { buffers = kept }) (remove a m.buffers)
]

-- `unloadResource`, which always returns true.
unfoldable pub unload_resource : Memory → Option Memory
unfolding delete
unload_resource m =
    Option.map
      (edit (λ r. record r {
        resource_path = [];
        resource_content_byte = none;
        resource_content_str = [];
        resource_file_exists = false;
        resource_type = unknown;
      }))
      (delete m)

-- The destructor.
unfoldable pub destroy : Memory → Option Memory
unfolding delete
destroy = delete

abbrev pub resource_exists : Memory → Bool
resource_exists m = m.object.resource_file_exists

abbrev pub get_resource_path_filename : Memory → Option Bytes
get_resource_path_filename m = some (filename m.object.resource_path)

abbrev pub get_resource_path_fullpath : Memory → Option Bytes
get_resource_path_fullpath m = some m.object.resource_path

abbrev pub get_resource_content_str : Memory → Option Bytes
get_resource_content_str m = some m.object.resource_content_str

abbrev pub get_resource_type : Memory → Option ResourceType
get_resource_type m = some m.object.resource_type

-- The address; a null pointer is in the optional too.
abbrev pub get_resource_content_bytes : Memory → Option (Option ℕ)
get_resource_content_bytes m = some m.object.resource_content_byte

-- `root_directory()` of a path.
unfoldable pub root_directory : Bytes → Bytes
root_directory path = if starts_with path (codes "/") then codes "/" else []

abbrev pub get_resource_path_dirname : Memory → Option Bytes
get_resource_path_dirname m = some (root_directory m.object.resource_path)

abbrev pub resource_is_file : FileSystem → Memory → Bool
resource_is_file fs m = fs.is_regular_file m.object.resource_path

abbrev pub resource_is_dir : FileSystem → Memory → Bool
resource_is_dir fs m = fs.is_directory m.object.resource_path

abbrev pub get_resource_size : FileSystem → Memory → Option ℕ
get_resource_size fs m = fs.file_size m.object.resource_path

abbrev pub get_available_system_space : FileSystem → Memory → Option ℕ
get_available_system_space fs m = fs.available m.object.resource_path

-- What a caller may do with the object.
pub data Call : Type 0 where
  load : Bytes → Call
  unload : Call

unfoldable pub run : FileSystem → List Call → Memory → Option Memory
unfolding load_resource unload_resource
run fs [] m = some m
run fs (load path ∷ calls) m = run fs calls (load_resource fs path m).1
run fs (unload ∷ calls) m = elim (unload_resource m) [
  | none ↦ none
  | some after ↦ run fs calls after
]
