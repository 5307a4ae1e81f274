-- ===== src/Resources/Older.antt =====
-- src/Resources.cpp: the class `Resources` of the namespace WHZ, which src/whz_resources.cpp has taken over.
-- It has the same fields.
use mathlib.Core.Option
use work_horz.Base.{
  ◌==◌, Bool, true, false, not, ◌||◌, List, [], ◌∷◌, ◌++◌, Option, none, some, if◌then◌else◌, Bytes,
  codes,
}
use work_horz.Compression.Paths.{extension}
use work_horz.Resources.{
  Memory, FileSystem, Call, load, unload, unknown, error, edit, type_of, is_image, is_unknown,
  allocate, delete,
}

-- A path on a stream is quoted.
unfoldable pub escaped : Bytes → Bytes
escaped [] = []
escaped (c ∷ path) =
    let rest = escaped path in if c == b'"' || c == b'\\' then b'\\' ∷ c ∷ rest else c ∷ rest

unfoldable pub quoted : Bytes → Bytes
unfolding escaped
quoted path = b'"' ∷ (escaped path ++ b'"' ∷ [])

-- `checkResourceFileExists`.
unfoldable pub check_resource_file_exists : FileSystem → Bytes → Memory → Bool × Memory
unfolding error edit type_of quoted
check_resource_file_exists fs path m =
    let kind = type_of (extension path) in
    let regular = fs.is_regular_file path in
    let found : Memory =
      edit
        (λ r.
          if regular
          then record r { resource_file_exists = true; resource_path = path }
          else record r {
            resource_file_exists = false;
            resource_path = [];
            resource_type = unknown;
          })
        m in
    let typed : Memory = edit (λ r. record r { resource_type = kind }) found in
    if fs.exists path
    then (
      regular,
      if is_unknown kind
          then error
              (codes "ERROR: Failed to open the file"
                ++ (quoted path ++ codes ", file extension is unknown/unsupported."))
              typed
          else typed,
    )
    else (false, m)

-- `loadResource`.
unfoldable pub load_resource : FileSystem → Bytes → Memory → Bool × Memory
unfolding check_resource_file_exists allocate error edit
load_resource fs path m =
    let (found, checked) =
      check_resource_file_exists fs path (edit (λ r. record r { resource_path = path }) m) in
    if not found then (false, checked) else (elim (fs.open_file path) [
      | none ↦ (false, error (codes "Resources ERROR: Failed to open the file" ++ path) checked)
      | some content ↦
          let read : Memory =
            if is_image checked.object.resource_type then allocate content checked else checked in
          (true, edit (λ r. record r { resource_content_str = content }) read)
    ])

-- `unloadResource`.
unfoldable pub unload_resource : Memory → Option Memory
unfolding delete edit
unload_resource m =
    Option.map
      (edit (λ r. record r {
        resource_path = [];
        resource_content_byte = none;
        resource_content_str = [];
        resource_file_exists = false;
        resource_type = unknown;
      }))
      (delete m)

-- The destructor.
unfoldable pub destroy : Memory → Option Memory
unfolding delete
destroy = delete

unfoldable pub run : FileSystem → List Call → Memory → Option Memory
unfolding load_resource unload_resource
run fs [] m = some m
run fs (load path ∷ calls) m = run fs calls (load_resource fs path m).1
run fs (unload ∷ calls) m = elim (unload_resource m) [
  | none ↦ none
  | some after ↦ run fs calls after
]
