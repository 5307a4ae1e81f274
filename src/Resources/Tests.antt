-- ===== src/Resources/Tests.antt =====
-- A disk on which every path is an image.
use work_horz.Base.{Bytes, false, ◌⊎◌, true, [], ◌∷◌, List, none, some, ◌≡◌, refl, codes, ◌↔◌}
use work_horz.Compression.Paths.{extension, filename}
use work_horz.Encryption.{find_last_of}
use work_horz.Resources.{
  Memory, FileSystem, unknown, type_of, is_image, is_unknown, Call, load, unload, run, destroy,
  load_resource,
}
use work_horz.Resources.Loaded.{Shows, load_resource-cases}
use work_horz.Resources.Buffers.{Owned, IsImage, run-destroy}
use work_horz.Base.{bytes_eq}

abbrev fs : FileSystem
fs = record {
  exists = λ path. true;
  is_regular_file = λ path. true;
  is_directory = λ path. false;
  file_size = λ path. some 3;
  available = λ path. some 1000;
  open_file = λ path. some (codes "png");
}

abbrev memory : Memory
memory = record {
  object = record {
    resource_file_exists = true;
    resource_content_str = [];
    resource_path = [];
    resource_type = unknown;
    resource_content_byte = none;
  };
  buffers = [];
  next = 100;
  errors = [];
}

picture : IsImage fs (codes "a.png") (codes "png")
unfolding type_of is_image is_unknown extension filename find_last_of bytes_eq
picture = (refl, refl, refl, refl, refl)

abbrev calls : List Call
calls = load (codes "a.png") ∷ unload ∷ unload ∷ load (codes "b.html") ∷ []

run-destroy_example : Owned memory ↔ (
    (calls : List Call)
    → (n : Memory) × (run fs calls memory ≡ some n) × (last : Memory) × (destroy n ≡ some last))
run-destroy_example = run-destroy fs memory

load_resource-cases_example :
    ((content : Bytes) × (fs.exists (codes "a.png") ≡ true)
      × (fs.is_regular_file (codes "a.png") ≡ true)
      × (fs.open_file (codes "a.png") ≡ some content)
      × ((load_resource fs (codes "a.png") memory).0 ≡ true)
      × Shows (codes "a.png") content (load_resource fs (codes "a.png") memory).1)
    ⊎ (((load_resource fs (codes "a.png") memory).0 ≡ false)
        × ((fs.exists (codes "a.png") ≡ false)
            ⊎ ((fs.is_regular_file (codes "a.png") ≡ false)
                ⊎ (fs.open_file (codes "a.png") ≡ none))))
load_resource-cases_example = load_resource-cases fs (codes "a.png") memory
