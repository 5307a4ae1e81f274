-- ===== src/Compression/Entries.antt =====
-- src/whz_datacompression.hpp: the entries of a ZIP archive, by their names.
use work_horz.Base.{
  Bool, true, false, List, [], ◌∷◌, Option, none, some, if◌then◌else◌, Bytes, bytes_eq,
  bytes_eq_iff, All, ◌≡◌, ◌≢◌, refl, sym, Bool-cases, inl, inr,
}
use work_horz.Base.Split.{Lacks}
use work_horz.Compression.Zip.{zip_file_add}

abbrev pub Entries : Type 0
Entries = List (Bytes × Bytes)

abbrev pub lookup : Entries → Bytes → Option Bytes
lookup [] key = none
lookup ((name, content) ∷ entries) key =
    if bytes_eq name key then some content else lookup entries key

-- No entry has the name, and no two entries have one name.
abbrev pub Fresh : Bytes → Entries → Type 0
Fresh key entries = All (λ (e : Bytes × Bytes). bytes_eq e.0 key ≡ false) entries

abbrev pub Unique : Entries → Type 0
Unique [] = Unit
Unique ((name, content) ∷ entries) = Fresh name entries × Unique entries

-- Names of entries, which lead to files in a directory.
abbrev pub IsName : Bytes → Type 0
IsName name = (name ≢ []) × Lacks b'/' name

abbrev pub Named : Entries → Type 0
Named entries = All (λ (e : Bytes × Bytes). IsName e.0) entries

pub zip_file_add-Named :
    (name content : Bytes) (entries : Entries)
    → IsName name
    → Named entries
    → Named (zip_file_add name content entries)
unfolding zip_file_add
zip_file_add-Named name content [] h n = (h, tt)
zip_file_add-Named name content ((other, old) ∷ entries) h (m, n) =
    elim (Bool-cases (bytes_eq other name)) [
      | inl same ↦ rw same (m, n)
      | inr apart ↦ rw apart (m, zip_file_add-Named name content entries h n)
    ]

bytes_eq_sym : (a b : Bytes) → bytes_eq a b ≡ false → bytes_eq b a ≡ false
bytes_eq_sym a b h = elim (Bool-cases (bytes_eq b a)) [
  | inl same ↦
      let back : a ≡ b = sym ((bytes_eq_iff b a).0 same) in
      let again = (bytes_eq_iff a b).1 back in cc
  | inr apart ↦ apart
]

zip_file_add-Fresh :
    (name key content : Bytes) (entries : Entries)
    → bytes_eq name key ≡ false
    → Fresh key entries
    → Fresh key (zip_file_add name content entries)
unfolding zip_file_add
zip_file_add-Fresh name key content [] h f = (h, tt)
zip_file_add-Fresh name key content ((other, old) ∷ entries) h (f, fs) =
    elim (Bool-cases (bytes_eq other name)) [
      | inl same ↦ rw same (f, fs)
      | inr apart ↦ rw apart (f, zip_file_add-Fresh name key content entries h fs)
    ]

pub zip_file_add-Unique :
    (name content : Bytes) (entries : Entries)
    → Unique entries
    → Unique (zip_file_add name content entries)
unfolding zip_file_add
zip_file_add-Unique name content [] u = (tt, tt)
zip_file_add-Unique name content ((other, old) ∷ entries) (f, u) =
    elim (Bool-cases (bytes_eq other name)) [
      | inl same ↦ rw same (f, u)
      | inr apart ↦ rw apart (
        zip_file_add-Fresh name other content entries (bytes_eq_sym other name apart) f,
        zip_file_add-Unique name content entries u,
      )
    ]

pub lookup-zip_file_add :
    (name key content : Bytes) (entries : Entries)
    → lookup (zip_file_add name content entries) key
      ≡ (if bytes_eq name key then some content else lookup entries key)
unfolding zip_file_add
lookup-zip_file_add name key content [] = refl
lookup-zip_file_add name key content ((other, old) ∷ entries) =
    elim (Bool-cases (bytes_eq other name)) [
      | inl same ↦
          let one : other ≡ name = (bytes_eq_iff other name).0 same in
          rw same (rw one (twice (bytes_eq name key)))
      | inr apart ↦ rw apart (elim (Bool-cases (bytes_eq other key)) [
        | inl found ↦
            let one : other ≡ key = (bytes_eq_iff other key).0 found in
            let differs : bytes_eq name key ≡ false = bytes_eq_sym key name (rw one at apart) in
            rw (found, differs) refl
        | inr not_found ↦ rw not_found (lookup-zip_file_add name key content entries)
      ])
    ]
  where
    twice :
        (b : Bool)
        → (if b then some content else lookup entries key)
          ≡ (if b then some content else (if b then some old else lookup entries key))
    twice true = refl
    twice false = refl

pub lookup-Fresh : (key : Bytes) (entries : Entries) → Fresh key entries → lookup entries key ≡ none
lookup-Fresh key [] f = refl
lookup-Fresh key ((name, content) ∷ entries) (f, fs) = rw f (lookup-Fresh key entries fs)
