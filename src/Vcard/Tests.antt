-- ===== src/Vcard/Tests.antt =====
-- A vCard with a name, a telephone number and an address.
use work_horz.Base.{arith, List, [], ◌∷◌, ◌≡◌, codes, All}
use work_horz.Base.Split.{split}
use work_horz.Vcard.{make, to_string}
use work_horz.Vcard.Lines.{
  Edit, property, property_with, address, apply_all, IsEdit, to_string-lines,
}

abbrev edits : List Edit
edits =
    property (codes "FN") (codes "J")
    ∷ property_with (codes "TEL") ((codes "TYPE", codes "w") ∷ []) (codes "1")
    ∷ address [] (codes "a" ∷ codes "b" ∷ [])
    ∷ []

edits-IsEdit : All IsEdit edits
edits-IsEdit = ground (arith)

to_string-lines_example :
    split b'\n' (to_string (apply_all edits make))
    ≡ codes "BEGIN:VCARD"
      ∷ codes "VERSION:4.0"
      ∷ codes "FN:J"
      ∷ codes "TEL;TYPE=w:1"
      ∷ codes "ADR:a;b"
      ∷ codes "END:VCARD"
      ∷ []
      ∷ []
to_string-lines_example = to_string-lines edits edits-IsEdit
