-- ===== src/Vcard.antt =====
-- src/whz_vcard.hpp: `whz_vcard`. A std::map of parameters is the list of its entries, in the order of
-- its keys; a string stream is the text that was written to it.
pub mod Lines
mod Tests
use work_horz.Base.{
  Bool, true, false, not, List, [], ◌∷◌, ◌++◌, Bytes, codes, is_empty, if◌then◌else◌,
}

pub record Vcard : Type 0 where
  pub properties : List (Bytes × Bytes)

-- `addProperty` with no parameters.
pub add_property : Bytes → Bytes → Vcard → Vcard
add_property name value v = record v { properties = v.properties ++ (name, value) ∷ [] }

-- The constructor.
unfoldable pub make : Vcard
unfolding add_property
make = add_property (codes "VERSION") (codes "4.0") (record { properties = [] })

-- `for (const auto& [key, param_value] : parameters) oss << ";" << key << "=" << param_value;`
pub parameter_loop : Bytes → List (Bytes × Bytes) → Bytes
parameter_loop oss [] = oss
parameter_loop oss ((key, param_value) ∷ ps) =
    parameter_loop (oss ++ (b';' ∷ (key ++ (b'=' ∷ param_value)))) ps

-- `addProperty` with parameters, and `addRFC6350Field`.
pub add_property_with : Bytes → List (Bytes × Bytes) → Bytes → Vcard → Vcard
unfolding parameter_loop
add_property_with name parameters value v = record v {
  properties = v.properties ++ (parameter_loop name parameters ++ (b':' ∷ value), []) ∷ [];
}

-- The loop over the address fields.
pub field_loop : Bytes → Bool → List Bytes → Bytes
field_loop oss first [] = oss
field_loop oss first (field ∷ fields) =
    field_loop ((if not first then oss ++ b';' ∷ [] else oss) ++ field) false fields

pub add_address : List (Bytes × Bytes) → List Bytes → Vcard → Vcard
unfolding parameter_loop field_loop
add_address parameters fields v = record v {
  properties =
      v.properties
      ++ (field_loop (parameter_loop (codes "ADR") parameters ++ b':' ∷ []) true fields, []) ∷ [];
}

-- The loop of `toString`.
pub property_loop : Bytes → List (Bytes × Bytes) → Bytes
property_loop oss [] = oss
property_loop oss ((name, value) ∷ ps) =
    property_loop
      (oss
        ++ (if not (is_empty value)
            then name ++ (b':' ∷ (value ++ b'\n' ∷ []))
            else name ++ b'\n' ∷ []))
      ps

pub to_string : Vcard → Bytes
unfolding property_loop
to_string v = property_loop (codes "BEGIN:VCARD\n") v.properties ++ codes "END:VCARD\n"
