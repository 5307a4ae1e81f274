-- ===== src/Vcard/Lines.antt =====
-- src/whz_vcard.hpp: what a reader of the lines of a vCard gets.
use work_horz.Base.{
  true, false, not, List, [], ◌∷◌, ◌++◌, ◌≡◌, ◌≢◌, refl, sym, ap, ◌∙◌, Bytes, codes, is_empty, All,
  All-append, if◌then◌else◌, append_assoc, append-nil, map, arith,
}
use work_horz.Base.Split.{Lacks, split, split-append, split_one}
use work_horz.Vcard.{
  Vcard, add_property, make, parameter_loop, add_property_with, field_loop, add_address,
  property_loop, to_string,
}

-- What a caller adds to a vCard.
pub data Edit : Type 0 where
  property : Bytes → Bytes → Edit
  property_with : Bytes → List (Bytes × Bytes) → Bytes → Edit
  address : List (Bytes × Bytes) → List Bytes → Edit

abbrev apply : Edit → Vcard → Vcard
apply (property name value) v = add_property name value v
apply (property_with name ps value) v = add_property_with name ps value v
apply (address ps fields) v = add_address ps fields v

abbrev pub apply_all : List Edit → Vcard → Vcard
apply_all [] v = v
apply_all (e ∷ es) v = apply_all es (apply e v)

-- The parameters, and the fields with `;` between them.
abbrev pub parameters : List (Bytes × Bytes) → Bytes
parameters [] = []
parameters ((key, value) ∷ ps) = (b';' ∷ (key ++ (b'=' ∷ value))) ++ parameters ps

abbrev joined : List Bytes → Bytes
joined [] = []
joined (f ∷ []) = f
joined (f ∷ g ∷ fs) = f ++ (b';' ∷ joined (g ∷ fs))

-- The content line of an edit: name, parameters and value.
abbrev content_line : Edit → Bytes
content_line (property name value) = name ++ (b':' ∷ value)
content_line (property_with name ps value) = (name ++ parameters ps) ++ (b':' ∷ value)
content_line (address ps fields) = (codes "ADR" ++ parameters ps) ++ (b':' ∷ joined fields)

-- An edit on one line; a property without parameters has a value.
abbrev pub IsEdit : Edit → Type 0
IsEdit (property name value) = Lacks b'\n' (name ++ (b':' ∷ value)) × (value ≢ [])
IsEdit (property_with name ps value) = Lacks b'\n' ((name ++ parameters ps) ++ (b':' ∷ value))
IsEdit (address ps fields) = Lacks b'\n' ((codes "ADR" ++ parameters ps) ++ (b':' ∷ joined fields))

parameter_loop_lem :
    (oss : Bytes) (ps : List (Bytes × Bytes)) → parameter_loop oss ps ≡ oss ++ parameters ps
unfolding parameter_loop
parameter_loop_lem oss [] = sym (append-nil oss)
parameter_loop_lem oss ((key, value) ∷ ps) =
    parameter_loop_lem (oss ++ (b';' ∷ (key ++ (b'=' ∷ value)))) ps ∙ append_assoc oss _ _

field_loop_more :
    (oss : Bytes) (f : Bytes) (fs : List Bytes)
    → field_loop oss false (f ∷ fs) ≡ oss ++ (b';' ∷ joined (f ∷ fs))
unfolding field_loop
field_loop_more oss f [] = append_assoc oss (b';' ∷ []) f
field_loop_more oss f (g ∷ fs) = field_loop_more ((oss ++ b';' ∷ []) ++ f) g fs ∙ simp append_assoc

field_loop_lem : (oss : Bytes) (fs : List Bytes) → field_loop oss true fs ≡ oss ++ joined fs
unfolding field_loop
field_loop_lem oss [] = sym (append-nil oss)
field_loop_lem oss (f ∷ []) = refl
field_loop_lem oss (f ∷ g ∷ fs) = field_loop_more (oss ++ f) g fs ∙ append_assoc oss f _

-- The text of a property in `toString`.
abbrev shown : Bytes × Bytes → Bytes
shown (name, value) = if not (is_empty value) then name ++ (b':' ∷ value) else name

apply_lem :
    (e : Edit) (v : Vcard)
    → IsEdit e
    → (p : Bytes × Bytes) × ((apply e v).properties ≡ v.properties ++ p ∷ [])
      × (shown p ≡ content_line e)
unfolding add_property add_property_with add_address
apply_lem (property name []) v h = absurd (h.1 refl)
apply_lem (property name (c ∷ value)) v h = ((name, c ∷ value), refl, refl)
apply_lem (property_with name ps value) v h = (_, refl, rw (parameter_loop_lem name ps))
apply_lem (address ps fields) v h = (
  _,
  refl,
  field_loop_lem _ fields
      ∙ rw (parameter_loop_lem (codes "ADR") ps)
          (append_assoc (codes "ADR" ++ parameters ps) (b':' ∷ []) (joined fields)),
)

line_of : (e : Edit) → IsEdit e → Lacks b'\n' (content_line e)
line_of (property name value) h = h.0
line_of (property_with name ps value) h = h
line_of (address ps fields) h = h

property_loop_lem :
    (oss : Bytes) (p : Bytes × Bytes) (ps : List (Bytes × Bytes))
    → property_loop oss (p ∷ ps) ≡ property_loop (oss ++ (shown p ++ b'\n' ∷ [])) ps
unfolding property_loop
property_loop_lem oss (name, []) ps = refl
property_loop_lem oss (name, c ∷ value) ps =
    ap (λ z. property_loop (oss ++ z) ps) (sym (append_assoc name (b':' ∷ c ∷ value) (b'\n' ∷ [])))

abbrev unlines : List Bytes → Bytes
unlines [] = []
unlines (l ∷ ls) = l ++ (b'\n' ∷ unlines ls)

split-unlines :
    (ls : List Bytes) → All (Lacks b'\n') ls → split b'\n' (unlines ls) ≡ ls ++ ([] ∷ [])
unfolding split
split-unlines [] h = refl
split-unlines (l ∷ ls) h = split-append b'\n' l (unlines ls) h.0 ∙ ap (◌∷◌ l) (split-unlines ls h.1)

unlines-append : (a b : List Bytes) → unlines (a ++ b) ≡ unlines a ++ unlines b
unlines-append [] b = refl
unlines-append (l ∷ a) b = rw (unlines-append a b) (sym (append_assoc l _ _))

property_loop-unlines :
    (oss : Bytes) (ps : List (Bytes × Bytes)) → property_loop oss ps ≡ oss ++ unlines (map shown ps)
unfolding property_loop
property_loop-unlines oss [] = sym (append-nil oss)
property_loop-unlines oss (p ∷ ps) =
    property_loop_lem oss p ps
    ∙ property_loop-unlines (oss ++ (shown p ++ b'\n' ∷ [])) ps
    ∙ simp append_assoc

-- What a sequence of edits adds.
apply_all_lem :
    (es : List Edit) (v : Vcard)
    → All IsEdit es
    → (ps : List (Bytes × Bytes)) × ((apply_all es v).properties ≡ v.properties ++ ps)
      × (map shown ps ≡ map content_line es)
apply_all_lem [] v h = ([], sym (append-nil v.properties), refl)
apply_all_lem (e ∷ es) v h =
    let (p, q, s) = apply_lem e v h.0 in
    let (ps, r, t) = apply_all_lem es (apply e v) h.1 in
    (p ∷ ps, r ∙ rw q (append_assoc v.properties (p ∷ []) ps), rw (s, t))

lines_of : (es : List Edit) → All IsEdit es → All (Lacks b'\n') (map content_line es)
lines_of [] h = tt
lines_of (e ∷ es) h = (line_of e h.0, lines_of es h.1)

-- The lines of a vCard.
abbrev card : List Bytes → List Bytes
card xs = codes "BEGIN:VCARD" ∷ (xs ++ (codes "END:VCARD" ∷ []))

to_string-unlines : (v : Vcard) → to_string v ≡ unlines (card (map shown v.properties))
unfolding to_string
to_string-unlines v =
    ap (λ z. z ++ codes "END:VCARD\n") (property_loop-unlines (codes "BEGIN:VCARD\n") v.properties)
    ∙ append_assoc (codes "BEGIN:VCARD\n") (unlines (map shown v.properties)) (codes "END:VCARD\n")
    ∙ ap (λ z. codes "BEGIN:VCARD\n" ++ z)
        (sym (unlines-append (map shown v.properties) (codes "END:VCARD" ∷ [])))

split-card :
    (xs : List Bytes)
    → All (Lacks b'\n') xs
    → split b'\n' (unlines (card xs)) ≡ codes "BEGIN:VCARD" ∷ (xs ++ (codes "END:VCARD" ∷ [] ∷ []))
split-card xs h =
    split-unlines (card xs)
      (fixed, All-append (Lacks b'\n') xs (codes "END:VCARD" ∷ []) h (fixed_end, tt))
    ∙ ap (◌∷◌ (codes "BEGIN:VCARD")) (append_assoc xs (codes "END:VCARD" ∷ []) ([] ∷ []))
  where
    fixed : Lacks b'\n' (codes "BEGIN:VCARD")
    fixed = ground arith

    fixed_end : Lacks b'\n' (codes "END:VCARD")
    fixed_end = ground arith

version_line : Lacks b'\n' (codes "VERSION:4.0")
version_line = ground arith

-- A new vCard, after any sequence of edits, is read back line by line: the line that begins it,
-- the version, one content line for each edit, in their order, and the line that ends it. No
-- content line holds a line feed, and a property without parameters has a value that is not
-- empty.
pub to_string-lines :
    (es : List Edit)
    → All IsEdit es
    → split b'\n' (to_string (apply_all es make))
      ≡ codes "BEGIN:VCARD"
        ∷ codes "VERSION:4.0"
        ∷ (map content_line es ++ (codes "END:VCARD" ∷ [] ∷ []))
unfolding make add_property
to_string-lines es h =
    let (ps, e, s) = apply_all_lem es make h in
    let shown_lines : map shown (apply_all es make).properties
        ≡ codes "VERSION:4.0" ∷ map content_line es =
      ap (map shown) e ∙ ap (◌∷◌ (codes "VERSION:4.0")) s in
    ap (split b'\n')
      (to_string-unlines (apply_all es make) ∙ ap (λ z. unlines (card z)) shown_lines)
    ∙ split-card (codes "VERSION:4.0" ∷ map content_line es) (version_line, lines_of es h)

-- An address with at least one field, none of which holds `;`, adds one property: `ADR` with its
-- parameters, a colon, and a text that splits at `;` into the fields.
pub add_address-split :
    (ps : List (Bytes × Bytes)) (f : Bytes) (fs : List Bytes) (v : Vcard)
    → All (Lacks b';') (f ∷ fs)
    → (text : Bytes) × ((add_address ps (f ∷ fs) v).properties
        ≡ v.properties ++ ((codes "ADR" ++ parameters ps) ++ (b':' ∷ text), []) ∷ [])
      × (split b';' text ≡ f ∷ fs)
unfolding add_address
add_address-split ps f fs v h = (
  joined (f ∷ fs),
  ap (λ z. v.properties ++ (z, []) ∷ [])
      (field_loop_lem _ (f ∷ fs)
        ∙ rw (parameter_loop_lem (codes "ADR") ps)
            (append_assoc (codes "ADR" ++ parameters ps) (b':' ∷ []) (joined (f ∷ fs)))),
  split-joined f fs h,
)
  where
    split-joined :
        (f : Bytes) (fs : List Bytes)
        → All (Lacks b';') (f ∷ fs)
        → split b';' (joined (f ∷ fs)) ≡ f ∷ fs
    split-joined f [] h = split_one b';' f h.0
    split-joined f (g ∷ fs) h =
        split-append b';' f (joined (g ∷ fs)) h.0 ∙ ap (◌∷◌ f) (split-joined g fs h.1)
