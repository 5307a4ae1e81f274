-- ===== src/Config/Parameter/Keys.antt =====
-- src/whz_config.cpp: the keys of the parameters.
use mathlib.Core.HLevel.{Σ_prop_path}
use work_horz.Base.{
  Bool, true, false, not, ◌&&◌, List, [], ◌∷◌, ◌≡◌, ◌≢◌, refl, sym, ap, ◌∙◌, ◌==◌, ==_iff, Bytes,
  bytes_eq, bytes_eq_iff, Bool-cases, inl, inr, if◌then◌else◌, arith,
}
use work_horz.Config.Parameter.{
  ConfigParameter, unknown, to_index, keys, first_match, parameter_of_key,
}

-- The key in the table for a parameter; no key stands for none.
unfoldable pub key_in : List (Bytes × ConfigParameter) → ConfigParameter → Bytes
key_in [] p = []
key_in ((name, q) ∷ rest) p = if to_index q == to_index p then name else key_in rest p

unfoldable absent : ConfigParameter → List (Bytes × ConfigParameter) → Bool
absent p [] = true
absent p ((name, q) ∷ rest) = not (to_index q == to_index p) && absent p rest

unfoldable distinct : List (Bytes × ConfigParameter) → Bool
distinct [] = true
distinct ((name, q) ∷ rest) = absent q rest && distinct rest

distinct-keys : distinct keys ≡ true
unfolding distinct absent to_index
distinct-keys = refl

parameter_of_key-key_in : (p : ConfigParameter) → p ≢ unknown → parameter_of_key (key_in keys p) ≡ p
unfolding parameter_of_key first_match key_in to_index bytes_eq
parameter_of_key-key_in unknown ne = absurd (ne refl)
parameter_of_key-key_in _ ne = refl

distinct-absent :
    (name : Bytes) (q : ConfigParameter) (rest : List (Bytes × ConfigParameter))
    → distinct ((name, q) ∷ rest) ≡ true
    → absent q rest ≡ true
unfolding distinct
distinct-absent name q rest d = ground (arith, d)

distinct-rest :
    (name : Bytes) (q : ConfigParameter) (rest : List (Bytes × ConfigParameter))
    → distinct ((name, q) ∷ rest) ≡ true
    → distinct rest ≡ true
unfolding distinct
distinct-rest name q rest d = ground (arith, d)

-- What the first entry of the table, and what the other ones, make of a key.
first_match-first :
    (name key : Bytes) (q p : ConfigParameter) (rest : List (Bytes × ConfigParameter))
    → bytes_eq key name ≡ true
    → first_match ((name, q) ∷ rest) key ≡ p
    → (q ≡ p) × (name ≡ key)
unfolding first_match
first_match-first name key q p rest e h = (rw e at h, sym ((bytes_eq_iff key name).0 e))

first_match-rest :
    (name key : Bytes) (q p : ConfigParameter) (rest : List (Bytes × ConfigParameter))
    → bytes_eq key name ≡ false
    → first_match ((name, q) ∷ rest) key ≡ p
    → first_match rest key ≡ p
unfolding first_match
first_match-rest name key q p rest e h = rw e at h

absent-index :
    (name : Bytes) (q p : ConfigParameter) (rest : List (Bytes × ConfigParameter))
    → absent q ((name, p) ∷ rest) ≡ true
    → (to_index p == to_index q) ≡ false
unfolding absent
absent-index name q p rest a = ground (arith, a)

-- A parameter that is not in the table is found for no key.
absent-first_match :
    (table : List (Bytes × ConfigParameter)) (q p : ConfigParameter) (key : Bytes)
    → absent q table ≡ true
    → first_match table key ≡ p
    → p ≢ unknown
    → (to_index q == to_index p) ≡ false
absent-first_match [] q p key a h ne = absurd (ne (sym (unfold first_match in h)))
absent-first_match ((name, r) ∷ rest) q p key a h ne = elim (Bool-cases (bytes_eq key name)) [
  | inl e ↦
      let (same, _) = first_match-first name key r p rest e h in
      let apart = absent-index name q r rest a in
      let turned : (to_index q == to_index r) ≡ false =
        ground (arith, ==_iff (to_index q) (to_index r), ==_iff (to_index r) (to_index q), apart) in
      rw same at turned
  | inr e ↦
      absent-first_match rest q p key (unfold absent in ground (arith, a))
        (first_match-rest name key r p rest e h) ne
]

key_in_here :
    (name : Bytes) (q p : ConfigParameter) (rest : List (Bytes × ConfigParameter))
    → (to_index q == to_index p) ≡ true
    → key_in ((name, q) ∷ rest) p ≡ name
unfolding key_in
key_in_here name q p rest e = rw e refl

key_in_behind :
    (name : Bytes) (q p : ConfigParameter) (rest : List (Bytes × ConfigParameter))
    → (to_index q == to_index p) ≡ false
    → key_in ((name, q) ∷ rest) p ≡ key_in rest p
unfolding key_in
key_in_behind name q p rest e = rw e refl

key_in-first_match :
    (table : List (Bytes × ConfigParameter)) (p : ConfigParameter) (key : Bytes)
    → distinct table ≡ true
    → first_match table key ≡ p
    → p ≢ unknown
    → key_in table p ≡ key
key_in-first_match [] p key d h ne = absurd (ne (sym (unfold first_match in h)))
key_in-first_match ((name, q) ∷ rest) p key d h ne = elim (Bool-cases (bytes_eq key name)) [
  | inl e ↦
      let (same, named) = first_match-first name key q p rest e h in
      let one = (==_iff (to_index q) (to_index p)).1 (ap to_index same) in
      key_in_here name q p rest one ∙ named
  | inr e ↦
      let further = first_match-rest name key q p rest e h in
      let other = absent-first_match rest q p key (distinct-absent name q rest d) further ne in
      key_in_behind name q p rest other
      ∙ key_in-first_match rest p key (distinct-rest name q rest d) further ne
]

ConfigParameter-set : IsSet ConfigParameter
ConfigParameter-set = hlevel

-- The keys that lead to a parameter.
abbrev pub KeyOf : ConfigParameter → Type 0
KeyOf p = (key : Bytes) × (parameter_of_key key ≡ p)

-- For every parameter other than `UNKNOWN` the type of the keys that lead to it is contractible: there is one
-- key, and any other one is equal to it.
pub parameter_of_key_unique :
    (p : ConfigParameter) → p ≢ unknown → (one : KeyOf p) × ((other : KeyOf p) → other ≡ one)
parameter_of_key_unique p ne = (
  (key_in keys p, parameter_of_key-key_in p ne),
  λ other.
      Σ_prop_path (λ (key : Bytes). ConfigParameter-set (parameter_of_key key) p)
        (sym (
          key_in-first_match keys p other.0 distinct-keys (unfold parameter_of_key in other.1) ne)),
)
