-- ===== src/Http/Parser/Invariant.antt =====
-- What holds of the parser in every state that it reaches, whatever bytes it is fed.
use work_horz.Base.{
  ℕ, ◌<◌, false, List, [], ◌∷◌, ◌++◌, Option, none, some, Option-cases, inl, inr, Bytes, ◌≡◌, ◌≢◌,
  refl, Bytes, All, All-append, arith,
}
use work_horz.Http.Chars.{is_ctl, not_token}
use work_horz.Http.Message.{Header, Request}
use work_horz.Http.Parser.{
  State, header_lws, header_name, space_before_header_value, header_value, method_start, method,
  uri, header_line_start, Outcome, on_back, push_name, push_value, new_header, consume,
  continue_with, Parsed, parse, ResultType, good, bad, indeterminate,
}

abbrev pub IsToken : Bytes → Type 0
IsToken = All (λ c. not_token c ≡ false)

-- No control character: so no CR, no LF and no NUL.
abbrev pub IsText : Bytes → Type 0
IsText = All (λ c. is_ctl c ≡ false)

pub record IsCleanHeader (h : Header) : Type 0 where
  pub name_token : IsToken h.name
  pub name_ne_nil : h.name ≢ []
  pub value_text : IsText h.value

-- The parts of a request that the parser has read hold only the bytes that they may.
pub record IsClean (r : Request) : Type 0 where
  pub method_token : IsToken r.method
  pub uri_text : IsText r.uri
  pub headers_clean : All IsCleanHeader r.headers
  pub major_byte : r.http_version_major < 256
  pub minor_byte : r.http_version_minor < 256

-- What each state knows: past the first byte the method is there, and the header that is being
-- read is there.
abbrev Knows : State → Request → Type 0
Knows method_start r = Unit
Knows header_lws r = (r.method ≢ []) × (r.headers ≢ [])
Knows header_name r = (r.method ≢ []) × (r.headers ≢ [])
Knows space_before_header_value r = (r.method ≢ []) × (r.headers ≢ [])
Knows header_value r = (r.method ≢ []) × (r.headers ≢ [])
Knows _ r = r.method ≢ []

concat-ne_nil {ℓ} : {A : Type ℓ} (xs : List A) (x : A) → xs ++ x ∷ [] ≢ []
concat-ne_nil [] x e = cc
concat-ne_nil (y ∷ xs) x e = cc

on_back-clean :
    (f : Header → Header) (hs : List Header)
    → hs ≢ []
    → ((h : Header) → IsCleanHeader h → IsCleanHeader (f h))
    → All IsCleanHeader hs
    → (ks : List Header) × (on_back f hs ≡ some ks) × (ks ≢ []) × All IsCleanHeader ks
unfolding on_back
on_back-clean f [] p keep h = absurd (p refl)
on_back-clean f (x ∷ []) p keep h = (f x ∷ [], refl, λ e. cc, (keep x h.0, tt))
on_back-clean f (x ∷ y ∷ hs) p keep h =
    let (ks, e, q, k) = on_back-clean f (y ∷ hs) (λ e. cc) keep h.1 in
    (x ∷ ks, rw e, λ e. cc, (h.0, k))

push_name-clean :
    (c : ℕ) (h : Header) → not_token c ≡ false → IsCleanHeader h → IsCleanHeader (push_name c h)
push_name-clean c h t k = record {
  name_token = All-append _ h.name (c ∷ []) k.name_token (t, tt);
  name_ne_nil = concat-ne_nil h.name c;
  value_text = k.value_text;
}

push_value-clean :
    (c : ℕ) (h : Header) → is_ctl c ≡ false → IsCleanHeader h → IsCleanHeader (push_value c h)
push_value-clean c h t k = record {
  name_token = k.name_token;
  name_ne_nil = k.name_ne_nil;
  value_text = All-append _ h.value (c ∷ []) k.value_text (t, tt);
}

new_header-clean : (c : ℕ) → not_token c ≡ false → IsCleanHeader (new_header c)
new_header-clean c t = record { name_token = (t, tt); name_ne_nil = λ e. cc; value_text = tt }

abbrev pub IsSound : State → Request → Type 0
IsSound s r = IsClean r × Knows s r

abbrev Keeps : Option Outcome → Type 0
Keeps none = ⊥
Keeps (some o) = IsSound o.state o.req

consume-Keeps : (s : State) (r : Request) (c : ℕ) → IsSound s r → Keeps (consume s r c)
unfolding consume
consume-Keeps method_start r c (v, k) =
    ground (arith, All-append _ r.method (c ∷ []) v.method_token, concat-ne_nil r.method c)
consume-Keeps method r c (v, k) =
    ground (arith, All-append _ r.method (c ∷ []) v.method_token, concat-ne_nil r.method c)
consume-Keeps uri r c (v, k) = ground (arith, All-append _ r.uri (c ∷ []) v.uri_text)
consume-Keeps header_line_start r c (v, k) = ground (
  arith,
  All-append _ r.headers (new_header c ∷ []) v.headers_clean,
  new_header-clean c,
  concat-ne_nil r.headers (new_header c),
)
consume-Keeps header_lws r c (v, k) = ground (
  arith,
  λ (t : is_ctl c ≡ false).
      on_back-clean (push_value c) r.headers k.1 (λ h. push_value-clean c h t) v.headers_clean,
)
consume-Keeps header_value r c (v, k) = ground (
  arith,
  λ (t : is_ctl c ≡ false).
      on_back-clean (push_value c) r.headers k.1 (λ h. push_value-clean c h t) v.headers_clean,
)
consume-Keeps header_name r c (v, k) = ground (
  arith,
  λ (t : not_token c ≡ false).
      on_back-clean (push_name c) r.headers k.1 (λ h. push_name-clean c h t) v.headers_clean,
)
consume-Keeps _ r c (v, k) = ground arith

-- From a sound state, whatever the input, `parse` comes to a result, so that it never takes
-- `back()` of an empty vector, and it leaves a sound state: the method and the header names that
-- were read are tokens, the uri and the header values have no control character, and the version
-- numbers are bytes.
pub parse-IsSound :
    (s : State) (r : Request) (input : Bytes)
    → IsSound s r
    → (p : Parsed) × (parse s r input ≡ some p) × IsSound p.state p.req
unfolding parse
parse-IsSound s r [] v = (_, refl, v)
parse-IsSound s r (c ∷ cs) v = elim (Option-cases (consume s r c)) [
  | inl stuck ↦ absurd (rw stuck at (consume-Keeps s r c v))
  | inr (o, e) ↦
      rw (e, parse)
        (step_of o o.result refl (rw e at (consume-Keeps s r c v))
          (parse-IsSound o.state o.req cs (rw e at (consume-Keeps s r c v))))
]
  where
    step_of :
        (o : Outcome) (t : ResultType)
        → o.result ≡ t
        → IsSound o.state o.req
        → (p : Parsed) × (parse o.state o.req cs ≡ some p) × IsSound p.state p.req
        → (p : Parsed) × (continue_with o cs (parse o.state o.req cs) ≡ some p)
          × IsSound p.state p.req
    step_of o good e k next =
        (record { result = good; rest = cs; state = o.state; req = o.req }, rw e, k)
    step_of o bad e k next =
        (record { result = bad; rest = cs; state = o.state; req = o.req }, rw e, k)
    step_of o indeterminate e k (p, q, z) = (p, rw e q, z)
