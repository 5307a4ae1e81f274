-- ===== src/Encryption/Files.antt =====
-- src/whz_encryption.cpp: the encrypted files and the key files.
use work_horz.Base.{
  suc, ◌≤◌, Bool, true, [], ◌∷◌, ◌++◌, none, some, if◌then◌else◌, Bytes, length, codes, bytes_eq,
  bytes_eq_refl, bytes_eq_iff, ◌≡◌, ◌≢◌, refl, ap, ◌∙◌, Bool-cases, inl, inr, append-nil, ltb,
  false, List, Option, Option-cases, take-length-append, sym, arith,
}
use work_horz.Encryption.{
  find_last_of, stem, decrypt_file, Sodium, World, error, write, draw_pair, generate_key_pair,
  read_plaintext, encrypt_file,
}

-- What is sealed for the public key is opened by the two keys, and is at least `seal_bytes` long.
abbrev pub AreKeys : Sodium → Bytes → Bytes → Type 0
AreKeys sodium public_key secret_key =
    (message : Bytes)
    → (ciphertext : Bytes) × (sodium.seal message public_key ≡ (true, ciphertext))
      × (sodium.seal_bytes ≤ length ciphertext)
      × (sodium.seal_open ciphertext public_key secret_key ≡ (true, message))

find_last_of-enc : (path : Bytes) → find_last_of b'.' (path ++ codes ".enc") ≡ some (length path)
unfolding find_last_of
find_last_of-enc [] = refl
find_last_of-enc (x ∷ path) = rw (find_last_of-enc path) refl

-- The name of an encrypted file leads back to the name of the file.
stem-enc : (path : Bytes) → stem (path ++ codes ".enc") ≡ path
unfolding stem
stem-enc path = rw (find_last_of-enc path, stem) (take-length-append path (codes ".enc"))

write_lem :
    (can_open : Bytes → Bool) (path content : Bytes) (w : World)
    → can_open path ≡ true
    → ((write can_open path content w).files path ≡ some content)
      × ((p : Bytes) → p ≢ path → (write can_open path content w).files p ≡ w.files p)
      × ((write can_open path content w).errors ≡ w.errors)
unfolding write
write_lem can_open path content w h = (rw (h, bytes_eq_refl path) refl, other, rw h refl)
  where
    other : (p : Bytes) → p ≢ path → (write can_open path content w).files p ≡ w.files p
    other p apart = elim (Bool-cases (bytes_eq p path)) [
      | inl same ↦ absurd (apart ((bytes_eq_iff p path).0 same))
      | inr differs ↦ rw (h, differs) refl
    ]

module _ (sodium : Sodium) (can_open : Bytes → Bool) (public_key secret_key : Bytes) where
  -- What encryption leaves in the file with the suffix.
  encrypt_file_lem :
      (path content : Bytes) (w : World)
      → AreKeys sodium public_key secret_key
      → can_open (path ++ codes ".enc") ≡ true
      → (read_plaintext path w).0 ≡ content
      → (ciphertext : Bytes) × ((encrypt_file sodium can_open path public_key w).files
            (path ++ codes ".enc")
          ≡ some ciphertext)
        × ((encrypt_file sodium can_open path public_key w).errors
            ≡ (read_plaintext path w).1.errors)
        × (sodium.seal_bytes ≤ length ciphertext)
        × (sodium.seal_open ciphertext public_key secret_key ≡ (true, content))
  unfolding encrypt_file
  encrypt_file_lem path content w keys h e =
      let read : World = (read_plaintext path w).1 in
      let (ciphertext, sealed, long, opened) = keys content in
      let same : encrypt_file sodium can_open path public_key w
          ≡ write can_open (path ++ codes ".enc") ciphertext read =
        rw (e, sealed, encrypt_file) refl in
      let (there, _, errors) = write_lem can_open (path ++ codes ".enc") ciphertext read h in
      (
        ciphertext,
        ap (λ u. u.files (path ++ codes ".enc")) same ∙ there,
        ap (λ u. u.errors) same ∙ errors,
        long,
        opened,
      )

-- The content of a file, and nothing of one that cannot be read.
abbrev pub content_of : Option Bytes → Bytes
content_of none = []
content_of (some content) = content

abbrev pub read_errors : Option Bytes → List Bytes
read_errors none = codes "Error: Failed to open file." ∷ []
read_errors (some content) = []

read_plaintext_lem :
    (path : Bytes) (w : World)
    → ((read_plaintext path w).0 ≡ content_of (w.files path))
      × ((read_plaintext path w).1.errors ≡ w.errors ++ read_errors (w.files path))
unfolding read_plaintext error
read_plaintext_lem path w = elim (Option-cases (w.files path)) [
  | inl missing ↦ rw (missing, read_plaintext) (refl, refl)
  | inr (content, there) ↦ rw (there, read_plaintext) (refl, sym (append-nil w.errors))
]

-- What `encryptFile` leaves, whether it could read the file or not, the two keys of the pair open to the
-- content of the file, or to the empty text; that it could not is logged. `decryptFile`, whatever else
-- has changed since, does not use the public key: whatever the array on its stack holds, it
-- writes to the path of the file what the library opens with that, and where the library opens
-- nothing it logs that and changes nothing else.
pub decrypt_file-stack :
    (sodium : Sodium) (can_open : Bytes → Bool) (public_key secret_key stack path : Bytes)
    (w later : World)
    → AreKeys sodium public_key secret_key
    → can_open (path ++ codes ".enc") ≡ true
    → later.files (path ++ codes ".enc")
      ≡ (encrypt_file sodium can_open path public_key w).files (path ++ codes ".enc")
    → ((encrypt_file sodium can_open path public_key w).errors
        ≡ w.errors ++ read_errors (w.files path))
      × (ciphertext : Bytes) × (sodium.seal_open ciphertext public_key secret_key
          ≡ (true, content_of (w.files path)))
      × ((text : Bytes)
          → sodium.seal_open ciphertext stack secret_key ≡ (true, text)
          → decrypt_file sodium can_open stack (path ++ codes ".enc") secret_key later
            ≡ write can_open path text later)
      × ((text : Bytes)
          → sodium.seal_open ciphertext stack secret_key ≡ (false, text)
          → decrypt_file sodium can_open stack (path ++ codes ".enc") secret_key later
            ≡ error (codes "Error: Failed to decrypt file.") later)
unfolding decrypt_file
decrypt_file-stack sodium can_open public_key secret_key stack path w later keys h kept =
    let (plain, logged) = read_plaintext_lem path w in
    let (ciphertext, there, errors, long, opened) =
      encrypt_file_lem sodium can_open public_key secret_key path (content_of (w.files path)) w keys
        h plain in
    let found : later.files (path ++ codes ".enc") ≡ some ciphertext = kept ∙ there in
    let long_enough : ltb (length ciphertext) sodium.seal_bytes ≡ false = ground (arith, long) in
    (
      errors ∙ logged,
      ciphertext,
      opened,
      λ text e. rw (found, decrypt_file) (rw (e, long_enough, stem-enc path) refl),
      λ text e. rw (found, decrypt_file) (rw (e, long_enough) refl),
    )

-- If both calls of `crypto_box_keypair` succeed and both files can be opened, the keys that
-- `generateKeyPair` returns are the second pair, and those that it saves are the first one.
generate_key_pair_saved :
    (sodium : Sodium) (can_open : Bytes → Bool) (pk sk pk' sk' : Bytes) (w : World)
    → sodium.keypair w.pairs ≡ (true, pk, sk)
    → sodium.keypair (suc w.pairs) ≡ (true, pk', sk')
    → can_open (codes "public.key") ≡ true
    → can_open (codes "secret.key") ≡ true
    → ((generate_key_pair sodium can_open w).files (codes "public.key") ≡ some pk)
      × ((generate_key_pair sodium can_open w).files (codes "secret.key") ≡ some sk)
      × ((generate_key_pair sodium can_open w).public_key ≡ pk')
      × ((generate_key_pair sodium can_open w).secret_key ≡ sk')
unfolding generate_key_pair draw_pair write bytes_eq
generate_key_pair_saved sodium can_open pk sk pk' sk' w e f h k =
    let saved : World = record w {
      files = λ p.
          if bytes_eq p (codes "secret.key")
          then some sk
          else (if bytes_eq p (codes "public.key") then some pk else w.files p);
      pairs = suc (suc w.pairs);
      public_key = pk';
      secret_key = sk';
    } in
    let same : generate_key_pair sodium can_open w ≡ saved =
      rw (e, generate_key_pair) (rw (h, k, f) refl) in
    rw same (refl, refl, refl, refl)
