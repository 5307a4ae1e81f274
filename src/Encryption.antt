-- ===== src/Encryption.antt =====
-- src/whz_encryption.cpp: `whz_encryption`. The functions of libsodium and the random generator are
-- parameters, and so is what an uninitialised array holds.
pub mod Token
pub mod Files
mod Tests
use work_horz.Base.{
  ℕ, zero, suc, ◌+◌, ◌-◌, ◌*◌, ◌/◌, ◌%◌, ◌==◌, ◌≤◌, ◌<◌, Bool, true, false, not, ◌&&◌, ◌||◌, List,
  [], ◌∷◌, ◌++◌, Option, none, some, leb, ltb, if◌then◌else◌, Bytes, length, take, codes, bytes_eq,
}
use work_horz.Http.Handler.{c_str}

-- libsodium, as far as the class uses it. A function that can fail returns whether it succeeded, together
-- with what its output buffer holds then.
pub record Sodium : Type 0 where
  -- `crypto_box_SEALBYTES`
  pub seal_bytes : ℕ
  -- the pair of the call of this number
  pub keypair : ℕ → Bool × Bytes × Bytes
  -- the message and the public key
  pub seal : Bytes → Bytes → Bool × Bytes
  -- the ciphertext and the two keys
  pub seal_open : Bytes → Bytes → Bytes → Bool × Bytes
  -- the message and the secret key
  pub sign : Bytes → Bytes → Bytes
  -- the signed message and the public key; with the value of `message_len`
  pub sign_open : Bytes → Bytes → Bool × Bytes × ℕ
  pub pwhash_str : Bytes → Bool × Bytes
  pub pwhash_str_verify : Bytes → Bytes → Bool

-- What the class changes: the files, the messages given to the logger, the key pairs drawn so far and the
-- vectors that its caller passed for the keys.
pub record World : Type 0 where
  pub files : Bytes → Option Bytes
  pub errors : List Bytes
  pub pairs : ℕ
  pub public_key : Bytes
  pub secret_key : Bytes

unfoldable pub error : Bytes → World → World
error text w = record w { errors = w.errors ++ text ∷ [] }

-- A `std::ofstream` to which a text is written; without effect where it cannot be opened.
unfoldable pub write : (Bytes → Bool) → Bytes → Bytes → World → World
write can_open path content w =
    if can_open path
    then record w { files = λ p. if bytes_eq p path then some content else w.files p }
    else w

unfoldable pub draw_pair : Sodium → World → Bool × World
draw_pair sodium w =
    let (ok, public_key, secret_key) = sodium.keypair w.pairs in
    (ok, record w { pairs = suc w.pairs; public_key = public_key; secret_key = secret_key })

unfoldable pub generate_key_pair : Sodium → (Bytes → Bool) → World → World
unfolding draw_pair
generate_key_pair sodium can_open w =
    let (ok, drawn) = draw_pair sodium w in
    if not ok
    then error (codes "Error: Failed to generate key pair.") drawn
    else if not (can_open (codes "public.key"))
    then error (codes "Error: Failed to open public key file for writing.") drawn
    else (let kept : World = write can_open (codes "public.key") drawn.public_key drawn in
        if not (can_open (codes "secret.key"))
        then error (codes "Error: Failed to open secret key file for writing.") kept
        else (let saved : World = write can_open (codes "secret.key") kept.secret_key kept in
            let (ok_again, again) = draw_pair sodium saved in
            if ok_again then again else error (codes "Error: Failed to generate key pair.") again))

-- `validateKeyPair`, for the random test message that it draws.
unfoldable pub validate_key_pair : Sodium → Bytes → Bytes → Bytes → World → Bool × World
validate_key_pair sodium test_message public_key secret_key w =
    let (sealed, ciphertext) = sodium.seal test_message public_key in
    let (opened, _) = sodium.seal_open ciphertext public_key secret_key in
    if not sealed
    then (false, error (codes "Error: Failed during key validation encryption.") w)
    else if not opened
    then (false, error (codes "Error: Failed during key validation decryption.") w)
    else (true, w)

-- A `std::ifstream` from which all is read; nothing where it cannot be opened.
unfoldable pub read_plaintext : Bytes → World → Bytes × World
read_plaintext path w = elim (w.files path) [
  | none ↦ ([], error (codes "Error: Failed to open file.") w)
  | some content ↦ (content, w)
]

unfoldable pub encrypt_file : Sodium → (Bytes → Bool) → Bytes → Bytes → World → World
unfolding read_plaintext
encrypt_file sodium can_open path public_key w =
    let (plaintext, read) = read_plaintext path w in
    let (ok, ciphertext) = sodium.seal plaintext public_key in
    let sealed : World = if ok then read else error (codes "Error: Failed to encrypt file.") read in
    write can_open (path ++ codes ".enc") ciphertext sealed

unfoldable pub find_last_of : ℕ → Bytes → Option ℕ
find_last_of c [] = none
find_last_of c (x ∷ s) = elim (find_last_of c s) [
  | some i ↦ some (suc i)
  | none ↦ if x == c then some 0 else none
]

-- `path.substr(0, path.find_last_of('.'))`; the whole path if there is no dot.
unfoldable pub stem : Bytes → Bytes
stem path = elim (find_last_of b'.' path) [ none ↦ path | some n ↦ take n path ]

-- `decryptFile`; `stack` is what the array `publicKey`, which is never set, holds.
unfoldable pub decrypt_file : Sodium → (Bytes → Bool) → Bytes → Bytes → Bytes → World → World
decrypt_file sodium can_open stack path secret_key w = elim (w.files path) [
  | none ↦ error (codes "Error: Failed to open encrypted file.") w
  | some ciphertext ↦
      let (ok, plaintext) = sodium.seal_open ciphertext stack secret_key in
      if ltb (length ciphertext) sodium.seal_bytes
      then error (codes "Error: Ciphertext is too short.") w
      else if not ok
      then error (codes "Error: Failed to decrypt file.") w
      else write can_open (stem path) plaintext w
]

unfoldable pub hash_password : Sodium → Bytes → World → Bytes × World
hash_password sodium password w =
    let (ok, hashed) = sodium.pwhash_str password in
    (hashed, if ok then w else error (codes "Error: Failed to hash password.") w)

unfoldable pub verify_password : Sodium → Bytes → Bytes → Bool
unfolding c_str
verify_password sodium hashed_password password =
    sodium.pwhash_str_verify (c_str hashed_password) password

unfoldable pub create_signed_message : Sodium → Bytes → Bytes → Bytes
create_signed_message sodium message secret_key = sodium.sign message secret_key

-- `verifySignedMessage`; `none` is undefined behaviour, where `message_len` is behind the buffer.
unfoldable pub verify_signed_message : Sodium → Bytes → Bytes → World → Option (Bytes × World)
verify_signed_message sodium signed_message public_key w =
    let (ok, message, message_len) = sodium.sign_open signed_message public_key in
    let checked : World =
      if ok then w else error (codes "Error: Failed to verify signed message.") w in
    if leb message_len (length message) then some (take message_len message, checked) else none

-- `fmt::format("{:02x}", byte)`: two lower case digits for a byte.
unfoldable pub hex_char : ℕ → ℕ
hex_char d = if ltb d 10 then b'0' + d else b'a' + (d - 10)

unfoldable pub format_hex : ℕ → Bytes
format_hex byte = hex_char (byte / 16) ∷ hex_char (byte % 16) ∷ []

-- `for (auto& byte : random_bytes) byte = dist(gen)`: the next `n` numbers, from number `i` on.
unfoldable pub random_loop : (ℕ → ℕ) → ℕ → ℕ → Bytes
random_loop generator zero i = []
random_loop generator (suc n) i = generator i ∷ random_loop generator n (suc i)

unfoldable pub format_loop : Bytes → Bytes → Bytes
format_loop token [] = token
format_loop token (byte ∷ bytes) = format_loop (token ++ format_hex byte) bytes

abbrev pub token_size : ℕ
token_size = 32

-- `createCSRFToken`; `generator seed` is the sequence of bytes that the generator draws from a seed.
unfoldable pub create_csrf_token : (ℕ → ℕ → ℕ) → ℕ → Bytes
unfolding random_loop format_loop
create_csrf_token generator seed = format_loop [] (random_loop (generator seed) token_size 0)
