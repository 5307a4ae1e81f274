-- ===== src/Encryption/Tests.antt =====
-- A toy in place of libsodium: the keys of a pair are equal, and a sealed text begins with its key.
use work_horz.Base.{
  ℕ, ◌%◌, ◌+◌, ◌<◌, Bool, true, false, [], ◌∷◌, ◌++◌, none, some, ◌≡◌, refl, Bytes, codes, bytes_eq,
  length, arith, if◌then◌else◌,
}
use work_horz.Encryption.{
  decrypt_file, write, error, Sodium, World, encrypt_file, create_csrf_token, format_hex, hex_char,
}
use work_horz.Encryption.Files.{AreKeys, content_of, read_errors, decrypt_file-stack}
use work_horz.Encryption.Token.{read_hex, create_csrf_token-read_hex}
use work_horz.Base.Loop.{tabulate}

abbrev toy : Sodium
toy = record {
  seal_bytes = 1;
  keypair = λ n. (true, n ∷ [], n ∷ []);
  seal = λ message public_key. (true, 7 ∷ message);
  seal_open = λ ciphertext public_key secret_key. elim ciphertext [
    | [] ↦ (false, [])
    | c ∷ message ↦ (bytes_eq public_key secret_key, message)
  ];
  sign = λ message secret_key. message;
  sign_open = λ signed public_key. (true, signed, length signed);
  pwhash_str = λ password. (true, password);
  pwhash_str_verify = λ hashed password. bytes_eq hashed password;
}

abbrev everywhere : Bytes → Bool
everywhere path = true

abbrev world : World
world = record {
  files = λ p. if bytes_eq p (codes "a.txt") then some (codes "hello") else none;
  errors = [];
  pairs = 0;
  public_key = [];
  secret_key = [];
}

key-AreKeys : AreKeys toy (5 ∷ []) (5 ∷ [])
unfolding bytes_eq
key-AreKeys message = (7 ∷ message, refl, omega arith, refl)

abbrev generator : ℕ → ℕ → ℕ
generator seed i = (seed + i) % 256

generator_lt : (k : ℕ) → generator 300 k < 256
generator_lt k = omega arith

token_300 :
    create_csrf_token generator 300
    ≡ codes "2c2d2e2f303132333435363738393a3b3c3d3e3f404142434445464748494a4b"
unfolding create_csrf_token format_hex hex_char
token_300 = refl

create_csrf_token-read_hex_example :
    (length (create_csrf_token generator 300) ≡ 64)
    × (read_hex (create_csrf_token generator 300) ≡ some (tabulate 32 0 (generator 300)))
create_csrf_token-read_hex_example = create_csrf_token-read_hex generator 300 generator_lt

-- A pair whose public key is not what the array holds.
decrypt_file-stack_example :
    ((encrypt_file toy everywhere (codes "a.txt") (5 ∷ []) world).errors
      ≡ read_errors (world.files (codes "a.txt")))
    × (ciphertext : Bytes) × (toy.seal_open ciphertext (5 ∷ []) (5 ∷ [])
        ≡ (true, content_of (world.files (codes "a.txt"))))
    × ((text : Bytes)
        → toy.seal_open ciphertext (9 ∷ []) (5 ∷ []) ≡ (true, text)
        → decrypt_file toy everywhere
            (9 ∷ [])
            (codes "a.txt" ++ codes ".enc")
            (5 ∷ [])
            (encrypt_file toy everywhere (codes "a.txt") (5 ∷ []) world)
          ≡ write everywhere
              (codes "a.txt")
              text
              (encrypt_file toy everywhere (codes "a.txt") (5 ∷ []) world))
    × ((text : Bytes)
        → toy.seal_open ciphertext (9 ∷ []) (5 ∷ []) ≡ (false, text)
        → decrypt_file toy everywhere
            (9 ∷ [])
            (codes "a.txt" ++ codes ".enc")
            (5 ∷ [])
            (encrypt_file toy everywhere (codes "a.txt") (5 ∷ []) world)
          ≡ error
              (codes "Error: Failed to decrypt file.")
              (encrypt_file toy everywhere (codes "a.txt") (5 ∷ []) world))
decrypt_file-stack_example =
    decrypt_file-stack toy everywhere (5 ∷ []) (5 ∷ []) (9 ∷ []) (codes "a.txt") world
      (encrypt_file toy everywhere (codes "a.txt") (5 ∷ []) world) key-AreKeys refl refl
