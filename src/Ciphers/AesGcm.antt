-- ===== src/Ciphers/AesGcm.antt =====
-- gen_aes_gcm_vectors.rs: the vectors that `main` makes, with the ciphers for keys of 32 and of 16
-- bytes.
pub mod Decrypts
pub mod File
use tos_spec.Base.{ℕ, List, [], ◌∷◌, ◌++◌, String, Option, none, some, length, replicate}
use tos_spec.Base.Options.{◌>>=◌}
use tos_spec.Base.Bytes.{codes, sequence}
use tos_spec.Crypto.{Hex}
use tos_spec.Ciphers.{Aead, split_tag, decode_array}

pub record TestVector : Type 0 where
  pub name : String
  pub description : Option String
  pub key_hex : List ℕ
  pub key_size : ℕ
  pub nonce_hex : List ℕ
  pub aad_hex : Option (List ℕ)
  pub plaintext_hex : List ℕ
  pub plaintext_length : ℕ
  pub ciphertext_hex : List ℕ
  pub tag_hex : List ℕ

pub record AesGcmTestFile : Type 0 where
  pub algorithm : String
  pub nonce_size : ℕ
  pub tag_size : ℕ
  pub test_vectors : List TestVector

abbrev pub hello : List ℕ
hello = codes "Hello, world!"

abbrev pub extra : List ℕ
extra = codes "additional authenticated data"

-- What `encrypt` takes as additional data: that of the payload, or none.
abbrev pub payload_aad : Option (List ℕ) → List ℕ
payload_aad none = []
payload_aad (some aad) = aad

abbrev pub map_hex : Hex → Option (List ℕ) → Option (List ℕ)
map_hex hex none = none
map_hex hex (some aad) = some (hex.encode aad)

-- One block of `main`, with the size of the key and the text in hexadecimal that it writes down.
unfoldable pub gcm_vector :
    (a : Aead)
    → Hex
    → a.Cipher
    → String
    → String
    → List ℕ
    → ℕ
    → List ℕ
    → Option (List ℕ)
    → List ℕ
    → List ℕ
    → ℕ
    → Option TestVector
gcm_vector a hex cipher name description key key_size nonce aad plaintext plaintext_hex
      plaintext_length =
    do
      ciphertext ← a.encrypt cipher nonce (payload_aad aad) plaintext
      (front, tag) ← split_tag ciphertext
      some record {
        name = name;
        description = some description;
        key_hex = hex.encode key;
        key_size = key_size;
        nonce_hex = hex.encode nonce;
        aad_hex = map_hex hex aad;
        plaintext_hex = plaintext_hex;
        plaintext_length = plaintext_length;
        ciphertext_hex = hex.encode front;
        tag_hex = hex.encode tag;
      }

-- Tests 1 to 4.
unfoldable pub aes256_vectors : Aead → Hex → Option (List TestVector)
aes256_vectors a hex = do
  let key = replicate 32 0x42
  let nonce = replicate 12 0x00
  cipher ← a.new_from_slice key
  v1 ←
      gcm_vector a hex cipher "aes256_empty" "AES-256-GCM empty plaintext" key 32 nonce none [] [] 0
  v2 ←
      gcm_vector a hex cipher "aes256_hello" "AES-256-GCM simple message" key 32 nonce none hello
        (hex.encode hello) (length hello)
  let key = replicate 32 0x01
  let plaintext = codes "secret message"
  cipher ← a.new_from_slice key
  v3 ←
      gcm_vector a hex cipher "aes256_with_aad" "AES-256-GCM with AAD" key 32 (sequence 12 0)
        (some extra) plaintext (hex.encode plaintext) (length plaintext)
  let key = replicate 32 0xab
  let plaintext = replicate 64 0x00
  cipher ← a.new_from_slice key
  v4 ←
      gcm_vector a hex cipher "aes256_64bytes" "AES-256-GCM 64-byte plaintext" key 32
        (replicate 12 0xcd) none plaintext (hex.encode plaintext) 64
  some (v1 ∷ v2 ∷ v3 ∷ v4 ∷ [])

-- Tests 5 to 7.
unfoldable pub aes128_vectors : Aead → Hex → Option (List TestVector)
aes128_vectors a hex = do
  let key = replicate 16 0x42
  let nonce = replicate 12 0x00
  cipher ← a.new_from_slice key
  v5 ←
      gcm_vector a hex cipher "aes128_empty" "AES-128-GCM empty plaintext" key 16 nonce none [] [] 0
  v6 ←
      gcm_vector a hex cipher "aes128_hello" "AES-128-GCM simple message" key 16 nonce none hello
        (hex.encode hello) (length hello)
  let key = replicate 16 0x01
  let plaintext = codes "secret message"
  cipher ← a.new_from_slice key
  v7 ←
      gcm_vector a hex cipher "aes128_with_aad" "AES-128-GCM with AAD" key 16 (sequence 12 0)
        (some extra) plaintext (hex.encode plaintext) (length plaintext)
  some (v5 ∷ v6 ∷ v7 ∷ [])

-- The last block.
unfoldable pub nist_vector : Aead → Hex → Option TestVector
nist_vector a hex = do
  key ←
      decode_array hex (codes "0000000000000000000000000000000000000000000000000000000000000000") 32
  nonce ← decode_array hex (codes "000000000000000000000000") 12
  cipher ← a.new_from_slice key
  gcm_vector a hex cipher "nist_aes256_tc14"
      "NIST GCM Test Case 14 (zero key/nonce, empty plaintext)" key 32 nonce none [] [] 0

-- `main` up to the writing of the file.
unfoldable pub aes_gcm_test_file : Aead → Aead → Hex → Option AesGcmTestFile
aes_gcm_test_file aes256 aes128 hex = do
  first ← aes256_vectors aes256 hex
  second ← aes128_vectors aes128 hex
  last ← nist_vector aes256 hex
  some record {
    algorithm = "AES-GCM";
    nonce_size = 12;
    tag_size = 16;
    test_vectors = first ++ (second ++ (last ∷ []));
  }
