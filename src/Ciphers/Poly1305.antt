-- ===== src/Ciphers/Poly1305.antt =====
-- gen_chacha20_poly1305_vectors.rs: the vectors that `main` makes.
pub mod Decrypts
pub mod File
use tos_spec.Base.{ℕ, List, [], ◌∷◌, ◌++◌, String, Option, none, some, length, replicate}
use tos_spec.Base.Options.{◌>>=◌}
use tos_spec.Base.Bytes.{codes, sequence}
use tos_spec.Crypto.{Hex}
use tos_spec.Ciphers.{Aead, split_tag, decode_array}
use tos_spec.Ciphers.Nonce.{build_tos_nonce}

pub record TestVector : Type 0 where
  pub name : String
  pub description : Option String
  pub key_hex : List ℕ
  pub nonce_hex : List ℕ
  pub aad_hex : Option (List ℕ)
  pub plaintext_hex : List ℕ
  pub plaintext_length : ℕ
  pub ciphertext_hex : List ℕ
  pub tag_hex : List ℕ

pub record ChaCha20Poly1305TestFile : Type 0 where
  pub algorithm : String
  pub description : String
  pub key_size : ℕ
  pub nonce_size : ℕ
  pub tag_size : ℕ
  pub test_vectors : List TestVector

abbrev pub hello : List ℕ
hello = codes "Hello, TOS P2P!"

abbrev pub secret_message : List ℕ
secret_message = codes "secret message"

abbrev pub session : List ℕ
session = codes "TOS P2P session"

abbrev pub rfc_text : List ℕ
rfc_text =
    codes
      "Ladies and Gentlemen of the class of '99: If I could offer you only one tip for the future, sunscreen would be it."

module _ (a : Aead) (hex : Hex) where
  -- One block of `main` without additional data; `plaintext_hex` and the length are given, since one
  -- block writes them as literals.
  unfoldable pub plain_vector :
      a.Cipher → String → String → List ℕ → List ℕ → List ℕ → List ℕ → ℕ → Option TestVector
  plain_vector cipher name description key nonce plaintext plaintext_hex plaintext_length = do
    ciphertext ← a.encrypt cipher nonce [] plaintext
    (front, tag) ← split_tag ciphertext
    some record {
      name = name;
      description = some description;
      key_hex = hex.encode key;
      nonce_hex = hex.encode nonce;
      aad_hex = none;
      plaintext_hex = plaintext_hex;
      plaintext_length = plaintext_length;
      ciphertext_hex = hex.encode front;
      tag_hex = hex.encode tag;
    }

  -- One block with additional data.
  unfoldable pub aad_vector :
      a.Cipher → String → String → List ℕ → List ℕ → List ℕ → List ℕ → Option TestVector
  aad_vector cipher name description key nonce aad plaintext = do
    ciphertext ← a.encrypt cipher nonce aad plaintext
    (front, tag) ← split_tag ciphertext
    some record {
      name = name;
      description = some description;
      key_hex = hex.encode key;
      nonce_hex = hex.encode nonce;
      aad_hex = some (hex.encode aad);
      plaintext_hex = hex.encode plaintext;
      plaintext_length = length plaintext;
      ciphertext_hex = hex.encode front;
      tag_hex = hex.encode tag;
    }

  -- Tests 1 to 5: one cipher for the counters 0, 0, 1, 255 and 0x0102030405060708.
  unfoldable pub counter_vectors : Option (List TestVector)
  counter_vectors = do
    let key = replicate 32 0x42
    cipher ← a.new_from_slice key
    v1 ←
        plain_vector cipher "empty_counter0" "Empty plaintext, TOS nonce counter=0" key
          (build_tos_nonce 0) [] [] 0
    v2 ←
        plain_vector cipher "hello_counter0" "Simple message, TOS nonce counter=0" key
          (build_tos_nonce 0) hello (hex.encode hello) (length hello)
    v3 ←
        plain_vector cipher "hello_counter1" "Simple message, TOS nonce counter=1" key
          (build_tos_nonce 1) hello (hex.encode hello) (length hello)
    v4 ←
        plain_vector cipher "hello_counter255" "Simple message, TOS nonce counter=255" key
          (build_tos_nonce 255) hello (hex.encode hello) (length hello)
    v5 ←
        plain_vector cipher "hello_large_counter" "Simple message, TOS nonce with large counter" key
          (build_tos_nonce 0x0102030405060708) hello (hex.encode hello) (length hello)
    some (v1 ∷ v2 ∷ v3 ∷ v4 ∷ v5 ∷ [])

  -- Test 6.
  unfoldable pub session_vector : Option TestVector
  session_vector = do
    let key = replicate 32 0x01
    cipher ← a.new_from_slice key
    aad_vector cipher "with_aad" "Message with AAD" key (build_tos_nonce 0) session secret_message

  -- Tests 7 and 8: one cipher and one nonce.
  unfoldable pub long_vectors : Option (List TestVector)
  long_vectors = do
    let key = replicate 32 0xab
    let nonce = build_tos_nonce 42
    cipher ← a.new_from_slice key
    v7 ←
        plain_vector cipher "64bytes" "64-byte plaintext" key nonce (replicate 64 0x00)
          (hex.encode (replicate 64 0x00)) 64
    v8 ←
        plain_vector cipher "1024bytes" "1024-byte plaintext" key nonce (sequence 1024 0)
          (hex.encode (sequence 1024 0)) 1024
    some (v7 ∷ v8 ∷ [])

  -- Test 9.
  unfoldable pub rfc_vector : Option TestVector
  rfc_vector = do
    key ←
        decode_array hex (codes "808182838485868788898a8b8c8d8e8f909192939495969798999a9b9c9d9e9f")
          32
    nonce ← decode_array hex (codes "070000004041424344454647") 12
    aad ← hex.decode (codes "50515253c0c1c2c3c4c5c6c7")
    cipher ← a.new_from_slice key
    aad_vector cipher "rfc8439_test" "RFC 8439 Section 2.8.2 test vector" key nonce aad rfc_text

  -- Test 10.
  unfoldable pub zero_vector : Option TestVector
  zero_vector = do
    let key = replicate 32 0x00
    cipher ← a.new_from_slice key
    plain_vector cipher "zero_key_nonce" "Zero key and nonce" key (replicate 12 0x00) (codes "test")
        (hex.encode (codes "test")) (length (codes "test"))

  -- `main` up to the writing of the file.
  unfoldable pub poly1305_test_file : Option ChaCha20Poly1305TestFile
  poly1305_test_file = do
    first ← counter_vectors
    sixth ← session_vector
    long ← long_vectors
    ninth ← rfc_vector
    tenth ← zero_vector
    some record {
      algorithm = "ChaCha20-Poly1305";
      description = "AEAD per RFC 8439, compatible with TOS P2P encryption";
      key_size = 32;
      nonce_size = 12;
      tag_size = 16;
      test_vectors = first ++ (sixth ∷ (long ++ (ninth ∷ tenth ∷ [])));
    }
