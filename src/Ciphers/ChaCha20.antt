-- ===== src/Ciphers/ChaCha20.antt =====
-- gen_chacha20_vectors.rs: encryption with a key stream, and the vectors that `main` makes.
pub mod Decrypts
use tos_spec.Base.{
  ℕ, ◌+◌, ◌<◌, ◌≡◌, bit_xor, List, [], ◌∷◌, String, Option, none, some, length, replicate,
}
use tos_spec.Base.Options.{◌>>=◌}
use tos_spec.Base.Bytes.{AreBytes, codes, sequence}
use tos_spec.Crypto.{Hex}
use tos_spec.Ciphers.{decode_array}
use tos_spec.Ciphers.Poly1305.{rfc_text}

-- `ChaCha20::new(key, nonce)` and `apply_keystream` at its start.
pub record StreamCipher : Type 1 where
  pub Cipher : Type 0
  pub start : List ℕ → List ℕ → Cipher
  pub apply_keystream : Cipher → List ℕ → List ℕ

-- Bytes with a stream, from its place `i` on, added by exclusive or.
abbrev pub mask : (ℕ → ℕ) → ℕ → List ℕ → List ℕ
mask stream i [] = []
mask stream i (b ∷ bs) = bit_xor b (stream i) ∷ mask stream (i + 1) bs

-- A cipher has a stream of bytes, and `apply_keystream` adds it by exclusive or.
pub record StreamCipherLaws (s : StreamCipher) : Type 0 where
  pub keystream : s.Cipher → ℕ → ℕ
  pub keystream-lt : (c : s.Cipher) (i : ℕ) → keystream c i < 256
  pub apply_keystream_lem :
      (c : s.Cipher) (text : List ℕ)
      → AreBytes text
      → s.apply_keystream c text ≡ mask (keystream c) 0 text

pub record TestVector : Type 0 where
  pub name : String
  pub description : Option String
  pub key_hex : List ℕ
  pub nonce_hex : List ℕ
  pub plaintext_hex : List ℕ
  pub plaintext_length : ℕ
  pub ciphertext_hex : List ℕ

pub record ChaCha20TestFile : Type 0 where
  pub algorithm : String
  pub key_size : ℕ
  pub nonce_size : ℕ
  pub test_vectors : List TestVector

unfoldable pub chacha20_encrypt : (s : StreamCipher) → List ℕ → List ℕ → List ℕ → List ℕ
chacha20_encrypt s key nonce plaintext = s.apply_keystream (s.start key nonce) plaintext

module _ (s : StreamCipher) (hex : Hex) where
  -- One block of `main`, with the text in hexadecimal and the length that it writes down.
  unfoldable pub stream_vector :
      String → Option String → List ℕ → List ℕ → List ℕ → List ℕ → ℕ → TestVector
  stream_vector name description key nonce plaintext plaintext_hex plaintext_length = record {
    name = name;
    description = description;
    key_hex = hex.encode key;
    nonce_hex = hex.encode nonce;
    plaintext_hex = plaintext_hex;
    plaintext_length = plaintext_length;
    ciphertext_hex = hex.encode (chacha20_encrypt s key nonce plaintext);
  }

  -- Test 1.
  unfoldable pub rfc_stream_vector : Option TestVector
  rfc_stream_vector = do
    key ←
        decode_array hex (codes "000102030405060708090a0b0c0d0e0f101112131415161718191a1b1c1d1e1f")
          32
    nonce ← decode_array hex (codes "000000000000004a00000000") 12
    some (
        stream_vector "rfc8439_test" (some "RFC 8439 test vector") key nonce rfc_text
          (hex.encode rfc_text) (length rfc_text))

  -- Tests 2 to 8.
  unfoldable pub stream_vectors : List TestVector
  stream_vectors =
      let full = λ (name : String) (description : Option String) (key nonce text : List ℕ) (n : ℕ).
        stream_vector name description key nonce text (hex.encode text) n in
      let key = replicate 32 0x42 in
      let nonce = replicate 12 0x00 in
      let block_key = replicate 32 0x01 in
      let block_nonce = replicate 12 0x02 in
      stream_vector "empty_plaintext" (some "Empty plaintext") key nonce [] [] 0
      ∷ full "single_byte" none key nonce (0xab ∷ []) 1
      ∷ full "one_block" (some "64-byte (one block) plaintext") block_key block_nonce
          (replicate 64 0x00) 64
      ∷ full "two_blocks" (some "128-byte (two blocks) plaintext") block_key block_nonce
          (replicate 128 0x00) 128
      ∷ full "one_block_plus_one" (some "65-byte plaintext") block_key block_nonce
          (replicate 65 0xff) 65
      ∷ full "zero_key_nonce" (some "All zero key and nonce") (replicate 32 0x00) nonce
          (codes "Hello, world!") (length (codes "Hello, world!"))
      ∷ full "sequential_nonce" (some "Sequential nonce bytes") key (sequence 12 0)
          (replicate 100 0x61) 100
      ∷ []

  -- `main` up to the writing of the file.
  unfoldable pub chacha20_test_file : Option ChaCha20TestFile
  chacha20_test_file = do
    first ← rfc_stream_vector
    some record {
      algorithm = "ChaCha20";
      key_size = 32;
      nonce_size = 12;
      test_vectors = first ∷ stream_vectors;
    }
