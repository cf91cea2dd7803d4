-- ===== src/Hmac.antt =====
-- rust_generators/crypto/gen_hmac_vectors.rs: the vectors of the two files that `main` writes. The
-- codes of the `hmac` crate over SHA-256 and SHA-512 are parameters; they take keys of any length.
-- `none` is a panic.
pub mod Agrees
use tos_spec.Base.{ℕ, List, [], ◌∷◌, String, Option, none, some, length, replicate}
use tos_spec.Base.Options.{◌>>=◌}
use tos_spec.Base.Bytes.{codes}
use tos_spec.Crypto.{Hex}

pub record TestVector : Type 0 where
  pub name : String
  pub description : Option String
  pub key_hex : List ℕ
  pub key_length : ℕ
  pub message_hex : List ℕ
  pub message_ascii : Option String
  pub message_length : ℕ
  pub expected_hex : List ℕ

pub record HmacTestFile : Type 0 where
  pub algorithm : String
  pub output_size : ℕ
  pub test_vectors : List TestVector

-- `hmac_sha256` and `hmac_sha512` of the code: the authentication code in hexadecimal.
unfoldable pub hmac_sha256 : Hex → (List ℕ → List ℕ → List ℕ) → List ℕ → List ℕ → List ℕ
hmac_sha256 hex mac key message = hex.encode (mac key message)

unfoldable pub hmac_sha512 : Hex → (List ℕ → List ℕ → List ℕ) → List ℕ → List ℕ → List ℕ
hmac_sha512 hex mac key message = hex.encode (mac key message)

-- One block, with the function of its file.
unfoldable pub hmac_vector :
    Hex
    → (List ℕ → List ℕ → List ℕ)
    → String
    → String
    → List ℕ
    → List ℕ
    → Option String
    → TestVector
hmac_vector hex hmac name description key message ascii = record {
  name = name;
  description = some description;
  key_hex = hex.encode key;
  key_length = length key;
  message_hex = hex.encode message;
  message_ascii = ascii;
  message_length = length message;
  expected_hex = hmac key message;
}

-- A block for the empty message, which it writes down as a literal.
unfoldable pub empty_message_vector :
    Hex → (List ℕ → List ℕ → List ℕ) → String → List ℕ → TestVector
empty_message_vector hex hmac description key = record {
  name = "empty_message";
  description = some description;
  key_hex = hex.encode key;
  key_length = length key;
  message_hex = [];
  message_ascii = some "";
  message_length = 0;
  expected_hex = hmac key [];
}

abbrev pub want_text : List ℕ
want_text = codes "what do ya want for nothing?"

abbrev pub long_key_text : List ℕ
long_key_text = codes "Test with a key longer than block size"

abbrev pub path_text : List ℕ
path_text = codes "m/44'/501'/0'/0'"

abbrev pub words_text : List ℕ
words_text =
    codes
      "abandon abandon abandon abandon abandon abandon abandon abandon abandon abandon abandon about"

module _ (hex : Hex) (mac : List ℕ → List ℕ → List ℕ) where
  -- The pushes of the first function, for the three literals that it decodes.
  unfoldable pub hmac_sha256_pushes : List ℕ → List ℕ → List ℕ → List TestVector
  hmac_sha256_pushes key1 key3 message3 =
      let hmac = hmac_sha256 hex mac in
      let vector = hmac_vector hex hmac in
      vector "rfc4231_test1" "RFC 4231 Test Case 1" key1 (codes "Hi There") (some "Hi There")
      ∷ vector "rfc4231_test2" "RFC 4231 Test Case 2" (codes "Jefe") want_text
          (some "what do ya want for nothing?")
      ∷ vector "rfc4231_test3" "RFC 4231 Test Case 3" key3 message3 none
      ∷ empty_message_vector hex hmac "32-byte key, empty message" (replicate 32 0x01)
      ∷ vector "long_key" "Key longer than block size (128 bytes)" (replicate 128 0xaa)
          long_key_text (some "Test with a key longer than block size")
      ∷ vector "bip32_path" "HD wallet path derivation style" (replicate 32 0x42) path_text
          (some "m/44'/501'/0'/0'")
      ∷ []

  unfoldable pub generate_hmac_sha256_vectors : Option HmacTestFile
  generate_hmac_sha256_vectors = do
    key1 ← hex.decode (codes "0b0b0b0b0b0b0b0b0b0b0b0b0b0b0b0b0b0b0b0b")
    key3 ← hex.decode (codes "aaaaaaaaaaaaaaaaaaaaaaaaaaaaaaaaaaaaaaaa")
    message3 ← hex.decode (
        codes
          "dddddddddddddddddddddddddddddddddddddddddddddddddddddddddddddddddddddddddddddddddddddddddddddddddddd")
    some record {
      algorithm = "HMAC-SHA256";
      output_size = 32;
      test_vectors = hmac_sha256_pushes key1 key3 message3;
    }

  -- The pushes of the second function, for the literal that it decodes.
  unfoldable pub hmac_sha512_pushes : List ℕ → List TestVector
  hmac_sha512_pushes key1 =
      let hmac = hmac_sha512 hex mac in
      let vector = hmac_vector hex hmac in
      vector "rfc4231_test1" "RFC 4231 Test Case 1" key1 (codes "Hi There") (some "Hi There")
      ∷ vector "rfc4231_test2" "RFC 4231 Test Case 2" (codes "Jefe") want_text
          (some "what do ya want for nothing?")
      ∷ empty_message_vector hex hmac "64-byte key, empty message" (replicate 64 0x01)
      ∷ vector "long_key" "Key longer than block size (256 bytes)" (replicate 256 0xaa)
          long_key_text (some "Test with a key longer than block size")
      ∷ vector "bip39_mnemonic" "BIP39 mnemonic to seed derivation style" (codes "mnemonic")
          words_text
          (some
            "abandon abandon abandon abandon abandon abandon abandon abandon abandon abandon abandon about")
      ∷ []

  unfoldable pub generate_hmac_sha512_vectors : Option HmacTestFile
  generate_hmac_sha512_vectors = do
    key1 ← hex.decode (codes "0b0b0b0b0b0b0b0b0b0b0b0b0b0b0b0b0b0b0b0b")
    some record {
      algorithm = "HMAC-SHA512";
      output_size = 64;
      test_vectors = hmac_sha512_pushes key1;
    }
