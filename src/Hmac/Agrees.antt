-- ===== src/Hmac/Agrees.antt =====
-- The vectors of gen_hmac_vectors.rs: keys, messages, lengths and codes.
use tos_spec.Base.{
  ℕ, ◌≡◌, refl, arith, List, [], String, Option, none, some, length, All, replicate,
}
use tos_spec.Base.{All-replicate}
use tos_spec.Base.Bytes.{AreBytes, IsByte, codes}
use tos_spec.Crypto.{Hex, HexLaws}
use tos_spec.Crypto.LowerHex.{WritesLowerHex, decode_text}
use tos_spec.Hmac.{
  TestVector, HmacTestFile, hmac_sha256, hmac_sha512, hmac_vector, empty_message_vector, want_text,
  long_key_text, hmac_sha256_pushes, hmac_sha512_pushes, path_text, words_text,
  generate_hmac_sha256_vectors, generate_hmac_sha512_vectors,
}

-- The vector shows a key and a message with their lengths, and the code of the two, of the file's
-- size.
pub record HmacAgrees (hex : Hex) (mac : List ℕ → List ℕ → List ℕ) (size : ℕ) (v : TestVector)
    : Type 0 where
  pub key : List ℕ
  pub message : List ℕ
  pub key_shown : hex.decode v.key_hex ≡ some key
  pub key_size : v.key_length ≡ length key
  pub message_shown : hex.decode v.message_hex ≡ some message
  pub message_size : v.message_length ≡ length message
  pub code_shown : hex.decode v.expected_hex ≡ some (mac key message)
  pub code_size : length (mac key message) ≡ size

module _ (hex : Hex) (laws : HexLaws hex) (mac : List ℕ → List ℕ → List ℕ) (size : ℕ)
    (mac_bytes : (key message : List ℕ)
      → AreBytes (mac key message) × (length (mac key message) ≡ size)) where
  hmac_vector-HmacAgrees :
      (name description : String) (key message : List ℕ) (ascii : Option String)
      → AreBytes key
      → AreBytes message
      → HmacAgrees hex mac size
          (hmac_vector hex (λ k m. hex.encode (mac k m)) name description key message ascii)
  unfolding hmac_vector
  hmac_vector-HmacAgrees name description key message ascii hk hm = record {
    key = key;
    message = message;
    key_shown = laws.decode-encode key hk;
    key_size = refl;
    message_shown = laws.decode-encode message hm;
    message_size = refl;
    code_shown = laws.decode-encode (mac key message) (mac_bytes key message).0;
    code_size = (mac_bytes key message).1;
  }

  empty_message_vector-HmacAgrees :
      (description : String) (key : List ℕ)
      → AreBytes key
      → HmacAgrees hex mac size
          (empty_message_vector hex (λ k m. hex.encode (mac k m)) description key)
  unfolding empty_message_vector
  empty_message_vector-HmacAgrees description key hk = record {
    key = key;
    message = [];
    key_shown = laws.decode-encode key hk;
    key_size = refl;
    message_shown = laws.decode_nil;
    message_size = refl;
    code_shown = laws.decode-encode (mac key []) (mac_bytes key []).0;
    code_size = (mac_bytes key []).1;
  }

module _ (hex : Hex) (laws : HexLaws hex) (lower : WritesLowerHex hex)
    (mac : List ℕ → List ℕ → List ℕ) where
  hmac_sha256_pushes-HmacAgrees :
      ((key message : List ℕ) → AreBytes (mac key message) × (length (mac key message) ≡ 32))
      → (key1 key3 message3 : List ℕ) → AreBytes key1
      → AreBytes key3
      → AreBytes message3
      → All (HmacAgrees hex mac 32) (hmac_sha256_pushes hex mac key1 key3 message3)
  unfolding hmac_sha256_pushes hmac_sha256
  hmac_sha256_pushes-HmacAgrees mac_bytes key1 key3 message3 h1 h3 hm =
      let next = hmac_vector-HmacAgrees hex laws mac 32 mac_bytes in
      (
        next "rfc4231_test1" "RFC 4231 Test Case 1" key1 (codes "Hi There") _ h1 (omega arith),
        (
          next "rfc4231_test2" "RFC 4231 Test Case 2" (codes "Jefe") want_text _ (omega arith)
              (omega arith),
          (
            next "rfc4231_test3" "RFC 4231 Test Case 3" key3 message3 none h3 hm,
            (
              empty_message_vector-HmacAgrees hex laws mac 32 mac_bytes "32-byte key, empty message"
                  (replicate 32 0x01) (omega arith),
              (
                next "long_key" "Key longer than block size (128 bytes)" (replicate 128 0xaa)
                    long_key_text _ (All-replicate IsByte 128 0xaa (omega arith)) (omega arith),
                (
                  next "bip32_path" "HD wallet path derivation style" (replicate 32 0x42) path_text
                      _ (omega arith) (omega arith),
                  tt,
                ),
              ),
            ),
          ),
        ),
      )

  hmac_sha512_pushes-HmacAgrees :
      ((key message : List ℕ) → AreBytes (mac key message) × (length (mac key message) ≡ 64))
      → (key1 : List ℕ) → AreBytes key1
      → All (HmacAgrees hex mac 64) (hmac_sha512_pushes hex mac key1)
  unfolding hmac_sha512_pushes hmac_sha512
  hmac_sha512_pushes-HmacAgrees mac_bytes key1 h1 =
      let next = hmac_vector-HmacAgrees hex laws mac 64 mac_bytes in
      (
        next "rfc4231_test1" "RFC 4231 Test Case 1" key1 (codes "Hi There") _ h1 (omega arith),
        (
          next "rfc4231_test2" "RFC 4231 Test Case 2" (codes "Jefe") want_text _ (omega arith)
              (omega arith),
          (
            empty_message_vector-HmacAgrees hex laws mac 64 mac_bytes "64-byte key, empty message"
                (replicate 64 0x01) (omega arith),
            (
              next "long_key" "Key longer than block size (256 bytes)" (replicate 256 0xaa)
                  long_key_text _ (All-replicate IsByte 256 0xaa (omega arith)) (omega arith),
              (
                next "bip39_mnemonic" "BIP39 mnemonic to seed derivation style" (codes "mnemonic")
                    words_text _ (omega arith) (omega arith),
                tt,
              ),
            ),
          ),
        ),
      )

-- With the laws of `HexLaws` and `WritesLowerHex`, and codes of 32 and of 64 bytes, the functions of
-- the two files do not panic; each vector shows a key and a message, their lengths, and the code of
-- the two in the size that its file gives.
pub hmac_test_files-HmacAgrees :
    (hex : Hex) (laws : HexLaws hex) (lower : WritesLowerHex hex)
    (mac_256 mac_512 : List ℕ → List ℕ → List ℕ)
    → ((key message : List ℕ)
        → AreBytes (mac_256 key message) × (length (mac_256 key message) ≡ 32))
    → ((key message : List ℕ)
        → AreBytes (mac_512 key message) × (length (mac_512 key message) ≡ 64))
    → ((file : HmacTestFile) × (generate_hmac_sha256_vectors hex mac_256 ≡ some file)
        × All (HmacAgrees hex mac_256 file.output_size) file.test_vectors)
      × ((file : HmacTestFile) × (generate_hmac_sha512_vectors hex mac_512 ≡ some file)
          × All (HmacAgrees hex mac_512 file.output_size) file.test_vectors)
unfolding generate_hmac_sha256_vectors generate_hmac_sha512_vectors
hmac_test_files-HmacAgrees hex laws lower mac_256 mac_512 h256 h512 =
    let key1 : List ℕ = replicate 20 0x0b in
    let key3 : List ℕ = replicate 20 0xaa in
    let message3 : List ℕ = replicate 50 0xdd in
    let read1 = decode_text hex laws lower _ key1 (omega arith) refl in
    let read3 = decode_text hex laws lower _ key3 (omega arith) refl in
    let read_message = decode_text hex laws lower _ message3 (omega arith) refl in
    (
      (
        record {
          algorithm = "HMAC-SHA256";
          output_size = 32;
          test_vectors = hmac_sha256_pushes hex mac_256 key1 key3 message3;
        },
        rw (read1, read3, read_message),
        hmac_sha256_pushes-HmacAgrees hex laws lower mac_256 h256 key1 key3 message3 (omega arith)
            (omega arith) (omega arith),
      ),
      (
        record {
          algorithm = "HMAC-SHA512";
          output_size = 64;
          test_vectors = hmac_sha512_pushes hex mac_512 key1;
        },
        rw read1,
        hmac_sha512_pushes-HmacAgrees hex laws lower mac_512 h512 key1 (omega arith),
      ),
    )
