-- ===== src/Tests/Ciphers.antt =====
-- Examples for the ciphers: ciphers whose tag is 16 zeros, and a key stream that counts.
use tos_spec.Base.{ℕ, ◌+◌, ◌%◌, ◌-◌, ◌≡◌, ◌⊎◌, refl, arith, List, [], ◌∷◌, ◌++◌}
use tos_spec.Base.{none, some, length, replicate, take, All, All-append}
use tos_spec.Base.{length-append, take-append_length, ltb, ◌==◌, if◌then◌else◌}
use tos_spec.Base.Bytes.{AreBytes, read_be?}
use tos_spec.Ciphers.{Aead, AeadLaws, Encrypts}
use tos_spec.Ciphers.Nonce.{build_tos_nonce, build_tos_nonce_lem}
use tos_spec.Ciphers.Poly1305.{ChaCha20Poly1305TestFile, poly1305_test_file}
use tos_spec.Ciphers.Poly1305.Decrypts.{VectorDecrypts}
use tos_spec.Ciphers.Poly1305.File.{poly1305_test_file-VectorDecrypts}
use tos_spec.Ciphers.AesGcm.{AesGcmTestFile, aes_gcm_test_file}
use tos_spec.Ciphers.AesGcm.Decrypts.{GcmDecrypts}
use tos_spec.Ciphers.AesGcm.File.{aes_gcm_test_file-GcmDecrypts}
use tos_spec.Ciphers.ChaCha20.{
  mask, StreamCipher, StreamCipherLaws, ChaCha20TestFile, chacha20_test_file,
}
use tos_spec.Ciphers.ChaCha20.Decrypts.{StreamDecrypts, chacha20_test_file-StreamDecrypts}
use tos_spec.Tests.WrittenHex.{written_hex, written_hex_laws, written_hex_lower}

abbrev counter : ℕ
counter = 258

abbrev other : ℕ
other = 513

build_tos_nonce_lem_example :
    (length (build_tos_nonce counter) ≡ 12)
    × (read_be? 8 (build_tos_nonce counter) ≡ some (counter, replicate 4 0))
    × (build_tos_nonce counter ≡ build_tos_nonce other → counter ≡ other)
build_tos_nonce_lem_example = build_tos_nonce_lem counter other (omega arith) (omega arith)

abbrev zero_tag : ℕ → Aead
zero_tag size = record {
  Cipher = Unit;
  new_from_slice = λ key. if length key == size then some tt else none;
  encrypt = λ _ nonce aad text. some (text ++ replicate 16 0);
  decrypt =
      λ _ nonce aad out. if ltb (length out) 16 then none else some (take (length out - 16) out);
}

zero_tag-Encrypts :
    (size : ℕ) (nonce aad text : List ℕ)
    → AreBytes text
    → Encrypts (zero_tag size) tt nonce aad text (text ++ replicate 16 0)
zero_tag-Encrypts size nonce aad text h =
    let total = length-append text (replicate 16 0) in
    let rest : length (text ++ replicate 16 0) - 16 ≡ length text = omega (arith, total) in
    record {
      encrypted = refl;
      bytes = All-append _ text _ h (omega arith);
      size = total;
      decrypted =
          rw (rest, take-append_length (length text) text (replicate 16 0) refl)
            (ground (arith, total));
    }

zero_tag_laws : (size : ℕ) → AeadLaws (zero_tag size) size
zero_tag_laws size = record {
  new_from_slice_lem = λ key e. (tt, ground (arith, e));
  encrypt_lem = λ _ nonce aad text hn ht small.
      (text ++ replicate 16 0, zero_tag-Encrypts size nonce aad text ht);
}

poly1305_test_file-VectorDecrypts_example :
    (file : ChaCha20Poly1305TestFile) × (poly1305_test_file (zero_tag 32) written_hex ≡ some file)
    × All
        (VectorDecrypts (zero_tag 32) written_hex file.key_size file.nonce_size file.tag_size)
        file.test_vectors
poly1305_test_file-VectorDecrypts_example =
    poly1305_test_file-VectorDecrypts (zero_tag 32) (zero_tag_laws 32) written_hex written_hex_laws
      written_hex_lower

aes_gcm_test_file-GcmDecrypts_example :
    (file : AesGcmTestFile) × (aes_gcm_test_file (zero_tag 32) (zero_tag 16) written_hex
      ≡ some file)
    × All
        (λ v.
          GcmDecrypts (zero_tag 32) written_hex file.nonce_size file.tag_size v
          ⊎ GcmDecrypts (zero_tag 16) written_hex file.nonce_size file.tag_size v)
        file.test_vectors
aes_gcm_test_file-GcmDecrypts_example =
    aes_gcm_test_file-GcmDecrypts (zero_tag 32) (zero_tag 16) (zero_tag_laws 32) (zero_tag_laws 16)
      written_hex written_hex_laws written_hex_lower

-- A stream that counts up from the first byte of the key.
abbrev first_byte : List ℕ → ℕ
first_byte [] = 0
first_byte (b ∷ bs) = b

abbrev counting_cipher : StreamCipher
counting_cipher = record {
  Cipher = ℕ;
  start = λ key nonce. first_byte key;
  apply_keystream = λ c text. mask (λ i. (c + i) % 256) 0 text;
}

abbrev counting_cipher_laws : StreamCipherLaws counting_cipher
counting_cipher_laws = record {
  keystream = λ c i. (c + i) % 256;
  keystream-lt = λ c i. omega arith;
  apply_keystream_lem = λ c text h. refl;
}

chacha20_test_file-StreamDecrypts_example :
    (file : ChaCha20TestFile) × (chacha20_test_file counting_cipher written_hex ≡ some file)
    × All
        (StreamDecrypts counting_cipher counting_cipher_laws written_hex file.key_size
          file.nonce_size)
        file.test_vectors
chacha20_test_file-StreamDecrypts_example =
    chacha20_test_file-StreamDecrypts counting_cipher counting_cipher_laws written_hex
      written_hex_laws written_hex_lower
