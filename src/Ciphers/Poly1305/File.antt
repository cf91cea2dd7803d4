-- ===== src/Ciphers/Poly1305/File.antt =====
-- The whole file of gen_chacha20_poly1305_vectors.rs.
use tos_spec.Base.{ℕ, ◌^◌, ◌<◌, ◌≡◌, refl, arith, List, [], ◌∷◌, ◌++◌, String, some}
use tos_spec.Base.{length, replicate, All, All-append}
use tos_spec.Base.Bytes.{AreBytes, codes, sequence, sequence-AreBytes}
use tos_spec.Crypto.{Hex, HexLaws}
use tos_spec.Crypto.LowerHex.{WritesLowerHex, decode_text}
use tos_spec.Ciphers.{Aead, AeadLaws}
use tos_spec.Ciphers.Nonce.{build_tos_nonce, build_tos_nonce_size, build_tos_nonce-AreBytes}
use tos_spec.Ciphers.Agrees.{decode_array_lem}
use tos_spec.Ciphers.Poly1305.{
  TestVector, ChaCha20Poly1305TestFile, plain_vector, counter_vectors, session_vector, long_vectors,
  rfc_vector, zero_vector, poly1305_test_file, hello, secret_message, session, rfc_text,
}
use tos_spec.Ciphers.Poly1305.Decrypts.{
  VectorDecrypts, Decrypts, plain_vector-Decrypts, aad_vector-Decrypts,
}

module _ (a : Aead) (laws : AeadLaws a 32) (hex : Hex) (hex_laws : HexLaws hex)
    (lower : WritesLowerHex hex) where
  -- A block with a repeated byte as key and a text written by `hex::encode`.
  encoded_vector-Decrypts :
      (cipher : a.Cipher) (name description : String) (b : ℕ) (nonce text : List ℕ) (n : ℕ)
      → a.new_from_slice (replicate 32 b) ≡ some cipher
      → b < 256
      → AreBytes nonce
      → length nonce ≡ 12
      → AreBytes text
      → n ≡ length text
      → n < 2 ^ 32
      → (v : TestVector) × (plain_vector a hex cipher name description
            (replicate 32 b)
            nonce
            text
            (hex.encode text)
            n
          ≡ some v)
        × Decrypts a laws hex hex_laws v
  encoded_vector-Decrypts cipher name description b nonce text n made hb hn nonce_size ht size
        small =
      plain_vector-Decrypts a laws hex hex_laws cipher name description (replicate 32 b) nonce text
        (hex.encode text) n made (omega arith) refl hn nonce_size ht
        (hex_laws.decode-encode text ht) size small

  counter_vectors-Decrypts :
      (vs : List TestVector) × (counter_vectors a hex ≡ some vs)
      × All (Decrypts a laws hex hex_laws) vs
  unfolding counter_vectors
  counter_vectors-Decrypts =
      let key : List ℕ = replicate 32 0x42 in
      let (cipher, made) = laws.new_from_slice_lem key refl in
      let next = λ (name description : String) (k : ℕ).
        encoded_vector-Decrypts cipher name description 0x42 (build_tos_nonce k) hello 15 made
          (omega arith) (build_tos_nonce-AreBytes k) (build_tos_nonce_size k) (omega arith) refl
          (omega arith) in
      let (v1, e1, h1) =
        plain_vector-Decrypts a laws hex hex_laws cipher "empty_counter0"
          "Empty plaintext, TOS nonce counter=0" key (build_tos_nonce 0) [] [] 0 made (omega arith)
          refl (build_tos_nonce-AreBytes 0) (build_tos_nonce_size 0) tt hex_laws.decode_nil refl
          (omega arith) in
      let (v2, e2, h2) = next "hello_counter0" "Simple message, TOS nonce counter=0" 0 in
      let (v3, e3, h3) = next "hello_counter1" "Simple message, TOS nonce counter=1" 1 in
      let (v4, e4, h4) = next "hello_counter255" "Simple message, TOS nonce counter=255" 255 in
      let (v5, e5, h5) =
        next "hello_large_counter" "Simple message, TOS nonce with large counter"
          0x0102030405060708 in
      (v1 ∷ v2 ∷ v3 ∷ v4 ∷ v5 ∷ [], rw (made, e1, e2, e3, e4, e5), (h1, (h2, (h3, (h4, (h5, tt))))))

  session_vector-Decrypts :
      (v : TestVector) × (session_vector a hex ≡ some v) × Decrypts a laws hex hex_laws v
  unfolding session_vector
  session_vector-Decrypts =
      let key : List ℕ = replicate 32 0x01 in
      let (cipher, made) = laws.new_from_slice_lem key refl in
      let (v, e, h) =
        aad_vector-Decrypts a laws hex hex_laws cipher "with_aad" "Message with AAD" key
          (build_tos_nonce 0) session secret_message made (omega arith) refl
          (build_tos_nonce-AreBytes 0) (build_tos_nonce_size 0) (omega arith) (omega arith)
          (omega arith) in
      (v, rw (made, e), h)

  long_vectors-Decrypts :
      (vs : List TestVector) × (long_vectors a hex ≡ some vs)
      × All (Decrypts a laws hex hex_laws) vs
  unfolding long_vectors
  long_vectors-Decrypts =
      let key : List ℕ = replicate 32 0xab in
      let (cipher, made) = laws.new_from_slice_lem key refl in
      let next = λ (name description : String) (text : List ℕ) (n : ℕ).
        encoded_vector-Decrypts cipher name description 0xab (build_tos_nonce 42) text n made
          (omega arith) (build_tos_nonce-AreBytes 42) (build_tos_nonce_size 42) in
      let (v7, e7, h7) =
        next "64bytes" "64-byte plaintext" (replicate 64 0x00) 64 (omega arith) refl
          (omega arith) in
      let (v8, e8, h8) =
        next "1024bytes" "1024-byte plaintext" (sequence 1024 0) 1024 (sequence-AreBytes 1024 0)
          refl (omega arith) in
      (v7 ∷ v8 ∷ [], rw (made, e7, e8), (h7, (h8, tt)))

  rfc_vector-Decrypts :
      (v : TestVector) × (rfc_vector a hex ≡ some v) × Decrypts a laws hex hex_laws v
  unfolding rfc_vector
  rfc_vector-Decrypts =
      let key : List ℕ = sequence 32 0x80 in
      let nonce : List ℕ = 0x07 ∷ 0x00 ∷ 0x00 ∷ 0x00 ∷ sequence 8 0x40 in
      let aad : List ℕ = sequence 4 0x50 ++ sequence 8 0xc0 in
      let (cipher, made) = laws.new_from_slice_lem key refl in
      let (v, e, h) =
        aad_vector-Decrypts a laws hex hex_laws cipher "rfc8439_test"
          "RFC 8439 Section 2.8.2 test vector" key nonce aad rfc_text made (omega arith) refl
          (omega arith) refl (omega arith) (omega arith) (omega arith) in
      let key_read = decode_array_lem hex hex_laws lower _ key 32 (omega arith) refl refl in
      let nonce_read = decode_array_lem hex hex_laws lower _ nonce 12 (omega arith) refl refl in
      let aad_read = decode_text hex hex_laws lower _ aad (omega arith) refl in
      (v, rw (key_read, nonce_read, aad_read, made, e), h)

  zero_vector-Decrypts :
      (v : TestVector) × (zero_vector a hex ≡ some v) × Decrypts a laws hex hex_laws v
  unfolding zero_vector
  zero_vector-Decrypts =
      let (cipher, made) = laws.new_from_slice_lem (replicate 32 0) refl in
      let (v, e, h) =
        encoded_vector-Decrypts cipher "zero_key_nonce" "Zero key and nonce" 0 (replicate 12 0)
          (codes "test") 4 made (omega arith) (omega arith) refl (omega arith) refl (omega arith) in
      (v, rw (made, e), h)

  -- With the laws of `HexLaws` and `WritesLowerHex`, and of an AEAD with keys of 32 bytes, `main`
  -- does not panic; in each vector, ciphertext and tag joined are decrypted, under the key, the nonce
  -- and the additional data shown, to the text shown, and all sizes are those of the file.
  pub poly1305_test_file-VectorDecrypts :
      (file : ChaCha20Poly1305TestFile) × (poly1305_test_file a hex ≡ some file)
      × All (VectorDecrypts a hex file.key_size file.nonce_size file.tag_size) file.test_vectors
  unfolding poly1305_test_file
  poly1305_test_file-VectorDecrypts =
      let (first, e1, h1) = counter_vectors-Decrypts in
      let (sixth, e2, h2) = session_vector-Decrypts in
      let (long, e3, h3) = long_vectors-Decrypts in
      let (ninth, e4, h4) = rfc_vector-Decrypts in
      let (tenth, e5, h5) = zero_vector-Decrypts in
      (
        record {
          algorithm = "ChaCha20-Poly1305";
          description = "AEAD per RFC 8439, compatible with TOS P2P encryption";
          key_size = 32;
          nonce_size = 12;
          tag_size = 16;
          test_vectors = first ++ (sixth ∷ (long ++ (ninth ∷ tenth ∷ [])));
        },
        rw (e1, e2, e3, e4, e5),
        All-append _ first _ h1 (h2, All-append _ long _ h3 (h4, (h5, tt))),
      )
