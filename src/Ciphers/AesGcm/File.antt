-- ===== src/Ciphers/AesGcm/File.antt =====
-- The whole file of gen_aes_gcm_vectors.rs.
use tos_spec.Base.{ℕ, ◌≡◌, ◌⊎◌, inl, inr, refl, arith, List, [], ◌∷◌, ◌++◌}
use tos_spec.Base.{none, some, replicate, All, All-append, All-map}
use tos_spec.Base.Bytes.{codes, sequence}
use tos_spec.Crypto.{Hex, HexLaws}
use tos_spec.Crypto.LowerHex.{WritesLowerHex}
use tos_spec.Ciphers.{Aead, AeadLaws}
use tos_spec.Ciphers.Agrees.{decode_array_lem}
use tos_spec.Ciphers.AesGcm.{
  TestVector, AesGcmTestFile, aes256_vectors, aes128_vectors, nist_vector, aes_gcm_test_file, hello,
  extra,
}
use tos_spec.Ciphers.AesGcm.Decrypts.{GcmDecrypts, gcm_vector-GcmDecrypts}

module _ (a : Aead) (laws : AeadLaws a 32) (hex : Hex) (hex_laws : HexLaws hex)
    (lower : WritesLowerHex hex) where
  aes256_vectors-GcmDecrypts :
      (vs : List TestVector) × (aes256_vectors a hex ≡ some vs) × All (GcmDecrypts a hex 12 16) vs
  unfolding aes256_vectors
  aes256_vectors-GcmDecrypts =
      let next = gcm_vector-GcmDecrypts a 32 laws hex hex_laws in
      let secret : List ℕ = codes "secret message" in
      let (c1, made1) = laws.new_from_slice_lem (replicate 32 0x42) refl in
      let (c3, made3) = laws.new_from_slice_lem (replicate 32 0x01) refl in
      let (c4, made4) = laws.new_from_slice_lem (replicate 32 0xab) refl in
      let (v1, e1, h1) =
        next "aes256_empty" "AES-256-GCM empty plaintext" (replicate 32 0x42) (replicate 12 0) none
          [] [] 0 c1 made1 (omega arith) refl (omega arith) refl tt tt hex_laws.decode_nil refl
          (omega arith) in
      let (v2, e2, h2) =
        next "aes256_hello" "AES-256-GCM simple message" (replicate 32 0x42) (replicate 12 0) none
          hello (hex.encode hello) 13 c1 made1 (omega arith) refl (omega arith) refl tt
          (omega arith) (hex_laws.decode-encode hello (omega arith)) refl (omega arith) in
      let (v3, e3, h3) =
        next "aes256_with_aad" "AES-256-GCM with AAD" (replicate 32 0x01) (sequence 12 0)
          (some extra) secret (hex.encode secret) 14 c3 made3 (omega arith) refl (omega arith) refl
          (omega arith) (omega arith) (hex_laws.decode-encode secret (omega arith)) refl
          (omega arith) in
      let (v4, e4, h4) =
        next "aes256_64bytes" "AES-256-GCM 64-byte plaintext" (replicate 32 0xab)
          (replicate 12 0xcd) none (replicate 64 0) (hex.encode (replicate 64 0)) 64 c4 made4
          (omega arith) refl (omega arith) refl tt (omega arith)
          (hex_laws.decode-encode (replicate 64 0) (omega arith)) refl (omega arith) in
      (v1 ∷ v2 ∷ v3 ∷ v4 ∷ [], rw (made1, e1, e2, made3, e3, made4, e4), (h1, (h2, (h3, (h4, tt)))))

  nist_vector-GcmDecrypts :
      (v : TestVector) × (nist_vector a hex ≡ some v) × GcmDecrypts a hex 12 16 v
  unfolding nist_vector
  nist_vector-GcmDecrypts =
      let key : List ℕ = replicate 32 0 in
      let nonce : List ℕ = replicate 12 0 in
      let (cipher, made) = laws.new_from_slice_lem key refl in
      let (v, e, h) =
        gcm_vector-GcmDecrypts a 32 laws hex hex_laws "nist_aes256_tc14"
          "NIST GCM Test Case 14 (zero key/nonce, empty plaintext)" key nonce none [] [] 0 cipher
          made (omega arith) refl (omega arith) refl tt tt hex_laws.decode_nil refl (omega arith) in
      let key_read = decode_array_lem hex hex_laws lower _ key 32 (omega arith) refl refl in
      let nonce_read = decode_array_lem hex hex_laws lower _ nonce 12 (omega arith) refl refl in
      (v, rw (key_read, nonce_read, made, e), h)

aes128_vectors-GcmDecrypts :
    (a : Aead) (laws : AeadLaws a 16) (hex : Hex) (hex_laws : HexLaws hex)
    → (vs : List TestVector) × (aes128_vectors a hex ≡ some vs) × All (GcmDecrypts a hex 12 16) vs
unfolding aes128_vectors
aes128_vectors-GcmDecrypts a laws hex hex_laws =
    let next = gcm_vector-GcmDecrypts a 16 laws hex hex_laws in
    let secret : List ℕ = codes "secret message" in
    let (c5, made5) = laws.new_from_slice_lem (replicate 16 0x42) refl in
    let (c7, made7) = laws.new_from_slice_lem (replicate 16 0x01) refl in
    let (v5, e5, h5) =
      next "aes128_empty" "AES-128-GCM empty plaintext" (replicate 16 0x42) (replicate 12 0) none []
        [] 0 c5 made5 (omega arith) refl (omega arith) refl tt tt hex_laws.decode_nil refl
        (omega arith) in
    let (v6, e6, h6) =
      next "aes128_hello" "AES-128-GCM simple message" (replicate 16 0x42) (replicate 12 0) none
        hello (hex.encode hello) 13 c5 made5 (omega arith) refl (omega arith) refl tt (omega arith)
        (hex_laws.decode-encode hello (omega arith)) refl (omega arith) in
    let (v7, e7, h7) =
      next "aes128_with_aad" "AES-128-GCM with AAD" (replicate 16 0x01) (sequence 12 0) (some extra)
        secret (hex.encode secret) 14 c7 made7 (omega arith) refl (omega arith) refl (omega arith)
        (omega arith) (hex_laws.decode-encode secret (omega arith)) refl (omega arith) in
    (v5 ∷ v6 ∷ v7 ∷ [], rw (made5, e5, e6, made7, e7), (h5, (h6, (h7, tt))))

-- With the laws of `HexLaws` and `WritesLowerHex`, and of two AEADs with keys of 32 and of 16 bytes,
-- `main` does not panic; in each vector, ciphertext and tag joined are decrypted by one of the two,
-- under the key, the nonce and the additional data shown, to the text shown.
pub aes_gcm_test_file-GcmDecrypts :
    (aes256 aes128 : Aead) (laws256 : AeadLaws aes256 32) (laws128 : AeadLaws aes128 16) (hex : Hex)
    (hex_laws : HexLaws hex) (lower : WritesLowerHex hex)
    → (file : AesGcmTestFile) × (aes_gcm_test_file aes256 aes128 hex ≡ some file)
      × All
          (λ v.
            GcmDecrypts aes256 hex file.nonce_size file.tag_size v
            ⊎ GcmDecrypts aes128 hex file.nonce_size file.tag_size v)
          file.test_vectors
unfolding aes_gcm_test_file
aes_gcm_test_file-GcmDecrypts aes256 aes128 laws256 laws128 hex hex_laws lower =
    let (first, e1, h1) = aes256_vectors-GcmDecrypts aes256 laws256 hex hex_laws lower in
    let (second, e2, h2) = aes128_vectors-GcmDecrypts aes128 laws128 hex hex_laws in
    let (last, e3, h3) = nist_vector-GcmDecrypts aes256 laws256 hex hex_laws lower in
    (
      record {
        algorithm = "AES-GCM";
        nonce_size = 12;
        tag_size = 16;
        test_vectors = first ++ (second ++ (last ∷ []));
      },
      rw (e1, e2, e3),
      All-append _ first _ (All-map (λ v h. inl h) first h1)
          (All-append _ second _ (All-map (λ v h. inr h) second h2) (inl h3, tt)),
    )
