-- ===== src/HashVectors/Others/Agrees.antt =====
-- The vectors of gen_sha3_vectors.rs, gen_keccak256_vectors.rs and gen_blake3_vectors.rs.
use tos_spec.Base.{ℕ, ◌≡◌, refl, arith, List, none, some, length, All, replicate, All-replicate}
use tos_spec.Base.Bytes.{AreBytes, IsByte, codes, sequence, sequence-AreBytes}
use tos_spec.Crypto.{Hex, HexLaws}
use tos_spec.HashVectors.{letters, sha256_test_file, sha512_test_file}
use tos_spec.HashVectors.Agrees.{
  HashAgrees, hash_vector-HashAgrees, empty_string-HashAgrees, hash_test_files-HashAgrees,
}
use tos_spec.HashVectors.Others.{
  sha3_512, keccak256, blake3_hash, signature_input, sha3_vectors, sha3_test_file,
  keccak256_vectors, keccak256_test_file, blake3_vectors, blake3_test_file,
}

module _ (hex : Hex) (laws : HexLaws hex) (digest : List ℕ → List ℕ) (size : ℕ)
    (digest_bytes : (m : List ℕ) → AreBytes (digest m) × (length (digest m) ≡ size)) where
  sha3_vectors-HashAgrees : All (HashAgrees hex digest size) (sha3_vectors hex digest)
  unfolding sha3_vectors sha3_512
  sha3_vectors-HashAgrees =
      let next = hash_vector-HashAgrees hex laws digest size digest_bytes in
      (
        empty_string-HashAgrees hex laws digest size digest_bytes,
        (
          next "abc" none (codes "abc") (some "abc") 3 (omega arith) refl,
          (
            next "hello_world" (some "Message used in TOS signature tests") (codes "Hello, world!")
                (some "Hello, world!") 13 (omega arith) refl,
            (
              next "71_bytes_a" (some "One byte less than SHA3-512 block size") (letters 71) none 71
                  (All-replicate IsByte 71 0x61 (omega arith)) refl,
              (
                next "72_bytes_a" (some "Exactly one SHA3-512 block (72 bytes)") (letters 72) none
                    72 (All-replicate IsByte 72 0x61 (omega arith)) refl,
                (
                  next "73_bytes_a" (some "One byte more than SHA3-512 block size") (letters 73)
                      none 73 (All-replicate IsByte 73 0x61 (omega arith)) refl,
                  (
                    next "144_bytes_a" (some "Exactly two SHA3-512 blocks (144 bytes)")
                        (letters 144) none 144 (All-replicate IsByte 144 0x61 (omega arith)) refl,
                    (
                      next "tos_signature_hash"
                          (some
                            "TOS hash_and_point_to_scalar style: pubkey(32) + message + point(32)")
                          signature_input none (length signature_input) (omega arith) refl,
                      tt,
                    ),
                  ),
                ),
              ),
            ),
          ),
        ),
      )

  keccak256_vectors-HashAgrees : All (HashAgrees hex digest size) (keccak256_vectors hex digest)
  unfolding keccak256_vectors keccak256
  keccak256_vectors-HashAgrees =
      let next = hash_vector-HashAgrees hex laws digest size digest_bytes in
      (
        empty_string-HashAgrees hex laws digest size digest_bytes,
        (
          next "abc" none (codes "abc") (some "abc") 3 (omega arith) refl,
          (
            next "hello_world" none (codes "Hello, world!") (some "Hello, world!") 13 (omega arith)
                refl,
            (
              next "secp256k1_pubkey" (some "64-byte public key for address derivation")
                  (replicate 64 0x04) none 64 (omega arith) refl,
              (
                next "135_bytes_a" (some "One byte less than Keccak256 block size") (letters 135)
                    none 135 (All-replicate IsByte 135 0x61 (omega arith)) refl,
                (
                  next "136_bytes_a" (some "Exactly one Keccak256 block (136 bytes)") (letters 136)
                      none 136 (All-replicate IsByte 136 0x61 (omega arith)) refl,
                  (
                    next "137_bytes_a" (some "One byte more than Keccak256 block size")
                        (letters 137) none 137 (All-replicate IsByte 137 0x61 (omega arith)) refl,
                    (
                      next "272_bytes_a" (some "Exactly two Keccak256 blocks (272 bytes)")
                          (letters 272) none 272 (All-replicate IsByte 272 0x61 (omega arith)) refl,
                      (
                        next "all_bytes" (some "All byte values 0x00-0xFF") (sequence 256 0) none
                            256 (sequence-AreBytes 256 0) refl,
                        (
                          next "pda_seed" (some "32-byte seed for PDA derivation")
                              (replicate 32 0xff) none 32 (omega arith) refl,
                          tt,
                        ),
                      ),
                    ),
                  ),
                ),
              ),
            ),
          ),
        ),
      )

  blake3_vectors-HashAgrees : All (HashAgrees hex digest size) (blake3_vectors hex digest)
  unfolding blake3_vectors blake3_hash
  blake3_vectors-HashAgrees =
      let next = hash_vector-HashAgrees hex laws digest size digest_bytes in
      (
        empty_string-HashAgrees hex laws digest size digest_bytes,
        (
          next "abc" none (codes "abc") (some "abc") 3 (omega arith) refl,
          (
            next "hello_world" none (codes "Hello, world!") (some "Hello, world!") 13 (omega arith)
                refl,
            (
              next "63_bytes_a" (some "One byte less than BLAKE3 chunk size") (letters 63) none 63
                  (All-replicate IsByte 63 0x61 (omega arith)) refl,
              (
                next "64_bytes_a" (some "Exactly one BLAKE3 chunk (64 bytes)") (letters 64) none 64
                    (All-replicate IsByte 64 0x61 (omega arith)) refl,
                (
                  next "65_bytes_a" (some "One byte more than BLAKE3 chunk size") (letters 65) none
                      65 (All-replicate IsByte 65 0x61 (omega arith)) refl,
                  (
                    next "1024_bytes_a" (some "1024 bytes spanning multiple chunks") (letters 1024)
                        none 1024 (All-replicate IsByte 1024 0x61 (omega arith)) refl,
                    (
                      next "all_bytes" (some "All byte values 0x00-0xFF") (sequence 256 0) none 256
                          (sequence-AreBytes 256 0) refl,
                      (
                        next "tx_hash" (some "32-byte transaction data hash") (replicate 32 0x42)
                            none 32 (omega arith) refl,
                        tt,
                      ),
                    ),
                  ),
                ),
              ),
            ),
          ),
        ),
      )

-- With the laws of `HexLaws` and digests of the sizes that the files give, each vector of the files
-- for SHA-256, SHA-512, SHA3-512, Keccak-256 and BLAKE3 shows an input, its length, and its digest in
-- the size of its file.
pub five_hash_files-HashAgrees :
    (hex : Hex) (laws : HexLaws hex) (sha_256 sha_512 sha_3 keccak blake : List ℕ → List ℕ)
    → ((m : List ℕ) → AreBytes (sha_256 m) × (length (sha_256 m) ≡ 32))
    → ((m : List ℕ) → AreBytes (sha_512 m) × (length (sha_512 m) ≡ 64))
    → ((m : List ℕ) → AreBytes (sha_3 m) × (length (sha_3 m) ≡ 64))
    → ((m : List ℕ) → AreBytes (keccak m) × (length (keccak m) ≡ 32))
    → ((m : List ℕ) → AreBytes (blake m) × (length (blake m) ≡ 32))
    → let file_256 = sha256_test_file hex sha_256 in
      let file_512 = sha512_test_file hex sha_512 in
      let file_3 = sha3_test_file hex sha_3 in
      let file_keccak = keccak256_test_file hex keccak in
      let file_blake = blake3_test_file hex blake in
      All (HashAgrees hex sha_256 file_256.output_size) file_256.test_vectors
      × All (HashAgrees hex sha_512 file_512.output_size) file_512.test_vectors
      × All (HashAgrees hex sha_3 file_3.output_size) file_3.test_vectors
      × All (HashAgrees hex keccak file_keccak.output_size) file_keccak.test_vectors
      × All (HashAgrees hex blake file_blake.output_size) file_blake.test_vectors
unfolding sha3_test_file keccak256_test_file blake3_test_file
five_hash_files-HashAgrees hex laws sha_256 sha_512 sha_3 keccak blake h256 h512 h3 hk hb =
    let (first, second) = hash_test_files-HashAgrees hex laws sha_256 sha_512 h256 h512 in
    (
      first,
      second,
      sha3_vectors-HashAgrees hex laws sha_3 64 h3,
      keccak256_vectors-HashAgrees hex laws keccak 32 hk,
      blake3_vectors-HashAgrees hex laws blake 32 hb,
    )
