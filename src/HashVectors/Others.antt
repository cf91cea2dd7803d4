-- ===== src/HashVectors/Others.antt =====
-- rust_generators/crypto/gen_sha3_vectors.rs, gen_keccak256_vectors.rs and gen_blake3_vectors.rs: the
-- vectors that each `main` makes. The digests of the crates `sha3`, `tiny_keccak` and `blake3` are
-- parameters.
pub mod Agrees
use tos_spec.Base.{ℕ, List, [], ◌∷◌, ◌++◌, none, some, length, replicate}
use tos_spec.Base.Bytes.{codes, sequence}
use tos_spec.Crypto.{Hex}
use tos_spec.HashVectors.{TestVector, HashTestFile, hash_vector, empty_string, letters}

-- `sha3_512`, `keccak256` and `blake3_hash` of the code: the digest in hexadecimal.
unfoldable pub sha3_512 : Hex → (List ℕ → List ℕ) → List ℕ → List ℕ
sha3_512 hex digest input = hex.encode (digest input)

unfoldable pub keccak256 : Hex → (List ℕ → List ℕ) → List ℕ → List ℕ
keccak256 hex digest input = hex.encode (digest input)

unfoldable pub blake3_hash : Hex → (List ℕ → List ℕ) → List ℕ → List ℕ
blake3_hash hex digest input = hex.encode (digest input)

-- A public key of zeros, a message, and a point of zeros.
abbrev pub signature_input : List ℕ
signature_input = replicate 32 0 ++ (codes "Hello, world!" ++ replicate 32 0)

module _ (hex : Hex) (digest : List ℕ → List ℕ) where
  unfoldable pub sha3_vectors : List TestVector
  sha3_vectors =
      let hash = sha3_512 hex digest in
      let vector = hash_vector hex hash in
      empty_string hash
      ∷ vector "abc" none (codes "abc") (some "abc") 3
      ∷ vector "hello_world" (some "Message used in TOS signature tests") (codes "Hello, world!")
          (some "Hello, world!") 13
      ∷ vector "71_bytes_a" (some "One byte less than SHA3-512 block size") (letters 71) none 71
      ∷ vector "72_bytes_a" (some "Exactly one SHA3-512 block (72 bytes)") (letters 72) none 72
      ∷ vector "73_bytes_a" (some "One byte more than SHA3-512 block size") (letters 73) none 73
      ∷ vector "144_bytes_a" (some "Exactly two SHA3-512 blocks (144 bytes)") (letters 144) none 144
      ∷ vector "tos_signature_hash"
          (some "TOS hash_and_point_to_scalar style: pubkey(32) + message + point(32)")
          signature_input none (length signature_input)
      ∷ []

  -- `main` of gen_sha3_vectors.rs up to the writing of the file.
  unfoldable pub sha3_test_file : HashTestFile
  sha3_test_file = record {
    algorithm = "SHA3-512";
    output_size = 64;
    block_size = 72;
    test_vectors = sha3_vectors;
  }

  unfoldable pub keccak256_vectors : List TestVector
  keccak256_vectors =
      let hash = keccak256 hex digest in
      let vector = hash_vector hex hash in
      empty_string hash
      ∷ vector "abc" none (codes "abc") (some "abc") 3
      ∷ vector "hello_world" none (codes "Hello, world!") (some "Hello, world!") 13
      ∷ vector "secp256k1_pubkey" (some "64-byte public key for address derivation")
          (replicate 64 0x04) none 64
      ∷ vector "135_bytes_a" (some "One byte less than Keccak256 block size") (letters 135) none 135
      ∷ vector "136_bytes_a" (some "Exactly one Keccak256 block (136 bytes)") (letters 136) none 136
      ∷ vector "137_bytes_a" (some "One byte more than Keccak256 block size") (letters 137) none 137
      ∷ vector "272_bytes_a" (some "Exactly two Keccak256 blocks (272 bytes)") (letters 272) none
          272
      ∷ vector "all_bytes" (some "All byte values 0x00-0xFF") (sequence 256 0) none 256
      ∷ vector "pda_seed" (some "32-byte seed for PDA derivation") (replicate 32 0xff) none 32
      ∷ []

  -- `main` of gen_keccak256_vectors.rs up to the writing of the file.
  unfoldable pub keccak256_test_file : HashTestFile
  keccak256_test_file = record {
    algorithm = "Keccak256";
    output_size = 32;
    block_size = 136;
    test_vectors = keccak256_vectors;
  }

  unfoldable pub blake3_vectors : List TestVector
  blake3_vectors =
      let hash = blake3_hash hex digest in
      let vector = hash_vector hex hash in
      empty_string hash
      ∷ vector "abc" none (codes "abc") (some "abc") 3
      ∷ vector "hello_world" none (codes "Hello, world!") (some "Hello, world!") 13
      ∷ vector "63_bytes_a" (some "One byte less than BLAKE3 chunk size") (letters 63) none 63
      ∷ vector "64_bytes_a" (some "Exactly one BLAKE3 chunk (64 bytes)") (letters 64) none 64
      ∷ vector "65_bytes_a" (some "One byte more than BLAKE3 chunk size") (letters 65) none 65
      ∷ vector "1024_bytes_a" (some "1024 bytes spanning multiple chunks") (letters 1024) none 1024
      ∷ vector "all_bytes" (some "All byte values 0x00-0xFF") (sequence 256 0) none 256
      ∷ vector "tx_hash" (some "32-byte transaction data hash") (replicate 32 0x42) none 32
      ∷ []

  -- `main` of gen_blake3_vectors.rs up to the writing of the file.
  unfoldable pub blake3_test_file : HashTestFile
  blake3_test_file = record {
    algorithm = "BLAKE3";
    output_size = 32;
    block_size = 64;
    test_vectors = blake3_vectors;
  }
