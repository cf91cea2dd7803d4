-- ===== src/HashVectors/Agrees.antt =====
-- The vectors of gen_sha256_vectors.rs and gen_sha512_vectors.rs: inputs, lengths and digests.
use tos_spec.Base.{ℕ, ◌≡◌, refl, arith, List, [], String, Option, some, length, All}
use tos_spec.Base.{replicate}
use tos_spec.Base.Bytes.{AreBytes, codes, sequence}
use tos_spec.Crypto.{Hex, HexLaws}
use tos_spec.HashVectors.{
  TestVector, sha256, sha512, hash_vector, empty_string, nist_256, nist_512, letters,
  sha256_vectors, sha256_test_file, sha512_vectors, sha512_test_file,
}

-- The vector shows an input of the length that it gives, and the digest of it, of the file's size.
pub record HashAgrees (hex : Hex) (digest : List ℕ → List ℕ) (size : ℕ) (v : TestVector)
    : Type 0 where
  pub input : List ℕ
  pub input_shown : hex.decode v.input_hex ≡ some input
  pub input_size : v.input_length ≡ length input
  pub digest_shown : hex.decode v.expected_hex ≡ some (digest input)
  pub digest_size : length (digest input) ≡ size

module _ (hex : Hex) (laws : HexLaws hex) (digest : List ℕ → List ℕ) (size : ℕ)
    (digest_bytes : (m : List ℕ) → AreBytes (digest m) × (length (digest m) ≡ size)) where
  pub hash_vector-HashAgrees :
      (name : String) (description : Option String) (input : List ℕ) (ascii : Option String) (n : ℕ)
      → AreBytes input
      → n ≡ length input
      → HashAgrees hex digest size
          (hash_vector hex (λ m. hex.encode (digest m)) name description input ascii n)
  unfolding hash_vector
  hash_vector-HashAgrees name description input ascii n h e = record {
    input = input;
    input_shown = laws.decode-encode input h;
    input_size = e;
    digest_shown = laws.decode-encode (digest input) (digest_bytes input).0;
    digest_size = (digest_bytes input).1;
  }

  pub empty_string-HashAgrees :
      HashAgrees hex digest size (empty_string (λ m. hex.encode (digest m)))
  unfolding empty_string
  empty_string-HashAgrees = record {
    input = [];
    input_shown = laws.decode_nil;
    input_size = refl;
    digest_shown = laws.decode-encode (digest []) (digest_bytes []).0;
    digest_size = (digest_bytes []).1;
  }

  sha256_vectors-HashAgrees : All (HashAgrees hex digest size) (sha256_vectors hex digest)
  unfolding sha256_vectors sha256
  sha256_vectors-HashAgrees = (
    empty_string-HashAgrees,
    (
      hash_vector-HashAgrees _ _ (codes "abc") _ _ (omega arith) refl,
      (
        hash_vector-HashAgrees _ _ (codes "Hello, world!") _ _ (omega arith) refl,
        (
          hash_vector-HashAgrees _ _ (letters 55) _ _ (omega arith) refl,
          (
            hash_vector-HashAgrees _ _ (letters 56) _ _ (omega arith) refl,
            (
              hash_vector-HashAgrees _ _ (letters 64) _ _ (omega arith) refl,
              (
                hash_vector-HashAgrees _ _ (letters 128) _ _ (omega arith) refl,
                (
                  hash_vector-HashAgrees _ _ nist_256 _ _ (omega arith) refl,
                  (hash_vector-HashAgrees _ _ (sequence 256 0) _ _ (omega arith) refl, tt),
                ),
              ),
            ),
          ),
        ),
      ),
    ),
  )

  sha512_vectors-HashAgrees : All (HashAgrees hex digest size) (sha512_vectors hex digest)
  unfolding sha512_vectors sha512
  sha512_vectors-HashAgrees = (
    empty_string-HashAgrees,
    (
      hash_vector-HashAgrees _ _ (codes "abc") _ _ (omega arith) refl,
      (
        hash_vector-HashAgrees _ _ (codes "Hello, world!") _ _ (omega arith) refl,
        (
          hash_vector-HashAgrees _ _ (letters 111) _ _ (omega arith) refl,
          (
            hash_vector-HashAgrees _ _ (letters 112) _ _ (omega arith) refl,
            (
              hash_vector-HashAgrees _ _ (letters 128) _ _ (omega arith) refl,
              (
                hash_vector-HashAgrees _ _ (letters 256) _ _ (omega arith) refl,
                (
                  hash_vector-HashAgrees _ _ nist_512 _ _ (omega arith) refl,
                  (
                    hash_vector-HashAgrees _ _ (sequence 256 0) _ _ (omega arith) refl,
                    (hash_vector-HashAgrees _ _ (replicate 32 0x01) _ _ (omega arith) refl, tt),
                  ),
                ),
              ),
            ),
          ),
        ),
      ),
    ),
  )

-- With the laws of `HexLaws` and digests of 32 and of 64 bytes, each vector of the two files shows
-- an input, its length, and its digest in the size that the file gives.
pub hash_test_files-HashAgrees :
    (hex : Hex) (laws : HexLaws hex) (digest_256 digest_512 : List ℕ → List ℕ)
    → ((m : List ℕ) → AreBytes (digest_256 m) × (length (digest_256 m) ≡ 32))
    → ((m : List ℕ) → AreBytes (digest_512 m) × (length (digest_512 m) ≡ 64))
    → let file_256 = sha256_test_file hex digest_256 in
      let file_512 = sha512_test_file hex digest_512 in
      All (HashAgrees hex digest_256 file_256.output_size) file_256.test_vectors
      × All (HashAgrees hex digest_512 file_512.output_size) file_512.test_vectors
unfolding sha256_test_file sha512_test_file
hash_test_files-HashAgrees hex laws digest_256 digest_512 h256 h512 = (
  sha256_vectors-HashAgrees hex laws digest_256 32 h256,
  sha512_vectors-HashAgrees hex laws digest_512 64 h512,
)
