-- ===== src/HashVectors.antt =====
-- rust_generators/crypto/gen_sha256_vectors.rs and gen_sha512_vectors.rs: the vectors that each
-- `main` makes. The digests of the `sha2` crate are parameters. Names and descriptions are strings;
-- texts in hexadecimal are lists of codes.
pub mod Agrees
pub mod Others
use tos_spec.Base.{ℕ, List, [], ◌∷◌, String, Option, none, some, length, replicate}
use tos_spec.Base.Bytes.{codes, sequence}
use tos_spec.Crypto.{Hex}

pub record TestVector : Type 0 where
  pub name : String
  pub description : Option String
  pub input_hex : List ℕ
  pub input_ascii : Option String
  pub input_length : ℕ
  pub expected_hex : List ℕ

pub record HashTestFile : Type 0 where
  pub algorithm : String
  pub output_size : ℕ
  pub block_size : ℕ
  pub test_vectors : List TestVector

-- `sha256` and `sha512` of the code: the digest in hexadecimal.
unfoldable pub sha256 : Hex → (List ℕ → List ℕ) → List ℕ → List ℕ
sha256 hex digest input = hex.encode (digest input)

unfoldable pub sha512 : Hex → (List ℕ → List ℕ) → List ℕ → List ℕ
sha512 hex digest input = hex.encode (digest input)

-- One block of `main`, with the length that it writes down and the hash function of its file.
unfoldable pub hash_vector :
    Hex → (List ℕ → List ℕ) → String → Option String → List ℕ → Option String → ℕ → TestVector
hash_vector hex hash name description input ascii input_length = record {
  name = name;
  description = description;
  input_hex = hex.encode input;
  input_ascii = ascii;
  input_length = input_length;
  expected_hex = hash input;
}

-- The first block, which writes the empty input down as a literal.
unfoldable pub empty_string : (List ℕ → List ℕ) → TestVector
empty_string hash = record {
  name = "empty_string";
  description = none;
  input_hex = [];
  input_ascii = some "";
  input_length = 0;
  expected_hex = hash [];
}

abbrev pub nist_256 : List ℕ
nist_256 = codes "abcdbcdecdefdefgefghfghighijhijkijkljklmklmnlmnomnopnopq"

abbrev pub nist_512 : List ℕ
nist_512 =
    codes
      "abcdefghbcdefghicdefghijdefghijkefghijklfghijklmghijklmnhijklmnoijklmnopjklmnopqklmnopqrlmnopqrsmnopqrstnopqrstu"

-- `vec![0x61u8; n]`
abbrev pub letters : ℕ → List ℕ
letters n = replicate n 0x61

module _ (hex : Hex) (digest : List ℕ → List ℕ) where
  unfoldable pub sha256_vectors : List TestVector
  sha256_vectors =
      let hash = sha256 hex digest in
      let vector = hash_vector hex hash in
      empty_string hash
      ∷ vector "abc" none (codes "abc") (some "abc") 3
      ∷ vector "hello_world" none (codes "Hello, world!") (some "Hello, world!") 13
      ∷ vector "55_bytes_a" (some "Max single block input (55 bytes)") (letters 55) none 55
      ∷ vector "56_bytes_a" (some "Requires two blocks (56 bytes)") (letters 56) none 56
      ∷ vector "64_bytes_a" (some "Exactly one SHA256 block (64 bytes)") (letters 64) none 64
      ∷ vector "128_bytes_a" (some "Exactly two SHA256 blocks (128 bytes)") (letters 128) none 128
      ∷ vector "nist_vector" (some "NIST FIPS 180-4 test vector") nist_256
          (some "abcdbcdecdefdefgefghfghighijhijkijkljklmklmnlmnomnopnopq") (length nist_256)
      ∷ vector "all_bytes" (some "All byte values 0x00-0xFF") (sequence 256 0) none 256
      ∷ []

  -- `main` of gen_sha256_vectors.rs up to the writing of the file.
  unfoldable pub sha256_test_file : HashTestFile
  sha256_test_file = record {
    algorithm = "SHA256";
    output_size = 32;
    block_size = 64;
    test_vectors = sha256_vectors;
  }

  unfoldable pub sha512_vectors : List TestVector
  sha512_vectors =
      let hash = sha512 hex digest in
      let vector = hash_vector hex hash in
      empty_string hash
      ∷ vector "abc" none (codes "abc") (some "abc") 3
      ∷ vector "hello_world" none (codes "Hello, world!") (some "Hello, world!") 13
      ∷ vector "111_bytes_a" (some "Max single block input (111 bytes)") (letters 111) none 111
      ∷ vector "112_bytes_a" (some "Requires two blocks (112 bytes)") (letters 112) none 112
      ∷ vector "128_bytes_a" (some "Exactly one SHA512 block (128 bytes)") (letters 128) none 128
      ∷ vector "256_bytes_a" (some "Exactly two SHA512 blocks (256 bytes)") (letters 256) none 256
      ∷ vector "nist_vector" (some "NIST FIPS 180-4 test vector") nist_512
          (some
            "abcdefghbcdefghicdefghijdefghijkefghijklfghijklmghijklmnhijklmnoijklmnopjklmnopqklmnopqrlmnopqrsmnopqrstnopqrstu")
          (length nist_512)
      ∷ vector "all_bytes" (some "All byte values 0x00-0xFF") (sequence 256 0) none 256
      ∷ vector "ed25519_seed" (some "32-byte seed for Ed25519 key expansion") (replicate 32 0x01)
          none 32
      ∷ []

  -- `main` of gen_sha512_vectors.rs up to the writing of the file.
  unfoldable pub sha512_test_file : HashTestFile
  sha512_test_file = record {
    algorithm = "SHA512";
    output_size = 64;
    block_size = 128;
    test_vectors = sha512_vectors;
  }
