-- ===== src/SchnorrVectors.antt =====
-- rust_generators/crypto/gen_schnorr_vectors.rs: signatures with a given nonce, and the vectors that
-- `main` makes of them. Names and descriptions are strings; texts in hexadecimal are lists of codes.
pub mod Verify
use tos_spec.Base.{ℕ, List, [], ◌∷◌, ◌++◌, String, Option, none, some, replicate}
use tos_spec.Base.Bytes.{codes, sequence}
use tos_spec.Crypto.{Curve, Hex}

pub record TestVector : Type 0 where
  pub name : String
  pub description : Option String
  pub private_key_hex : List ℕ
  pub public_key_hex : List ℕ
  pub message_hex : List ℕ
  pub message_ascii : Option String
  pub k_hex : List ℕ
  pub signature_s_hex : List ℕ
  pub signature_e_hex : List ℕ

pub record GeneratorInfo : Type 0 where
  pub name : String
  pub description : String
  pub compressed_hex : List ℕ

pub record SchnorrTestFile : Type 0 where
  pub algorithm : String
  pub curve : String
  pub hash : String
  pub signature_size : ℕ
  pub generators : List GeneratorInfo
  pub test_vectors : List TestVector

-- The keys and nonces of the four blocks.
abbrev pub hello_key : List ℕ
hello_key = sequence 31 1 ++ (0 ∷ [])

abbrev pub hello_k : List ℕ
hello_k =
    0xaa ∷ 0xbb ∷ 0xcc ∷ 0xdd ∷ 0xee ∷ 0xff ∷ 0x00 ∷ 0x11 ∷ 0x22 ∷ 0x33 ∷ 0x44 ∷ 0x55 ∷ 0x66 ∷ 0x77
    ∷ 0x88 ∷ 0x99 ∷ 0x01 ∷ 0x23 ∷ 0x45 ∷ 0x67 ∷ 0x89 ∷ 0xab ∷ 0xcd ∷ 0xef ∷ 0xfe ∷ 0xdc ∷ 0xba
    ∷ 0x98 ∷ 0x76 ∷ 0x54 ∷ 0x32 ∷ 0x00 ∷ []

-- 31 times a byte, then a last one.
abbrev pub filled : ℕ → ℕ → List ℕ
filled b last = replicate 31 b ++ (last ∷ [])

module _ (c : Curve) (sha3_512 : List ℕ → List ℕ) where
  unfoldable pub hash_and_point_to_scalar : List ℕ → List ℕ → List ℕ → c.Scalar
  hash_and_point_to_scalar pubkey_compressed message r_compressed =
      c.from_bytes_mod_order_wide (sha3_512 (pubkey_compressed ++ (message ++ r_compressed)))

  unfoldable pub sign_deterministic :
      c.Scalar → c.Point → List ℕ → c.Scalar → c.Point → c.Scalar × c.Scalar
  sign_deterministic private_key public_key message k h =
      let r = c.smul k h in
      let e = hash_and_point_to_scalar (c.compress public_key) message (c.compress r) in
      (c.add (c.mul (c.invert private_key) e) k, e)

module _ (c : Curve) (hex : Hex) (sha3_512 : List ℕ → List ℕ) where
  -- One block of `main`; `message_hex` is given, since one block writes it as a literal.
  unfoldable pub test_vector :
      String → String → List ℕ → List ℕ → List ℕ → List ℕ → Option String → TestVector
  test_vector name description priv_bytes k_bytes message message_hex message_ascii =
      let h = c.base_blinding in
      let private_key = c.from_bytes_mod_order priv_bytes in
      let public_key = c.smul (c.invert private_key) h in
      let k = c.from_bytes_mod_order k_bytes in
      let (s, e) = sign_deterministic c sha3_512 private_key public_key message k h in
      record {
        name = name;
        description = some description;
        private_key_hex = hex.encode (c.as_bytes private_key);
        public_key_hex = hex.encode (c.compress public_key);
        message_hex = message_hex;
        message_ascii = message_ascii;
        k_hex = hex.encode (c.as_bytes k);
        signature_s_hex = hex.encode (c.as_bytes s);
        signature_e_hex = hex.encode (c.as_bytes e);
      }

  unfoldable pub hello_world : TestVector
  hello_world =
      test_vector "hello_world" "Standard test message with deterministic keys" hello_key hello_k
        (codes "Hello, world!") (hex.encode (codes "Hello, world!")) (some "Hello, world!")

  unfoldable pub empty_message : TestVector
  empty_message =
      test_vector "empty_message" "Empty message test" (filled 0x11 0x01) (filled 0x22 0x02) [] []
        (some "")

  unfoldable pub sixty_four_bytes : TestVector
  sixty_four_bytes =
      test_vector "64_bytes_0x55" "64-byte message (hash output size)" (filled 0x33 0x03)
        (filled 0x44 0x04) (replicate 64 0x55) (hex.encode (replicate 64 0x55)) none

  unfoldable pub thirty_two_zeros : TestVector
  thirty_two_zeros =
      test_vector "32_zeros" "32 zero bytes message" (filled 0x77 0x07) (filled 0x88 0x08)
        (replicate 32 0) (hex.encode (replicate 32 0)) none

  unfoldable pub generators : List GeneratorInfo
  generators =
      record {
        name = "G";
        description = "Pedersen commitment base point (B)";
        compressed_hex = hex.encode (c.compress c.base);
      }
      ∷ record {
        name = "H";
        description = "Pedersen blinding generator (B_blinding) - used for TOS signatures";
        compressed_hex = hex.encode (c.compress c.base_blinding);
      }
      ∷ []

  -- `main` up to the writing of the file.
  unfoldable pub schnorr_test_file : SchnorrTestFile
  schnorr_test_file = record {
    algorithm = "TOS-Schnorr";
    curve = "Ristretto255";
    hash = "SHA3-512";
    signature_size = 64;
    generators = generators;
    test_vectors = hello_world ∷ empty_message ∷ sixty_four_bytes ∷ thirty_two_zeros ∷ [];
  }
