-- ===== src/Discv6/Vectors.antt =====
-- rust_generators/crypto/gen_discv6_vectors.rs: the vectors of identities, distances and buckets.
-- Names and descriptions of vectors are strings; a text in hexadecimal is the list of its codes.
pub mod Consistent
use tos_spec.Base.{ℕ, List, [], ◌∷◌, ◌++◌, String, Option, none, some, replicate, set}
use tos_spec.Base.Bytes.{codes, sequence}
use tos_spec.Crypto.{Curve, Hex}
use tos_spec.Discv6.Distance.{xor_distance, log2_distance}
use tos_spec.Discv6.Identity.{keypair_from_secret_bytes, compute_node_id}

pub record IdentityVector : Type 0 where
  pub name : String
  pub description : Option String
  pub secret_key_hex : List ℕ
  pub public_key_hex : List ℕ
  pub node_id_hex : List ℕ

pub record XorDistanceVector : Type 0 where
  pub name : String
  pub description : Option String
  pub node_id_a_hex : List ℕ
  pub node_id_b_hex : List ℕ
  pub xor_distance_hex : List ℕ

pub record Log2DistanceVector : Type 0 where
  pub name : String
  pub description : Option String
  pub node_id_a_hex : List ℕ
  pub node_id_b_hex : List ℕ
  pub bucket_index : Option ℕ

-- `[0u8; 32]` with one byte set.
abbrev pub one_byte : ℕ → ℕ → List ℕ
one_byte i v = set (replicate 32 0) i v

abbrev pub seed_secret : List ℕ
seed_secret = codes "tos discovery test seed 12345678"

abbrev pub pattern_secret : List ℕ
pattern_secret =
    0x1a ∷ 0x2b ∷ 0x3c ∷ 0x4d ∷ 0x5e ∷ 0x6f ∷ 0x70 ∷ 0x81 ∷ 0x92 ∷ 0xa3 ∷ 0xb4 ∷ 0xc5 ∷ 0xd6 ∷ 0xe7
    ∷ 0xf8 ∷ 0x09 ∷ 0x10 ∷ 0x21 ∷ 0x32 ∷ 0x43 ∷ 0x54 ∷ 0x65 ∷ 0x76 ∷ 0x87 ∷ 0x98 ∷ 0xa9 ∷ 0xba
    ∷ 0xcb ∷ 0xdc ∷ 0xed ∷ 0xfe ∷ 0x0f ∷ []

abbrev pub pattern_e : List ℕ
pattern_e =
    0x12 ∷ 0x34 ∷ 0x56 ∷ 0x78 ∷ 0x9a ∷ 0xbc ∷ 0xde ∷ 0xf0 ∷ 0x11 ∷ 0x22 ∷ 0x33 ∷ 0x44 ∷ 0x55 ∷ 0x66
    ∷ 0x77 ∷ 0x88 ∷ 0x99 ∷ 0xaa ∷ 0xbb ∷ 0xcc ∷ 0xdd ∷ 0xee ∷ 0xff ∷ 0x00 ∷ 0x01 ∷ 0x02 ∷ 0x03
    ∷ 0x04 ∷ 0x05 ∷ 0x06 ∷ 0x07 ∷ 0x08 ∷ []

abbrev pub pattern_f : List ℕ
pattern_f =
    0xfe ∷ 0xdc ∷ 0xba ∷ 0x98 ∷ 0x76 ∷ 0x54 ∷ 0x32 ∷ 0x10 ∷ 0xee ∷ 0xdd ∷ 0xcc ∷ 0xbb ∷ 0xaa ∷ 0x99
    ∷ 0x88 ∷ 0x77 ∷ 0x66 ∷ 0x55 ∷ 0x44 ∷ 0x33 ∷ 0x22 ∷ 0x11 ∷ 0x00 ∷ 0xff ∷ 0xfe ∷ 0xfd ∷ 0xfc
    ∷ 0xfb ∷ 0xfa ∷ 0xf9 ∷ 0xf8 ∷ 0xf7 ∷ []

module _ (c : Curve) (hex : Hex) (sha3_256 : List ℕ → List ℕ) where
  -- One `if let` of the code: no vector for a secret that gives no key.
  unfoldable pub push_identity :
      String → String → List ℕ → List IdentityVector → List IdentityVector
  push_identity name description secret vectors = elim (keypair_from_secret_bytes c secret) [
    | none ↦ vectors
    | some (scalar, pubkey) ↦
        vectors
        ++ (record {
          name = name;
          description = some description;
          secret_key_hex = hex.encode (c.as_bytes scalar);
          public_key_hex = hex.encode pubkey;
          node_id_hex = hex.encode (compute_node_id sha3_256 pubkey);
        }
            ∷ [])
  ]

  unfoldable pub generate_identity_vectors : List IdentityVector
  generate_identity_vectors =
      let v1 = push_identity "zero_secret" "Secret key of all zeros" (replicate 32 0) [] in
      let v2 = push_identity "ones_secret" "Secret key of all 0xff bytes" (replicate 32 0xff) v1 in
      let v3 =
        push_identity "sequential_secret" "Secret key of sequential bytes 0x00..0x1f"
          (sequence 32 0) v2 in
      let v4 = push_identity "seed_based_secret" "Secret key from ASCII seed" seed_secret v3 in
      push_identity "random_pattern_secret" "Deterministic random-looking pattern" pattern_secret v4

module _ (hex : Hex) where
  -- A vector with the computed distance.
  unfoldable pub xor_vector : String → String → List ℕ → List ℕ → XorDistanceVector
  xor_vector name description a b = record {
    name = name;
    description = some description;
    node_id_a_hex = hex.encode a;
    node_id_b_hex = hex.encode b;
    xor_distance_hex = hex.encode (xor_distance a b);
  }

  unfoldable pub generate_xor_distance_vectors : List XorDistanceVector
  generate_xor_distance_vectors =
      record {
        name = "same_ids";
        description = some "XOR distance between identical IDs is zero";
        node_id_a_hex = hex.encode (replicate 32 0x12);
        node_id_b_hex = hex.encode (replicate 32 0x12);
        xor_distance_hex = hex.encode (replicate 32 0);
      }
      ∷ xor_vector "zeros_vs_ones" "Maximum XOR distance" (replicate 32 0) (replicate 32 0xff)
      ∷ xor_vector "differ_first_byte_msb" "Differ in MSB of first byte (bucket 255)"
          (one_byte 0 0x80) (one_byte 0 0x00)
      ∷ xor_vector "differ_last_bit" "Differ in LSB of last byte (bucket 0)" (one_byte 31 0x00)
          (one_byte 31 0x01)
      ∷ xor_vector "arbitrary_pattern" "XOR of two arbitrary patterns" pattern_e pattern_f
      ∷ []

  unfoldable pub log2_vector : String → String → List ℕ → List ℕ → Log2DistanceVector
  log2_vector name description a b = record {
    name = name;
    description = some description;
    node_id_a_hex = hex.encode a;
    node_id_b_hex = hex.encode b;
    bucket_index = log2_distance a b;
  }

  unfoldable pub generate_log2_distance_vectors : List Log2DistanceVector
  generate_log2_distance_vectors =
      record {
        name = "same_ids";
        description = some "Identical IDs have no bucket index";
        node_id_a_hex = hex.encode (replicate 32 0x12);
        node_id_b_hex = hex.encode (replicate 32 0x12);
        bucket_index = none;
      }
      ∷ log2_vector "bucket_255" "Differ in MSB of first byte" (one_byte 0 0x80) (one_byte 0 0x00)
      ∷ log2_vector "bucket_0" "Differ in LSB of last byte" (one_byte 31 0x00) (one_byte 31 0x01)
      ∷ log2_vector "bucket_254" "Differ in second bit of first byte" (one_byte 0 0x40)
          (one_byte 0 0x00)
      ∷ log2_vector "bucket_247" "Differ in MSB of second byte" (one_byte 1 0x80) (one_byte 1 0x00)
      ∷ log2_vector "bucket_3" "Differ in bit 4 of last byte (0x08)" (one_byte 31 0x08)
          (one_byte 31 0x00)
      ∷ log2_vector "bucket_127" "Differ in MSB of middle byte (index 16)" (one_byte 16 0x80)
          (one_byte 16 0x00)
      ∷ []
