-- ===== src/Bech32/Vectors.antt =====
-- rust_generators/crypto/gen_bech32_vectors.rs: the vectors that `main` makes. Names and
-- descriptions are strings; prefixes, addresses and texts in hexadecimal are lists of codes. `none`
-- is a panic.
pub mod Decodes
use tos_spec.Base.{ℕ, List, [], ◌∷◌, ◌++◌, String, Option, none, some, Bool, true, false, replicate}
use tos_spec.Base.Options.{◌>>=◌}
use tos_spec.Base.Bytes.{codes, sequence}
use tos_spec.Crypto.{Hex}
use tos_spec.Bech32.{encode}
use tos_spec.Bech32.ConvertBits.{convert_bits}

pub record AddressTestVector : Type 0 where
  pub name : String
  pub description : Option String
  pub mainnet : Bool
  pub public_key_hex : List ℕ
  pub address : List ℕ

pub record Bech32TestVector : Type 0 where
  pub name : String
  pub description : Option String
  pub hrp : List ℕ
  pub data_hex : List ℕ
  pub data_5bit_hex : List ℕ
  pub encoded : List ℕ

pub record Bech32TestFile : Type 0 where
  pub algorithm : String
  pub mainnet_prefix : List ℕ
  pub testnet_prefix : List ℕ
  pub bech32_vectors : List Bech32TestVector
  pub address_vectors : List AddressTestVector

abbrev pub schnorr_key_text : List ℕ
schnorr_key_text = codes "3cc4fec02e2342dca15352d5c5c27135f9e42c5805c07ca9dc500e000f89a665"

module _ (hex : Hex) where
  -- One block of `main` for bytes under a prefix.
  unfoldable pub bech32_vector : String → String → List ℕ → List ℕ → Option Bech32TestVector
  bech32_vector name description hrp bytes = do
    data_5bit ← convert_bits bytes 8 5 true
    encoded ← encode hrp data_5bit
    some (record {
      name = name;
      description = some description;
      hrp = hrp;
      data_hex = hex.encode bytes;
      data_5bit_hex = hex.encode data_5bit;
      encoded = encoded;
    })

  -- One block of `main` for a public key: a byte 0 for `AddressType::Normal`, then the key.
  unfoldable pub address_vector :
      String → String → Bool → List ℕ → List ℕ → Option AddressTestVector
  address_vector name description mainnet hrp public_key =
      let raw = (0 ∷ []) ++ public_key in
      do
        data_5bit ← convert_bits raw 8 5 true
        address ← encode hrp data_5bit
        some (record {
          name = name;
          description = some description;
          mainnet = mainnet;
          public_key_hex = hex.encode public_key;
          address = address;
        })

  -- `main` up to the writing of the file.
  unfoldable pub test_file : Option Bech32TestFile
  test_file = do
    b1 ←
        bech32_vector "simple_tos" "Simple 4-byte encoding with tos prefix" (codes "tos")
          (0x00 ∷ 0x14 ∷ 0x75 ∷ 0x1e ∷ [])
    b2 ←
        bech32_vector "simple_tst" "Simple 4-byte encoding with tst prefix" (codes "tst")
          (0xab ∷ 0xcd ∷ 0xef ∷ 0x12 ∷ [])
    a1 ←
        address_vector "zeros_mainnet" "All-zeros public key on mainnet" true (codes "tos")
          (replicate 32 0)
    a2 ←
        address_vector "zeros_testnet" "All-zeros public key on testnet" false (codes "tst")
          (replicate 32 0)
    a3 ←
        address_vector "sequential_mainnet" "Sequential bytes 0x00..0x1f as public key" true
          (codes "tos") (sequence 32 0)
    a4 ←
        address_vector "all_ff_testnet" "All 0xFF bytes as public key on testnet" false
          (codes "tst") (replicate 32 0xff)
    public_key ← hex.decode schnorr_key_text
    a5 ←
        address_vector "schnorr_pubkey_mainnet" "Public key from Schnorr test vector on mainnet"
          true (codes "tos") public_key
    some (record {
      algorithm = "Bech32";
      mainnet_prefix = codes "tos";
      testnet_prefix = codes "tst";
      bech32_vectors = b1 ∷ b2 ∷ [];
      address_vectors = a1 ∷ a2 ∷ a3 ∷ a4 ∷ a5 ∷ [];
    })
