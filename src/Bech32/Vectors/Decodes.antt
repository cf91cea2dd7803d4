-- ===== src/Bech32/Vectors/Decodes.antt =====
-- The vectors of gen_bech32_vectors.rs and the decoder.
use tos_spec.Base.{ℕ, ◌≡◌, refl, arith}
use tos_spec.Base.{
  List, [], ◌∷◌, String, Option, some, Bool, true, false, All, replicate, if◌then◌else◌,
}
use tos_spec.Base.Options.{◌>>=◌}
use tos_spec.Base.Bytes.{AreBytes, codes, sequence}
use tos_spec.Crypto.{Hex, HexLaws}
use tos_spec.Bech32.{encode, to_lowercase}
use tos_spec.Bech32.ConvertBits.{convert_bits}
use tos_spec.Bech32.ConvertBits.Value.{AreDigits}
use tos_spec.Bech32.ConvertBits.RoundTrip.{convert_bits-convert_bits}
use tos_spec.Bech32.Decode.{decode, decode-encode}
use tos_spec.Bech32.Vectors.{
  AddressTestVector, Bech32TestVector, Bech32TestFile, schnorr_key_text, bech32_vector,
  address_vector, test_file,
}

-- The bytes of a text under a prefix, after its checksum.
unfoldable pub decode_bytes : List ℕ → List ℕ → Option (List ℕ)
decode_bytes hrp text = do values ← decode hrp text; convert_bits values 5 8 false

-- The text of the vector decodes to the bytes that it shows.
pub record Decodes (hex : Hex) (v : Bech32TestVector) : Type 0 where
  pub bytes : List ℕ
  pub values : List ℕ
  pub bytes_shown : hex.decode v.data_hex ≡ some bytes
  pub values_shown : hex.decode v.data_5bit_hex ≡ some values
  pub values_small : AreDigits 5 values
  pub decoded : decode v.hrp v.encoded ≡ some values
  pub regrouped : convert_bits values 5 8 false ≡ some bytes

-- The address of the vector decodes, under the prefix of its network, to the type 0 and the public
-- key that it shows.
pub record AddressDecodes (hex : Hex) (mainnet testnet : List ℕ) (v : AddressTestVector)
    : Type 0 where
  pub public_key : List ℕ
  pub key_shown : hex.decode v.public_key_hex ≡ some public_key
  pub decoded :
      decode_bytes (if v.mainnet then mainnet else testnet) v.address ≡ some (0 ∷ public_key)

-- Bytes under a prefix in lower case, encoded and decoded.
encoded_bytes :
    (hrp bytes : List ℕ)
    → AreBytes hrp
    → to_lowercase hrp ≡ hrp
    → AreBytes bytes
    → (values : List ℕ) × (text : List ℕ) × (convert_bits bytes 8 5 true ≡ some values)
      × (encode hrp values ≡ some text)
      × AreDigits 5 values
      × (decode hrp text ≡ some values)
      × (convert_bits values 5 8 false ≡ some bytes)
encoded_bytes hrp bytes h lower hb =
    let (values, e, small, size, back) = convert_bits-convert_bits bytes hb in
    let (text, encoded, front, text_size, decoded) = decode-encode hrp values h small in
    (values, text, e, encoded, small, rw lower at decoded, back)

quintets-AreBytes : (vs : List ℕ) → AreDigits 5 vs → AreBytes vs
quintets-AreBytes [] q = tt
quintets-AreBytes (v ∷ vs) q = (omega (arith, q.0), quintets-AreBytes vs q.1)

prefix-AreBytes : (b : Bool) → AreBytes (if b then codes "tos" else codes "tst")
prefix-AreBytes true = omega arith
prefix-AreBytes false = omega arith

prefix_lower :
    (b : Bool) → let hrp = if b then codes "tos" else codes "tst" in to_lowercase hrp ≡ hrp
unfolding to_lowercase
prefix_lower true = refl
prefix_lower false = refl

module _ (hex : Hex) (laws : HexLaws hex) where
  bech32_vector-Decodes :
      (name description : String) (hrp bytes : List ℕ)
      → AreBytes hrp
      → to_lowercase hrp ≡ hrp
      → AreBytes bytes
      → (v : Bech32TestVector) × (bech32_vector hex name description hrp bytes ≡ some v)
        × Decodes hex v
  unfolding bech32_vector
  bech32_vector-Decodes name description hrp bytes h lower hb =
      let (values, text, e, encoded, small, decoded, back) = encoded_bytes hrp bytes h lower hb in
      (
        record {
          name = name;
          description = some description;
          hrp = hrp;
          data_hex = hex.encode bytes;
          data_5bit_hex = hex.encode values;
          encoded = text;
        },
        rw (e, encoded),
        record {
          bytes = bytes;
          values = values;
          bytes_shown = laws.decode-encode bytes hb;
          values_shown = laws.decode-encode values (quintets-AreBytes values small);
          values_small = small;
          decoded = decoded;
          regrouped = back;
        },
      )

  address_vector-AddressDecodes :
      (name description : String) (mainnet : Bool) (public_key : List ℕ)
      → AreBytes public_key
      → let hrp = if mainnet then codes "tos" else codes "tst" in
        (v : AddressTestVector) × (address_vector hex name description mainnet hrp public_key
          ≡ some v)
        × AddressDecodes hex (codes "tos") (codes "tst") v
  unfolding address_vector decode_bytes
  address_vector-AddressDecodes name description mainnet public_key hb =
      let hrp = if mainnet then codes "tos" else codes "tst" in
      let (values, text, e, encoded, small, decoded, back) =
        encoded_bytes hrp (0 ∷ public_key) (prefix-AreBytes mainnet) (prefix_lower mainnet)
          (omega arith, hb) in
      (
        record {
          name = name;
          description = some description;
          mainnet = mainnet;
          public_key_hex = hex.encode public_key;
          address = text;
        },
        rw (e, encoded),
        record {
          public_key = public_key;
          key_shown = laws.decode-encode public_key hb;
          decoded = rw decoded back;
        },
      )

  -- With the laws of `HexLaws`, where the text of the last key decodes, `main` does not panic; the
  -- text of each vector decodes to the bytes that the vector shows, and each address, under the
  -- prefix of its network, to the type 0 and the public key that it shows.
  pub test_file-Decodes :
      (key : List ℕ)
      → hex.decode schnorr_key_text ≡ some key
      → (file : Bech32TestFile) × (test_file hex ≡ some file)
        × All (Decodes hex) file.bech32_vectors
        × All (AddressDecodes hex file.mainnet_prefix file.testnet_prefix) file.address_vectors
  unfolding test_file
  test_file-Decodes key e =
      let tos_lower : to_lowercase (codes "tos") ≡ codes "tos" = unfold to_lowercase in refl in
      let tst_lower : to_lowercase (codes "tst") ≡ codes "tst" = unfold to_lowercase in refl in
      let (b1, e1, h1) =
        bech32_vector-Decodes "simple_tos" "Simple 4-byte encoding with tos prefix" (codes "tos")
          (0x00 ∷ 0x14 ∷ 0x75 ∷ 0x1e ∷ []) (omega arith) tos_lower (omega arith) in
      let (b2, e2, h2) =
        bech32_vector-Decodes "simple_tst" "Simple 4-byte encoding with tst prefix" (codes "tst")
          (0xab ∷ 0xcd ∷ 0xef ∷ 0x12 ∷ []) (omega arith) tst_lower (omega arith) in
      let (a1, e3, k1) =
        address_vector-AddressDecodes "zeros_mainnet" "All-zeros public key on mainnet" true
          (replicate 32 0) (omega arith) in
      let (a2, e4, k2) =
        address_vector-AddressDecodes "zeros_testnet" "All-zeros public key on testnet" false
          (replicate 32 0) (omega arith) in
      let (a3, e5, k3) =
        address_vector-AddressDecodes "sequential_mainnet"
          "Sequential bytes 0x00..0x1f as public key" true (sequence 32 0) (omega arith) in
      let (a4, e6, k4) =
        address_vector-AddressDecodes "all_ff_testnet" "All 0xFF bytes as public key on testnet"
          false (replicate 32 0xff) (omega arith) in
      let (a5, e7, k5) =
        address_vector-AddressDecodes "schnorr_pubkey_mainnet"
          "Public key from Schnorr test vector on mainnet" true key
          (laws.decode-AreBytes schnorr_key_text key e) in
      (
        record {
          algorithm = "Bech32";
          mainnet_prefix = codes "tos";
          testnet_prefix = codes "tst";
          bech32_vectors = b1 ∷ b2 ∷ [];
          address_vectors = a1 ∷ a2 ∷ a3 ∷ a4 ∷ a5 ∷ [];
        },
        rw (e1, e2, e3, e4, e5, e6, e, e7),
        (h1, (h2, tt)),
        (k1, (k2, (k3, (k4, (k5, tt))))),
      )
