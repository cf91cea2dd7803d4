-- ===== src/Tests/Bech32.antt =====
-- Examples for the Bech32 encoder.
use tos_spec.Base.{
  ℕ, ◌^◌, ◌*◌, ◌+◌, ◌/◌, ◌<◌, ◌≡◌, ◌≢◌, refl, List, [], ◌∷◌, ◌++◌, some, true, false, length, take,
  arith,
}
use tos_spec.Base.Bytes.{codes}
use tos_spec.Bech32.{polymod, to_lowercase, encode}
use tos_spec.Bech32.Checksum.{polymod_one_error}
use tos_spec.Bech32.ConvertBits.{convert_bits}
use tos_spec.Bech32.ConvertBits.Value.{AreDigits, digits_value}
use tos_spec.Bech32.ConvertBits.RoundTrip.{convert_bits-pad, convert_bits-convert_bits}
use tos_spec.Bech32.Decode.{decode, decode-encode}
use tos_spec.Base.{All}
use tos_spec.Bech32.Vectors.{Bech32TestFile, schnorr_key_text, test_file}
use tos_spec.Bech32.Vectors.Decodes.{Decodes, AddressDecodes, test_file-Decodes}
use tos_spec.Tests.Toy.{toy_hex, toy_hex_laws}

polymod_one_error_example : polymod (3 ∷ 4 ∷ 5 ∷ []) ≢ polymod (3 ∷ 9 ∷ 5 ∷ [])
polymod_one_error_example =
    polymod_one_error (3 ∷ []) (5 ∷ []) 4 9 (omega arith) (omega arith) (omega arith) (omega arith)
      (λ e. omega (arith, e))

convert_bits-pad_example :
    (out : List ℕ) × (p : ℕ) × (convert_bits (0xab ∷ 0xcd ∷ []) 8 5 true ≡ some out)
    × AreDigits 5 out
    × (p < 5)
    × (5 * length out ≡ 16 + p)
    × (digits_value 5 0 out ≡ digits_value 8 0 (0xab ∷ 0xcd ∷ []) * 2 ^ p)
convert_bits-pad_example =
    convert_bits-pad 8 5 (omega arith) (omega arith) (omega arith) (0xab ∷ 0xcd ∷ []) (omega arith)

convert_bits-convert_bits_example :
    (values : List ℕ) × (convert_bits (0xab ∷ 0xcd ∷ 0xef ∷ []) 8 5 true ≡ some values)
    × AreDigits 5 values
    × (length values ≡ 28 / 5)
    × (convert_bits values 5 8 false ≡ some (0xab ∷ 0xcd ∷ 0xef ∷ []))
convert_bits-convert_bits_example =
    convert_bits-convert_bits (0xab ∷ 0xcd ∷ 0xef ∷ []) (omega arith)

decode-encode_example :
    (text : List ℕ) × (encode (codes "TOS") (0 ∷ 31 ∷ 7 ∷ []) ≡ some text)
    × (take 4 text ≡ to_lowercase (codes "TOS") ++ (b'1' ∷ []))
    × (length text ≡ 13)
    × (decode (to_lowercase (codes "TOS")) text ≡ some (0 ∷ 31 ∷ 7 ∷ []))
decode-encode_example = decode-encode (codes "TOS") (0 ∷ 31 ∷ 7 ∷ []) (omega arith) (omega arith)

test_file-Decodes_example :
    (file : Bech32TestFile) × (test_file toy_hex ≡ some file)
    × All (Decodes toy_hex) file.bech32_vectors
    × All (AddressDecodes toy_hex file.mainnet_prefix file.testnet_prefix) file.address_vectors
test_file-Decodes_example = test_file-Decodes toy_hex toy_hex_laws schnorr_key_text refl
