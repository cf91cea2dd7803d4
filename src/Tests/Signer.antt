-- ===== src/Tests/Signer.antt =====
-- Examples for the signer, over the small parameters.
use tos_spec.Base.{
  ℕ, ◌^◌, ◌<◌, ◌≡◌, ◌↔◌, ◌⊎◌, refl, List, [], ◌∷◌, ◌++◌, replicate, length, none, some, true, arith,
}
use tos_spec.Base.{All, length-replicate}
use tos_spec.Signer.Result.{ok, value_error, ◌>>=◌, private_key_length}
use tos_spec.Signer.Writer.{
  with_capacity, write_u8, write_u16, write_u64, write_bytes, write_bool, write_optional_vec_u8,
  into_vec,
}
use tos_spec.Base.Bytes.{to_be_bytes}
use tos_spec.Signer.Schnorr.{
  get_public_key, get_public_key_from_private, sign, hash_and_point_to_scalar, keypair_from_byte,
  nonce, sign_data, sign_with_key,
}
use tos_spec.Signer.Schnorr.Verify.{
  Verifies, sign_data-Verifies, sign_with_key-Verifies, nonce-ne-zero,
}
use tos_spec.Signer.Frame.{Frame, build_signing_bytes}
use tos_spec.Signer.Frame.Parse.{
  Fits, parse_frame, parse_frame-build_signing_bytes, build_signing_bytes-eq-ok_iff,
}
use tos_spec.Signer.Transfer.{
  Transfer, write_transfer, encode_from, encode_transfer_payload_inner, read_transfer, read_tuple,
  read_asset, read_destination, read_amount, read_extra_data, get_item, encode_transfer_payload,
  encode_burn_payload,
}
use tos_spec.Signer.Transfer.Format.{payload_bytes, parse_payload}
use tos_spec.Signer.Transfer.Encode.{
  IsChecked, AreShort, read_transfers, parse_payload-encode_transfer_payload,
  encode_transfer_payload_lem,
}
use tos_spec.Signer.Transfer.Oversized.{
  encode_transfer_payload_oversized, parse_burn, parse_burn-encode_burn_payload,
}
use tos_spec.Signer.Transaction.{sign_transfer}
use tos_spec.Signer.Transaction.Laws.{transfer_frame, sign_transfer_lem, sign_transfer-Verifies}
use tos_spec.Signer.Shield.{ShieldCrypto, make_shield_crypto}
use tos_spec.Signer.Shield.Verify.{ShieldVerifies, make_shield_crypto-ShieldVerifies}
use tos_spec.Tests.Toy.{
  toy_curve, toy_laws, toy_digest, toy_rng, toy_merlin, toy_python, toy_python_laws, transfer_with,
  transfer_zeros,
}

abbrev message : List ℕ
message = 1 ∷ 2 ∷ 3 ∷ []

abbrev key : List ℕ
key = replicate 32 5

abbrev frame : Frame
frame = record {
  version = 1;
  chain_id = 2;
  source = replicate 32 3;
  tx_type_id = 1;
  encoded_payload = message;
  fee = 1000;
  fee_type = 0;
  nonce = 4;
  ref_hash = replicate 32 5;
  ref_topo = 6;
}

frame-Fits : Fits frame
frame-Fits = record {
  version_u8 = omega arith;
  chain_id_u8 = omega arith;
  source_32 = refl;
  tx_type_id_u8 = omega arith;
  fee_u64 = omega arith;
  fee_type_u8 = omega arith;
  nonce_u64 = omega arith;
  ref_hash_32 = refl;
  ref_topo_u64 = omega arith;
}

sign_data-Verifies_example :
    (public : toy_curve.Point) × (get_public_key toy_curve {E = Unit} 7
      ≡ ok (toy_curve.compress public))
    × (signature : List ℕ) × (sign_data toy_curve toy_digest {E = Unit} message 7 ≡ ok signature)
    × Verifies toy_curve toy_digest public message signature
sign_data-Verifies_example = sign_data-Verifies toy_curve toy_laws toy_digest {E = Unit} message 7

sign_with_key-Verifies_example :
    ((length key ≡ 32)
      × (public : toy_curve.Point) × (get_public_key_from_private toy_curve {E = Unit} key
          ≡ ok (toy_curve.compress public))
      × (signature : List ℕ) × (sign_with_key toy_curve toy_digest {E = Unit} message key
          ≡ ok signature)
      × Verifies toy_curve toy_digest public message signature)
    ⊎ (¬ (length key ≡ 32)
        × (get_public_key_from_private toy_curve {E = Unit} key
            ≡ value_error (private_key_length (length key)))
        × (sign_with_key toy_curve toy_digest {E = Unit} message key
            ≡ value_error (private_key_length (length key))))
sign_with_key-Verifies_example =
    sign_with_key-Verifies toy_curve toy_laws toy_digest {E = Unit} message key

nonce-ne-zero_example : ¬ (nonce toy_curve toy_digest true message message ≡ toy_curve.from_u64 0)
nonce-ne-zero_example =
    nonce-ne-zero toy_curve toy_laws toy_digest (λ e. ground (arith, e)) true message message

parse_frame-build_signing_bytes_example :
    (bytes : List ℕ) × (build_signing_bytes {E = Unit} frame ≡ ok bytes)
    × (length bytes ≡ 95)
    × (parse_frame bytes ≡ some frame)
parse_frame-build_signing_bytes_example =
    parse_frame-build_signing_bytes {E = Unit} frame frame-Fits

build_signing_bytes-eq-ok_iff_example :
    ((bytes : List ℕ) × (build_signing_bytes {E = Unit} frame ≡ ok bytes))
    ↔ ((length frame.source ≡ 32) × (length frame.ref_hash ≡ 32))
build_signing_bytes-eq-ok_iff_example = build_signing_bytes-eq-ok_iff {E = Unit} frame

-- What the encoder reads of `transfer_with`.
abbrev read_of : List ℕ → Transfer
read_of extra = record {
  asset = replicate 32 1;
  destination = replicate 32 2;
  amount = 9;
  extra_data = some extra;
}

abbrev two_transfers : List toy_python.Object
two_transfers = transfer_with (8 ∷ []) ∷ transfer_with [] ∷ []

encode_transfer_payload_lem_example :
    encode_transfer_payload toy_python two_transfers
    ≡ (do ts ← read_transfers toy_python 0 two_transfers; ok (payload_bytes ts))
encode_transfer_payload_lem_example = encode_transfer_payload_lem toy_python two_transfers

parse_payload-encode_transfer_payload_example :
    (ts : List Transfer) × (read_transfers toy_python 0 two_transfers ≡ ok ts)
    × All IsChecked ts
    × (0 < 2)
    × (2 < 2 ^ 16
        → AreShort ts
        → parse_payload (payload_bytes (read_of (8 ∷ []) ∷ read_of [] ∷ [])) ≡ some ts)
unfolding read_transfers read_transfer read_tuple read_asset read_destination read_amount
    read_extra_data get_item
parse_payload-encode_transfer_payload_example =
    parse_payload-encode_transfer_payload toy_python toy_python_laws two_transfers
      (payload_bytes (read_of (8 ∷ []) ∷ read_of [] ∷ []))
      (encode_transfer_payload_lem toy_python two_transfers)

parse_burn-encode_burn_payload_example : (length key ≡ 32) ↔ (
    (bytes : List ℕ) × (encode_burn_payload {E = Unit} key 9 ≡ ok bytes)
    × (length bytes ≡ 40)
    × (parse_burn bytes ≡ some (key, 9)))
parse_burn-encode_burn_payload_example =
    parse_burn-encode_burn_payload {E = Unit} key 9 (omega arith)

sign_transfer_lem_example :
    sign_transfer toy_curve toy_digest toy_python 7 1 2 3 0 key 4 two_transfers ≡ (do
      source ← get_public_key toy_curve 7
      payload ← encode_transfer_payload toy_python two_transfers
      bytes ← build_signing_bytes (transfer_frame 1 source payload 2 3 0 key 4)
      sign_data toy_curve toy_digest bytes 7)
sign_transfer_lem_example =
    sign_transfer_lem toy_curve toy_laws toy_digest toy_python 7 1 2 3 0 key 4 two_transfers

make_shield_crypto-ShieldVerifies_example :
    (s : ShieldCrypto) × (make_shield_crypto toy_curve toy_merlin toy_rng toy_digest {E = Unit} 7
        100
      ≡ ok s)
    × ShieldVerifies toy_curve toy_merlin 100 (keypair_from_byte toy_curve 7).1 s
make_shield_crypto-ShieldVerifies_example =
    make_shield_crypto-ShieldVerifies toy_curve toy_laws toy_merlin toy_rng toy_digest {E = Unit} 7
      100

encode_transfer_payload_oversized_example :
    (bytes : List ℕ) × (encode_transfer_payload toy_python (transfer_zeros 65536 ∷ []) ≡ ok bytes)
    × (parse_payload bytes ≡ none)
unfolding read_transfer read_tuple read_asset read_destination read_amount read_extra_data get_item
encode_transfer_payload_oversized_example =
    encode_transfer_payload_oversized toy_python toy_python_laws (transfer_zeros 65536)
      (read_of (replicate 65536 0)) (replicate 65536 0) refl refl
      (omega (arith, length-replicate {A = ℕ} 65536 0))

abbrev expected_signature : List ℕ
expected_signature = replicate 32 0 ++ (1 ∷ replicate 31 0)

sign_transfer-Verifies_example :
    let public = (keypair_from_byte toy_curve 7).1 in
    (payload : List ℕ) × (encode_transfer_payload toy_python two_transfers ≡ ok payload)
    × (bytes : List ℕ) × (build_signing_bytes {E = Unit}
          (transfer_frame 1 (toy_curve.compress public) payload 2 3 0 key 4)
        ≡ ok bytes)
    × Verifies toy_curve toy_digest public bytes expected_signature
unfolding sign_transfer encode_transfer_payload_inner encode_from read_transfer read_tuple
    read_asset read_destination read_amount read_extra_data get_item write_transfer
    write_optional_vec_u8 with_capacity write_u8 write_u16 write_u64 write_bytes write_bool into_vec
    to_be_bytes sign nonce hash_and_point_to_scalar keypair_from_byte
sign_transfer-Verifies_example =
    sign_transfer-Verifies toy_curve toy_laws toy_digest toy_python 7 1 2 3 0 key 4 two_transfers
      expected_signature refl
