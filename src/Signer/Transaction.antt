-- ===== src/Signer/Transaction.antt =====
-- rust_py/tos_signer/src/lib.rs: `sign_transfer`, a transfer built and signed in one call.
pub mod Laws
use tos_spec.Base.{ℕ, ◌+◌, List, length, if◌then◌else◌, ◌==◌}
use tos_spec.Crypto.{Curve}
use tos_spec.Signer.Result.{PyResult, ok, value_error, ◌>>=◌, ref_hash_length}
use tos_spec.Signer.Writer.{Writer, with_capacity, write_u8, write_u64, write_bytes, into_vec}
use tos_spec.Signer.Schnorr.{keypair_from_byte, sign}
use tos_spec.Signer.Transfer.{Python, encode_transfer_payload_inner}

module _ (c : Curve) (sha3_512 : List ℕ → List ℕ) (py : Python) where
  unfoldable pub sign_transfer :
      ℕ → ℕ → ℕ → ℕ → ℕ → List ℕ → ℕ → List py.Object → PyResult py.PyErr (List ℕ)
  sign_transfer seed_byte chain_id nonce fee fee_type ref_hash ref_topo transfers =
      let (private, public) = keypair_from_byte c seed_byte in
      let source = c.compress public in
      if length ref_hash == 32
      then (do
        payload ← encode_transfer_payload_inner py transfers
        let w = with_capacity (92 + length payload)
        let w1 = write_u8 w 1
        let w2 = write_u8 w1 chain_id
        let w3 = write_bytes w2 source
        let w4 = write_u8 w3 1
        let w5 = write_bytes w4 payload
        let w6 = write_u64 w5 fee
        let w7 = write_u8 w6 fee_type
        let w8 = write_u64 w7 nonce
        let w9 = write_bytes w8 ref_hash
        let w10 = write_u64 w9 ref_topo
        let signing_bytes = into_vec w10
        ok (sign c sha3_512 private source signing_bytes))
      else value_error (ref_hash_length (length ref_hash))
