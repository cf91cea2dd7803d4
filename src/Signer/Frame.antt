-- ===== src/Signer/Frame.antt =====
-- rust_py/tos_signer/src/lib.rs: `build_signing_bytes`, the bytes of a transaction that are signed.
pub mod Parse
use tos_spec.Base.{ℕ, ◌+◌, List, length, if◌then◌else◌, ◌==◌}
use tos_spec.Signer.Result.{PyResult, ok, value_error, source_length, ref_hash_length}
use tos_spec.Signer.Writer.{Writer, with_capacity, write_u8, write_u64, write_bytes, into_vec}

-- The arguments of `build_signing_bytes`, in their order.
pub record Frame : Type 0 where
  pub version : ℕ
  pub chain_id : ℕ
  pub source : List ℕ
  pub tx_type_id : ℕ
  pub encoded_payload : List ℕ
  pub fee : ℕ
  pub fee_type : ℕ
  pub nonce : ℕ
  pub ref_hash : List ℕ
  pub ref_topo : ℕ

-- The writes, in the order of the code.
unfoldable pub write_frame : Frame → Writer
unfolding with_capacity write_u8 write_u64 write_bytes
write_frame f =
    let w = with_capacity (92 + length f.encoded_payload) in
    let w = write_u8 w f.version in
    let w = write_u8 w f.chain_id in
    let w = write_bytes w f.source in
    let w = write_u8 w f.tx_type_id in
    let w = write_bytes w f.encoded_payload in
    let w = write_u64 w f.fee in
    let w = write_u8 w f.fee_type in
    let w = write_u64 w f.nonce in let w = write_bytes w f.ref_hash in write_u64 w f.ref_topo

unfoldable pub build_signing_bytes : {E : Type 0} → Frame → PyResult E (List ℕ)
unfolding into_vec
build_signing_bytes f =
    if length f.source == 32
    then if length f.ref_hash == 32
      then ok (into_vec (write_frame f))
      else value_error (ref_hash_length (length f.ref_hash))
    else value_error (source_length (length f.source))
