-- ===== src/Signer/Transaction/Laws.antt =====
-- `sign_transfer` of rust_py/tos_signer/src/lib.rs against the functions that it repeats.
use tos_spec.Base.{ℕ, subst, List, ◌≡◌, refl, ◌∙◌, sym, length, ◌==◌, if◌then◌else◌, eq_cases}
use tos_spec.Base.{inl, inr}
use tos_spec.Crypto.{Curve, CurveLaws}
use tos_spec.Signer.Result.{ok, value_error, ◌>>=◌, >>=-eq-ok, >>=_cong, ref_hash_length}
use tos_spec.Signer.Writer.{into_vec}
use tos_spec.Signer.Schnorr.{keypair_from_byte, get_public_key, sign, sign_data}
use tos_spec.Signer.Schnorr.Verify.{Verifies, sign-keypair_from_byte-Verifies}
use tos_spec.Signer.Frame.{Frame, write_frame, build_signing_bytes}
use tos_spec.Signer.Transfer.{Python, encode_transfer_payload_inner, encode_transfer_payload}
use tos_spec.Signer.Transaction.{sign_transfer}

-- The frame of a transfer: version 1, transaction type 1.
abbrev pub transfer_frame : ℕ → List ℕ → List ℕ → ℕ → ℕ → ℕ → List ℕ → ℕ → Frame
transfer_frame chain_id source payload nonce fee fee_type ref_hash ref_topo = record {
  version = 1;
  chain_id = chain_id;
  source = source;
  tx_type_id = 1;
  encoded_payload = payload;
  fee = fee;
  fee_type = fee_type;
  nonce = nonce;
  ref_hash = ref_hash;
  ref_topo = ref_topo;
}

module _ (c : Curve) (laws : CurveLaws c) (sha3_512 : List ℕ → List ℕ) (py : Python) where
  -- Over a curve with the laws of `CurveLaws`, `sign_transfer` returns what the separate calls
  -- return one after the other: the public key of the seed, the payload, the signed bytes of the
  -- frame, and the signature of them; but a reference hash of a wrong length is refused before the
  -- transfers are looked at.
  pub sign_transfer_lem :
      (seed_byte chain_id nonce fee fee_type : ℕ) (ref_hash : List ℕ) (ref_topo : ℕ)
      (transfers : List py.Object)
      → sign_transfer c sha3_512 py seed_byte chain_id nonce fee fee_type ref_hash ref_topo
          transfers
        ≡ (if length ref_hash == 32
            then (do
              source ← get_public_key c seed_byte
              payload ← encode_transfer_payload py transfers
              bytes ←
                  build_signing_bytes
                    (transfer_frame chain_id source payload nonce fee fee_type ref_hash ref_topo)
              sign_data c sha3_512 bytes seed_byte)
            else value_error (ref_hash_length (length ref_hash)))
  unfolding sign_transfer get_public_key encode_transfer_payload build_signing_bytes sign_data
  sign_transfer_lem seed_byte chain_id nonce fee fee_type ref_hash ref_topo transfers =
      elim (eq_cases (length ref_hash) 32) [
        | inl (test, e) ↦ rw test (
            >>=_cong (encode_transfer_payload_inner py transfers) (λ payload _.
              rw (laws.length-compress (keypair_from_byte c seed_byte).1)
                (unfold write_frame into_vec in refl)))
        | inr (test, ne) ↦ rw test
      ]

  -- Over a curve with the laws of `CurveLaws`, a signature that `sign_transfer` returns verifies,
  -- under the public key of the seed, over the frame with the payload that `encode_transfer_payload`
  -- returns for the same transfers.
  pub sign_transfer-Verifies :
      (seed_byte chain_id nonce fee fee_type : ℕ) (ref_hash : List ℕ) (ref_topo : ℕ)
      (transfers : List py.Object) (signature : List ℕ)
      → sign_transfer c sha3_512 py seed_byte chain_id nonce fee fee_type ref_hash ref_topo
          transfers
        ≡ ok signature
      → let public = (keypair_from_byte c seed_byte).1 in
        (payload : List ℕ) × (encode_transfer_payload py transfers ≡ ok payload)
        × (bytes : List ℕ) × (build_signing_bytes {E = py.PyErr} (
              transfer_frame chain_id
                (c.compress public)
                payload
                nonce
                fee
                fee_type
                ref_hash
                ref_topo)
            ≡ ok bytes)
        × Verifies c sha3_512 public bytes signature
  unfolding get_public_key sign_data
  sign_transfer-Verifies seed_byte chain_id nonce fee fee_type ref_hash ref_topo transfers signature
        e =
      let lem =
        sign_transfer_lem seed_byte chain_id nonce fee fee_type ref_hash ref_topo transfers in
      let keys = keypair_from_byte c seed_byte in
      elim (eq_cases (length ref_hash) 32) [
        | inl (test, _) ↦
            let (payload, encoded, e1) =
              >>=-eq-ok (encode_transfer_payload py transfers) _ (rw test at (sym lem ∙ e)) in
            let (bytes, built, e2) =
              >>=-eq-ok
                (build_signing_bytes {E = py.PyErr} (
                  transfer_frame chain_id (c.compress keys.1) payload nonce fee fee_type ref_hash
                    ref_topo))
                _ e1 in
            let same : sign c sha3_512 keys.0 (c.compress keys.1) bytes ≡ signature = cc in
            (
              payload,
              encoded,
              bytes,
              built,
              subst (Verifies c sha3_512 keys.1 bytes) same
                  (sign-keypair_from_byte-Verifies c laws sha3_512 seed_byte bytes),
            )
        | inr (test, _) ↦ cc (rw test at (sym lem ∙ e))
      ]
