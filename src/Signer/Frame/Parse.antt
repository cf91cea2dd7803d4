-- ===== src/Signer/Frame/Parse.antt =====
-- A reader of the signed bytes of rust_py/tos_signer/src/lib.rs. The payload has no length field:
-- it is what is left beside the 92 bytes of the other fields.
use tos_spec.Base.{ℕ, ◌↔◌, ◌+◌, ◌-◌, ◌^◌, ◌<◌, ◌≡◌, refl, arith}
use tos_spec.Base.{List, [], ◌∷◌, ◌++◌, append_assoc, append-nil, length, length-append}
use tos_spec.Base.{Option, some, none}
use tos_spec.Base.Options.{◌>>=◌}
use tos_spec.Base.Bytes.{to_be_bytes, length-to_be_bytes, split_at?, split_at?-append}
use tos_spec.Base.Bytes.{read_be?, read_be?-append}
use tos_spec.Signer.Result.{ok}
use tos_spec.Signer.Writer.{into_vec}
use tos_spec.Signer.Frame.{Frame, write_frame, build_signing_bytes}

-- What the types of the arguments and the checks of the lengths say.
pub record Fits (f : Frame) : Type 0 where
  pub version_u8 : f.version < 2 ^ 8
  pub chain_id_u8 : f.chain_id < 2 ^ 8
  pub source_32 : length f.source ≡ 32
  pub tx_type_id_u8 : f.tx_type_id < 2 ^ 8
  pub fee_u64 : f.fee < 2 ^ 64
  pub fee_type_u8 : f.fee_type < 2 ^ 8
  pub nonce_u64 : f.nonce < 2 ^ 64
  pub ref_hash_32 : length f.ref_hash ≡ 32
  pub ref_topo_u64 : f.ref_topo < 2 ^ 64

unfoldable pub take_u8 : List ℕ → Option (ℕ × List ℕ)
take_u8 [] = none
take_u8 (b ∷ bs) = some (b, bs)

-- The layout that the comment above `build_signing_bytes` gives.
unfoldable pub parse_frame : List ℕ → Option Frame
parse_frame bytes = do
  (version, bytes1) ← take_u8 bytes
  (chain_id, bytes2) ← take_u8 bytes1
  (source, bytes3) ← split_at? 32 bytes2
  (tx_type_id, bytes4) ← take_u8 bytes3
  (payload, bytes5) ← split_at? (length bytes - 92) bytes4
  (fee, bytes6) ← read_be? 8 bytes5
  (fee_type, bytes7) ← take_u8 bytes6
  (nonce, bytes8) ← read_be? 8 bytes7
  (ref_hash, bytes9) ← split_at? 32 bytes8
  (ref_topo, _) ← read_be? 8 bytes9
  some (record {
    version = version;
    chain_id = chain_id;
    source = source;
    tx_type_id = tx_type_id;
    encoded_payload = payload;
    fee = fee;
    fee_type = fee_type;
    nonce = nonce;
    ref_hash = ref_hash;
    ref_topo = ref_topo;
  })

-- The frame behind its payload, and the whole frame.
tail_bytes : Frame → List ℕ
tail_bytes f =
    to_be_bytes 8 f.fee
    ++ (f.fee_type ∷ (to_be_bytes 8 f.nonce ++ (f.ref_hash ++ (to_be_bytes 8 f.ref_topo ++ []))))

frame_bytes : Frame → List ℕ
frame_bytes f =
    f.version ∷ (f.chain_id ∷ (f.source ++ (f.tx_type_id ∷ (f.encoded_payload ++ tail_bytes f))))

write_frame-buf : (f : Frame) → (write_frame f).buf ≡ frame_bytes f
unfolding write_frame frame_bytes tail_bytes
write_frame-buf f = simp (append_assoc, append-nil)

length-frame_bytes : (f : Frame) → Fits f → length (frame_bytes f) ≡ 92 + length f.encoded_payload
unfolding frame_bytes tail_bytes
length-frame_bytes f h = simp (length-append, length-to_be_bytes) (omega arith)

-- Reading back what was written.
parse_frame-frame_bytes : (f : Frame) → Fits f → parse_frame (frame_bytes f) ≡ some f
unfolding parse_frame take_u8
parse_frame-frame_bytes f h =
    let size : length (frame_bytes f) - 92 ≡ length f.encoded_payload =
      omega (arith, length-frame_bytes f h) in
    rw size (
      unfold frame_bytes tail_bytes in
      rw (
        split_at?-append 32 f.source _ h.source_32,
        split_at?-append (length f.encoded_payload) f.encoded_payload _ refl,
        read_be?-append 8 f.fee _ h.fee_u64,
        read_be?-append 8 f.nonce _ h.nonce_u64,
        split_at?-append 32 f.ref_hash _ h.ref_hash_32,
        read_be?-append 8 f.ref_topo _ h.ref_topo_u64,
      ))

-- For numbers in the ranges of their types and a source and a reference hash of 32 bytes,
-- `build_signing_bytes` succeeds, its bytes are 92 more than the payload, and the reader of the
-- layout gives back every argument from them.
pub parse_frame-build_signing_bytes :
    {E : Type 0} (f : Frame)
    → Fits f
    → (bytes : List ℕ) × (build_signing_bytes {E = E} f ≡ ok bytes)
      × (length bytes ≡ 92 + length f.encoded_payload)
      × (parse_frame bytes ≡ some f)
unfolding build_signing_bytes into_vec
parse_frame-build_signing_bytes f h = (
  frame_bytes f,
  rw (h.source_32, h.ref_hash_32, write_frame-buf f),
  length-frame_bytes f h,
  parse_frame-frame_bytes f h,
)

-- `build_signing_bytes` succeeds exactly if the source and the reference hash have 32 bytes each.
pub build_signing_bytes-eq-ok_iff :
    {E : Type 0} (f : Frame)
    → ((bytes : List ℕ) × (build_signing_bytes {E = E} f ≡ ok bytes))
      ↔ ((length f.source ≡ 32) × (length f.ref_hash ≡ 32))
unfolding build_signing_bytes
build_signing_bytes-eq-ok_iff f =
    (λ p. grind (arith, p.1), λ (s, r). (into_vec (write_frame f), rw (s, r)))
