-- ===== src/Signer/Transfer/Oversized.antt =====
-- Extra data in rust_py/tos_signer/src/lib.rs whose length takes more than 16 bits, and the payload
-- of a burn.
use tos_spec.Base.{ℕ, ◌%◌, ◌^◌, ◌≤◌, ◌<◌, ◌≡◌, ◌∙◌, arith, ◌↔◌, false, ltb, ◌==◌}
use tos_spec.Base.{List, [], ◌∷◌, ◌++◌, append-nil, length, length-append, drop, take}
use tos_spec.Base.{Option, some, none, if◌then◌else◌, length-drop}
use tos_spec.Base.Options.{◌>>=◌}
use tos_spec.Base.Bytes.{to_be_bytes, length-to_be_bytes, split_at?, split_at?-append}
use tos_spec.Base.Bytes.{read_be?, read_be?-append}
use tos_spec.Signer.Result.{ok}
use tos_spec.Signer.Writer.{optional_vec_u8, into_vec, write_u64, write_bytes, with_capacity}
use tos_spec.Signer.Transfer.{Python, PythonLaws, Transfer, encode_transfer_payload}
use tos_spec.Signer.Transfer.{encode_burn_payload, read_transfer}
use tos_spec.Signer.Transfer.Format.{
  transfer_bytes, transfers_bytes, payload_bytes, read_extra, read_optional, parse_transfer,
  parse_transfers, parse_payload,
}
use tos_spec.Signer.Transfer.Encode.{
  IsChecked, read_transfers, encode_transfer_payload_lem, read_transfer-IsChecked,
}

-- Extra data of 2 ^ 16 bytes or more is read back as its first bytes, with the others left over.
read_optional_oversized :
    (bytes : List ℕ)
    → 2 ^ 16 ≤ length bytes
    → let n = length bytes % 2 ^ 16 in
      read_optional (optional_vec_u8 (some bytes)) ≡ some (some (take n bytes), drop n bytes)
unfolding read_optional read_extra optional_vec_u8
read_optional_oversized bytes h =
    let n = length bytes % 2 ^ 16 in
    let enough : ltb (length bytes) n ≡ false = ground arith in
    rw (read_be?-append 2 n bytes (omega arith)) (unfold split_at? in rw enough)

parse_payload_one :
    (t : Transfer) (bytes : List ℕ)
    → IsChecked t
    → t.extra_data ≡ some bytes
    → 2 ^ 16 ≤ length bytes
    → parse_payload (payload_bytes (t ∷ [])) ≡ none
unfolding parse_payload payload_bytes parse_transfers parse_transfer transfers_bytes transfer_bytes
parse_payload_one t bytes h e long =
    let n = length bytes % 2 ^ 16 in
    let left : (length (drop n bytes) == 0) ≡ false = ground (arith, length-drop n bytes) in
    rw (
      read_be?-append 2 1 _ (omega arith),
      append-nil,
      split_at?-append 32 t.asset _ h.asset_32,
      split_at?-append 32 t.destination _ h.destination_32,
      read_be?-append 8 t.amount _ h.amount_u64,
      e,
      read_optional_oversized bytes long,
      left,
    )

-- Where extracted numbers lie in the range of `u64`: a single transfer that is read, with extra data
-- of 2 ^ 16 bytes or more, is encoded without an error, and the reader of the wire format refuses
-- the payload.
pub encode_transfer_payload_oversized :
    (py : Python) (laws : PythonLaws py) (item : py.Object) (t : Transfer) (extra : List ℕ)
    → read_transfer py 0 item ≡ ok t
    → t.extra_data ≡ some extra
    → 2 ^ 16 ≤ length extra
    → (bytes : List ℕ) × (encode_transfer_payload py (item ∷ []) ≡ ok bytes)
      × (parse_payload bytes ≡ none)
unfolding read_transfers
encode_transfer_payload_oversized py laws item t extra read e long = (
  payload_bytes (t ∷ []),
  encode_transfer_payload_lem py (item ∷ []) ∙ rw read,
  parse_payload_one t extra (read_transfer-IsChecked py laws 0 item t read) e long,
)

-- `[asset:32][amount:u64]`
unfoldable pub parse_burn : List ℕ → Option (List ℕ × ℕ)
parse_burn bytes = do
  (asset, bytes1) ← split_at? 32 bytes
  (amount, bytes2) ← read_be? 8 bytes1
  if length bytes2 == 0 then some (asset, amount) else none

-- For an amount of `u64`, `encode_burn_payload` returns a payload of 40 bytes from which asset and
-- amount are read back, exactly if the asset has 32 bytes.
pub parse_burn-encode_burn_payload :
    {E : Type 0} (asset : List ℕ) (amount : ℕ)
    → amount < 2 ^ 64
    → ((length asset ≡ 32) ↔ (
        (bytes : List ℕ) × (encode_burn_payload {E = E} asset amount ≡ ok bytes)
        × (length bytes ≡ 40)
        × (parse_burn bytes ≡ some (asset, amount))))
unfolding encode_burn_payload parse_burn into_vec write_u64 write_bytes with_capacity
parse_burn-encode_burn_payload asset amount fits = (
  λ h. (
    asset ++ to_be_bytes 8 amount,
    rw h,
    omega (arith, length-append asset (to_be_bytes 8 amount), length-to_be_bytes 8 amount),
    rw (
      split_at?-append 32 asset (to_be_bytes 8 amount) h,
      ← append-nil (to_be_bytes 8 amount),
      read_be?-append 8 amount [] fits,
    ),
  ),
  λ p. ground (arith, p.1),
)
