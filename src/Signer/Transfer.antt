-- ===== src/Signer/Transfer.antt =====
-- rust_py/tos_signer/src/lib.rs: `encode_transfer_payload_inner` and the payloads of transfers and
-- burns. The Python objects and their conversions are PyO3's, a record of operations.
pub mod Format
pub mod Encode
pub mod Oversized
use tos_spec.Base.{ℕ, suc, ◌+◌, ◌*◌, ◌%◌, ◌^◌, ◌<◌, ◌≡◌, List, [], ◌∷◌, length, get_elem?}
use tos_spec.Base.{Option, none, some, Bool, true, false, ◌||◌, ltb, ◌==◌, if◌then◌else◌}
use tos_spec.Base.Bytes.{AreBytes}
use tos_spec.Signer.Result.{
  PyResult, ok, value_error, raised, ◌>>=◌, transfers_empty, transfer_not_tuple, transfer_arity,
  transfer_asset, transfer_destination, asset_length,
}
use tos_spec.Signer.Writer.{
  Writer, with_capacity, write_u16, write_u64, write_bytes, write_optional_vec_u8, into_vec,
}

-- Python objects: `downcast::<PyTuple>` with the items of the tuple, `is_none`, and `extract` into
-- `Vec<u8>` and `u64`.
pub record Python : Type 1 where
  pub Object : Type 0
  pub PyErr : Type 0
  pub downcast_tuple : Object → Option (List Object)
  pub is_none : Object → Bool
  pub extract_bytes : Object → PyResult PyErr (List ℕ)
  pub extract_u64 : Object → PyResult PyErr ℕ
  -- `get_item` of a tuple out of range
  pub index_error : PyErr

-- An extracted value lies in the range of its Rust type.
pub record PythonLaws (py : Python) : Type 0 where
  pub extract_bytes-AreBytes :
      (o : py.Object) (bytes : List ℕ) → py.extract_bytes o ≡ ok bytes → AreBytes bytes
  pub extract_u64-lt : (o : py.Object) (n : ℕ) → py.extract_u64 o ≡ ok n → n < 2 ^ 64

-- What the loop reads from one tuple.
pub record Transfer : Type 0 where
  pub asset : List ℕ
  pub destination : List ℕ
  pub amount : ℕ
  pub extra_data : Option (List ℕ)

-- The four writes at the end of the loop's body.
unfoldable pub write_transfer : Writer → Transfer → Writer
write_transfer w t =
    let w = write_bytes w t.asset in
    let w = write_bytes w t.destination in
    let w = write_u64 w t.amount in write_optional_vec_u8 w t.extra_data

module _ (py : Python) where
  unfoldable pub get_item : List py.Object → ℕ → PyResult py.PyErr py.Object
  get_item tuple i = elim (get_elem? tuple i) [ some o ↦ ok o | none ↦ raised py.index_error ]

  -- `let asset: Vec<u8> = ...` with the check of its length, and the same for the destination.
  unfoldable pub read_asset : ℕ → List py.Object → PyResult py.PyErr (List ℕ)
  read_asset i tuple = do
    item ← get_item tuple 0
    asset ← py.extract_bytes item
    if length asset == 32 then ok asset else value_error (transfer_asset i (length asset))

  unfoldable pub read_destination : ℕ → List py.Object → PyResult py.PyErr (List ℕ)
  read_destination i tuple = do
    item ← get_item tuple 1
    dest ← py.extract_bytes item
    if length dest == 32 then ok dest else value_error (transfer_destination i (length dest))

  -- The fourth item may be left out or `None`.
  unfoldable pub read_extra_data : List py.Object → PyResult py.PyErr (Option (List ℕ))
  read_extra_data tuple =
      if length tuple == 4
      then (do
        item ← get_item tuple 3
        if py.is_none item then ok none else (do bytes ← py.extract_bytes item; ok (some bytes)))
      else ok none

  unfoldable pub read_amount : List py.Object → PyResult py.PyErr ℕ
  read_amount tuple = do item ← get_item tuple 2; py.extract_u64 item

  unfoldable pub read_tuple : ℕ → List py.Object → PyResult py.PyErr Transfer
  read_tuple i tuple = do
    asset ← read_asset i tuple
    destination ← read_destination i tuple
    amount ← read_amount tuple
    extra ← read_extra_data tuple
    ok (record { asset = asset; destination = destination; amount = amount; extra_data = extra })

  -- The loop's body up to the writes.
  unfoldable pub read_transfer : ℕ → py.Object → PyResult py.PyErr Transfer
  read_transfer i item = elim (py.downcast_tuple item) [
    | none ↦ value_error (transfer_not_tuple i)
    | some tuple ↦
        if ltb (length tuple) 3 || ltb 4 (length tuple)
        then value_error (transfer_arity i (length tuple))
        else read_tuple i tuple
  ]

  -- The loop from index `i` on, over the items that are left.
  unfoldable pub encode_from : ℕ → List py.Object → Writer → PyResult py.PyErr Writer
  encode_from i [] w = ok w
  encode_from i (item ∷ items) w = do
    t ← read_transfer i item
    encode_from (i + 1) items (write_transfer w t)

  unfoldable pub encode_transfer_payload_inner : List py.Object → PyResult py.PyErr (List ℕ)
  encode_transfer_payload_inner transfers =
      let count = length transfers in
      if count == 0 then value_error transfers_empty else (do
        w ← encode_from 0 transfers (write_u16 (with_capacity (2 + count * 73)) (count % 2 ^ 16))
        ok (into_vec w))

  unfoldable pub encode_transfer_payload : List py.Object → PyResult py.PyErr (List ℕ)
  encode_transfer_payload transfers = encode_transfer_payload_inner transfers

unfoldable pub encode_burn_payload : {E : Type 0} → List ℕ → ℕ → PyResult E (List ℕ)
encode_burn_payload asset amount =
    if length asset == 32
    then ok (into_vec (write_u64 (write_bytes (with_capacity 40) asset) amount))
    else value_error (asset_length (length asset))
