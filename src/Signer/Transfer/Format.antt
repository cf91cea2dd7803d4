-- ===== src/Signer/Transfer/Format.antt =====
-- The wire format of a list of transfers (the comment above `encode_transfer_payload` in
-- rust_py/tos_signer/src/lib.rs) and its reader.
use tos_spec.Base.{ℕ, zero, suc, ◌%◌, ◌^◌, ◌<◌, ◌≡◌, refl}
use tos_spec.Base.{List, [], ◌∷◌, ◌++◌, append_assoc, append-nil, length, All, arith}
use tos_spec.Base.{Option, some, none, ◌==◌, if◌then◌else◌}
use tos_spec.Base.Options.{◌>>=◌}
use tos_spec.Base.Bytes.{to_be_bytes, split_at?, split_at?-append}
use tos_spec.Base.Bytes.{read_be?, read_be?-append}
use tos_spec.Signer.Writer.{Writer, write_bytes, write_u64, buf-write_optional_vec_u8}
use tos_spec.Signer.Writer.{optional_vec_u8}
use tos_spec.Signer.Transfer.{Transfer, write_transfer}

-- `[asset:32][dest:32][amount:u64][optional_extra_data]`
unfoldable pub transfer_bytes : Transfer → List ℕ
transfer_bytes t =
    t.asset ++ (t.destination ++ (to_be_bytes 8 t.amount ++ optional_vec_u8 t.extra_data))

unfoldable pub transfers_bytes : List Transfer → List ℕ
transfers_bytes [] = []
transfers_bytes (t ∷ ts) = transfer_bytes t ++ transfers_bytes ts

-- The count in front keeps 16 bits.
unfoldable pub payload_bytes : List Transfer → List ℕ
payload_bytes ts = to_be_bytes 2 (length ts % 2 ^ 16) ++ transfers_bytes ts

pub write_transfer-buf :
    (w : Writer) (t : Transfer) → (write_transfer w t).buf ≡ w.buf ++ transfer_bytes t
unfolding write_transfer transfer_bytes write_bytes write_u64
write_transfer-buf w t = simp (buf-write_optional_vec_u8, append_assoc)

abbrev pub FitsU16 : Option (List ℕ) → Type 0
FitsU16 none = Unit
FitsU16 (some bytes) = length bytes < 2 ^ 16

-- What the code checks of a transfer, and that its extra data has a length of 16 bits.
pub record Fits (t : Transfer) : Type 0 where
  pub asset_32 : length t.asset ≡ 32
  pub destination_32 : length t.destination ≡ 32
  pub amount_u64 : t.amount < 2 ^ 64
  pub extra_u16 : FitsU16 t.extra_data

unfoldable pub read_extra : ℕ → List ℕ → Option (Option (List ℕ) × List ℕ)
read_extra flag bytes = if flag == 0 then some (none, bytes) else (do
  (n, rest) ← read_be? 2 bytes
  (extra, rest') ← split_at? n rest
  some (some extra, rest'))

unfoldable pub read_optional : List ℕ → Option (Option (List ℕ) × List ℕ)
read_optional [] = none
read_optional (flag ∷ bytes) = read_extra flag bytes

unfoldable pub parse_transfer : List ℕ → Option (Transfer × List ℕ)
parse_transfer bytes = do
  (asset, bytes1) ← split_at? 32 bytes
  (destination, bytes2) ← split_at? 32 bytes1
  (amount, bytes3) ← read_be? 8 bytes2
  (extra, bytes4) ← read_optional bytes3
  some (
    record { asset = asset; destination = destination; amount = amount; extra_data = extra },
    bytes4,
  )

unfoldable pub parse_transfers : ℕ → List ℕ → Option (List Transfer × List ℕ)
parse_transfers zero bytes = some ([], bytes)
parse_transfers (suc n) bytes = do
  (t, rest) ← parse_transfer bytes
  (ts, rest') ← parse_transfers n rest
  some (t ∷ ts, rest')

-- The whole of a payload, with nothing behind it.
unfoldable pub parse_payload : List ℕ → Option (List Transfer)
parse_payload bytes = do
  (n, rest) ← read_be? 2 bytes
  (ts, rest') ← parse_transfers n rest
  if length rest' == 0 then some ts else none

mod_u16 : (n : ℕ) → n < 2 ^ 16 → n % 2 ^ 16 ≡ n
mod_u16 n h = omega arith

read_optional-append :
    (value : Option (List ℕ)) (rest : List ℕ)
    → FitsU16 value
    → read_optional (optional_vec_u8 value ++ rest) ≡ some (value, rest)
unfolding read_optional read_extra optional_vec_u8
read_optional-append none rest h = refl
read_optional-append (some bytes) rest h = rw (
  append_assoc,
  mod_u16 (length bytes) h,
  read_be?-append 2 (length bytes) (bytes ++ rest) h,
  split_at?-append (length bytes) bytes rest refl,
)

parse_transfer-append :
    (t : Transfer) (rest : List ℕ)
    → Fits t
    → parse_transfer (transfer_bytes t ++ rest) ≡ some (t, rest)
unfolding parse_transfer transfer_bytes
parse_transfer-append t rest h = rw (
  append_assoc,
  split_at?-append 32 t.asset _ h.asset_32,
  append_assoc,
  split_at?-append 32 t.destination _ h.destination_32,
  append_assoc,
  read_be?-append 8 t.amount _ h.amount_u64,
  read_optional-append t.extra_data rest h.extra_u16,
)

parse_transfers-append :
    (ts : List Transfer) (rest : List ℕ)
    → All Fits ts
    → parse_transfers (length ts) (transfers_bytes ts ++ rest) ≡ some (ts, rest)
unfolding parse_transfers transfers_bytes
parse_transfers-append [] rest h = refl
parse_transfers-append (t ∷ ts) rest h =
    rw (append_assoc, parse_transfer-append t (transfers_bytes ts ++ rest) h.0)
      (rw (parse_transfers-append ts rest h.1))

-- The reader of the wire format gives back every list of fewer than 2 ^ 16 transfers whose fields
-- have their sizes and whose extra data is shorter than 2 ^ 16 bytes.
pub parse_payload-payload_bytes :
    (ts : List Transfer)
    → All Fits ts
    → length ts < 2 ^ 16
    → parse_payload (payload_bytes ts) ≡ some ts
unfolding parse_payload payload_bytes
parse_payload-payload_bytes ts h n = rw (
  ← append-nil (transfers_bytes ts),
  mod_u16 (length ts) n,
  read_be?-append 2 (length ts) _ n,
  parse_transfers-append ts [] h,
)
