-- ===== src/Signer/Transfer/Encode.antt =====
-- `encode_transfer_payload` of rust_py/tos_signer/src/lib.rs against the wire format.
use tos_spec.Base.{
  ℕ, ◌||◌, subst, Bool-cases, Option-cases, inl, inr, eq_cases, false, ◌*◌, ◌+◌, ◌%◌, ◌^◌, ◌<◌, ◌≡◌,
  refl, sym, ap, ◌∙◌, arith,
}
use tos_spec.Base.{List, [], ◌∷◌, ◌++◌, append_assoc, append-nil, length, All}
use tos_spec.Base.{some, ◌==◌, if◌then◌else◌, ltb}
use tos_spec.Signer.Result.{
  PyResult, ok, value_error, ◌>>=◌, >>=-eq-ok, >>=_assoc, >>=_cong, transfers_empty,
}
use tos_spec.Signer.Writer.{Writer, write_u16, with_capacity, into_vec}
use tos_spec.Signer.Transfer.{
  Python, PythonLaws, Transfer, write_transfer, get_item, read_asset, read_destination, read_amount,
  read_extra_data, read_tuple, read_transfer, encode_from, encode_transfer_payload_inner,
  encode_transfer_payload,
}
use tos_spec.Signer.Transfer.Format.{
  transfers_bytes, payload_bytes, write_transfer-buf, Fits, FitsU16, parse_payload,
  parse_payload-payload_bytes,
}

-- The bytes of the transfers appended to a writer.
append_transfers : Writer → List Transfer → Writer
append_transfers w ts = record { buf = w.buf ++ transfers_bytes ts }

append_transfers-cons :
    (w : Writer) (t : Transfer) (ts : List Transfer)
    → append_transfers w (t ∷ ts) ≡ append_transfers (write_transfer w t) ts
unfolding append_transfers transfers_bytes
append_transfers-cons w t ts = rw (write_transfer-buf w t, append_assoc)

module _ (py : Python) where
  -- Every item read, in order, with its index.
  unfoldable pub read_transfers : ℕ → List py.Object → PyResult py.PyErr (List Transfer)
  read_transfers i [] = ok []
  read_transfers i (item ∷ items) = do
    t ← read_transfer py i item
    ts ← read_transfers (i + 1) items
    ok (t ∷ ts)

  encode_from_lem :
      (i : ℕ) (items : List py.Object) (w : Writer)
      → encode_from py i items w ≡ (do ts ← read_transfers i items; ok (append_transfers w ts))
  unfolding encode_from read_transfers
  encode_from_lem i [] w = unfold append_transfers transfers_bytes in rw append-nil
  encode_from_lem i (item ∷ items) w =
      >>=_cong (read_transfer py i item) (λ t _.
        encode_from_lem (i + 1) items (write_transfer w t)
        ∙ >>=_cong (read_transfers (i + 1) items)
            (λ ts _. ap ok (sym (append_transfers-cons w t ts)))
        ∙ sym (
            >>=_assoc (read_transfers (i + 1) items) (λ ts. ok (t ∷ ts))
              (λ ts. ok (append_transfers w ts))))
      ∙ sym (
          >>=_assoc (read_transfer py i item)
            (λ t. read_transfers (i + 1) items >>= λ ts. ok (t ∷ ts))
            (λ ts. ok (append_transfers w ts)))

  length-read_transfers :
      (i : ℕ) (items : List py.Object) {ts : List Transfer}
      → read_transfers i items ≡ ok ts
      → length ts ≡ length items
  unfolding read_transfers
  length-read_transfers i [] e = ground arith
  length-read_transfers i (item ∷ items) e =
      let (t, et, e') = >>=-eq-ok (read_transfer py i item) _ e in
      let (rest, er, e2) = >>=-eq-ok (read_transfers (i + 1) items) _ e' in
      ground (arith, length-read_transfers (i + 1) items er)

  -- `encode_transfer_payload` returns its own error on an empty list, and otherwise the first error
  -- of reading its items in order or, when all are read, the wire format of them.
  pub encode_transfer_payload_lem :
      (transfers : List py.Object)
      → encode_transfer_payload py transfers ≡ (
          if length transfers == 0
          then value_error transfers_empty
          else (do ts ← read_transfers 0 transfers; ok (payload_bytes ts)))
  unfolding encode_transfer_payload encode_transfer_payload_inner
  encode_transfer_payload_lem [] = refl
  encode_transfer_payload_lem (item ∷ items) =
      let transfers = item ∷ items in
      let w = write_u16 (with_capacity (2 + length transfers * 73)) (length transfers % 2 ^ 16) in
      let nonempty : (length transfers == 0) ≡ false = ground arith in
      rw nonempty (
        ap (λ m. m >>= λ w'. ok (into_vec w')) (encode_from_lem 0 transfers w)
        ∙ >>=_assoc (read_transfers 0 transfers) (λ ts. ok (append_transfers w ts))
            (λ w'. ok (into_vec w'))
        ∙ >>=_cong (read_transfers 0 transfers) (λ ts e. ap ok (vec_lem ts e)))
    where
      vec_lem :
          (ts : List Transfer)
          → read_transfers 0 (item ∷ items) ≡ ok ts
          → into_vec (
              append_transfers
                (write_u16
                  (with_capacity (2 + length (item ∷ items) * 73))
                  (length (item ∷ items) % 2 ^ 16))
                ts)
            ≡ payload_bytes ts
      vec_lem ts e =
          unfold into_vec append_transfers write_u16 with_capacity payload_bytes in
          rw (length-read_transfers 0 (item ∷ items) e)

-- What the code has checked of a transfer that it read, or has from the types of Rust.
pub record IsChecked (t : Transfer) : Type 0 where
  pub asset_32 : length t.asset ≡ 32
  pub destination_32 : length t.destination ≡ 32
  pub amount_u64 : t.amount < 2 ^ 64

module _ (py : Python) where
  read_asset-length :
      (i : ℕ) (tuple : List py.Object) (asset : List ℕ)
      → read_asset py i tuple ≡ ok asset
      → length asset ≡ 32
  unfolding read_asset
  read_asset-length i tuple asset e = ground arith

  read_destination-length :
      (i : ℕ) (tuple : List py.Object) (asset : List ℕ)
      → read_destination py i tuple ≡ ok asset
      → length asset ≡ 32
  unfolding read_destination
  read_destination-length i tuple asset e = ground arith

  read_amount-lt :
      PythonLaws py → (tuple : List py.Object) (n : ℕ) → read_amount py tuple ≡ ok n → n < 2 ^ 64
  unfolding read_amount
  read_amount-lt laws tuple n e =
      let (item, _, got) = >>=-eq-ok (get_item py tuple 2) py.extract_u64 e in
      laws.extract_u64-lt item n got

  read_tuple-IsChecked :
      PythonLaws py
      → (i : ℕ) (tuple : List py.Object) (t : Transfer) → read_tuple py i tuple ≡ ok t
      → IsChecked t
  unfolding read_tuple
  read_tuple-IsChecked laws i tuple t e =
      let (asset, ea, e1) = >>=-eq-ok (read_asset py i tuple) _ e in
      let (dest, ed, e2) = >>=-eq-ok (read_destination py i tuple) _ e1 in
      let (amount, em, e3) = >>=-eq-ok (read_amount py tuple) _ e2 in
      let (extra, ex, e4) = >>=-eq-ok (read_extra_data py tuple) _ e3 in
      ground (
        arith,
        read_asset-length i tuple asset ea,
        read_destination-length i tuple dest ed,
        read_amount-lt laws tuple amount em,
      )

  pub read_transfer-IsChecked :
      PythonLaws py
      → (i : ℕ) (item : py.Object) (t : Transfer) → read_transfer py i item ≡ ok t
      → IsChecked t
  unfolding read_transfer
  read_transfer-IsChecked laws i item t e = elim (Option-cases (py.downcast_tuple item)) [
    | inl not_tuple ↦ cc (rw (not_tuple, read_transfer) at e)
    | inr (tuple, is_tuple) ↦ elim (Bool-cases (ltb (length tuple) 3 || ltb 4 (length tuple))) [
      | inl bad ↦ cc (rw (is_tuple, bad, read_transfer) at e)
      | inr good ↦ read_tuple-IsChecked laws i tuple t (rw (is_tuple, good, read_transfer) at e)
    ]
  ]

  read_transfers-IsChecked :
      PythonLaws py
      → (i : ℕ) (items : List py.Object) (ts : List Transfer) → read_transfers py i items ≡ ok ts
      → All IsChecked ts
  unfolding read_transfers
  read_transfers-IsChecked laws i [] [] e = tt
  read_transfers-IsChecked laws i [] (t ∷ ts) e = cc
  read_transfers-IsChecked laws i (item ∷ items) ts e =
      let (t, et, e') = >>=-eq-ok (read_transfer py i item) _ e in
      let (rest, er, e2) = >>=-eq-ok (read_transfers py (i + 1) items) _ e' in
      let whole : t ∷ rest ≡ ts = cc in
      subst (All IsChecked) whole (
        read_transfer-IsChecked laws i item t et,
        read_transfers-IsChecked laws (i + 1) items rest er,
      )

abbrev pub AreShort : List Transfer → Type 0
AreShort = All (λ t. FitsU16 t.extra_data)

IsChecked-Fits : (ts : List Transfer) → All IsChecked ts → AreShort ts → All Fits ts
IsChecked-Fits [] h k = tt
IsChecked-Fits (t ∷ ts) h k =
    let first : IsChecked t = h.0 in
    (
      record {
        asset_32 = first.asset_32;
        destination_32 = first.destination_32;
        amount_u64 = first.amount_u64;
        extra_u16 = k.0;
      },
      IsChecked-Fits ts h.1 k.1,
    )

module _ (py : Python) (laws : PythonLaws py) where
  -- Where extracted numbers lie in the range of `u64`: if the encoder returns a payload, the list is
  -- not empty, all its items were read and passed their checks, and, with fewer than 2 ^ 16
  -- transfers and each extra data shorter than 2 ^ 16 bytes, the payload is read back as these
  -- transfers.
  pub parse_payload-encode_transfer_payload :
      (transfers : List py.Object) (bytes : List ℕ)
      → encode_transfer_payload py transfers ≡ ok bytes
      → (ts : List Transfer) × (read_transfers py 0 transfers ≡ ok ts)
        × All IsChecked ts
        × (0 < length transfers)
        × (length transfers < 2 ^ 16 → AreShort ts → parse_payload bytes ≡ some ts)
  parse_payload-encode_transfer_payload transfers bytes e = elim (eq_cases (length transfers) 0) [
    | inl (empty, _) ↦ cc (rw empty at (sym (encode_transfer_payload_lem py transfers) ∙ e))
    | inr (nonempty, ne) ↦
        let read = rw nonempty at (sym (encode_transfer_payload_lem py transfers) ∙ e) in
        let (ts, et, written) =
          >>=-eq-ok (read_transfers py 0 transfers) (λ ts. ok (payload_bytes ts)) read in
        let checked = read_transfers-IsChecked py laws 0 transfers ts et in
        let same : payload_bytes ts ≡ bytes = cc in
        (
          ts,
          et,
          checked,
          omega arith,
          λ few short.
              subst (λ b. parse_payload b ≡ some ts) same
                (parse_payload-payload_bytes ts (IsChecked-Fits ts checked short)
                  (omega (arith, length-read_transfers py 0 transfers et))),
        )
  ]
