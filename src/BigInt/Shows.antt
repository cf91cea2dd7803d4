-- ===== src/BigInt/Shows.antt =====
-- `to_hex_32` of gen_bigint_vectors.rs: the bytes that a text shows, and numbers modulo 2 ^ 256.
use tos_spec.Base.{ℕ, ◌+◌, ◌-◌, ◌*◌, ◌%◌, ◌^◌, ◌≤◌, ◌<◌, ◌≡◌, min, refl, sym, ap, ◌∙◌, arith}
use tos_spec.Base.{List, [], ◌∷◌, ◌++◌, some, length, take, drop}
use tos_spec.Base.{
  replicate, All-append, All-take, All-replicate, length-append, length-take, length-drop,
}
use tos_spec.Base.{length-replicate, take-append-drop, leb_cases, inl, inr, subst}
use tos_spec.Base.Bytes.{
  AreBytes, IsByte, le_value, le_value-append, le_value-replicate, le_value-lt,
}
use tos_spec.Crypto.{Hex, HexLaws}
use tos_spec.BigInt.{BigUint, BigUintLaws, to_bytes_32, to_hex_32}
use native.Mathlib.Nat.{pow-le-pow_right}

-- The text shows 32 bytes that stand, lowest first, for `n` modulo 2 ^ 256.
pub record Shows (hex : Hex) (text : List ℕ) (n : ℕ) : Type 0 where
  pub bytes : List ℕ
  pub decoded : hex.decode text ≡ some bytes
  pub size : length bytes ≡ 32
  pub value : le_value bytes ≡ n % 2 ^ 256

empty : (bs : List ℕ) → length bs ≡ 0 → le_value bs ≡ 0
unfolding le_value
empty [] e = refl
empty (b ∷ bs) e = absurd (omega arith)

module _ (u : BigUint) (laws : BigUintLaws u) where
  to_bytes_32_lem :
      (n : u.Number)
      → (length (to_bytes_32 u n) ≡ 32)
        × AreBytes (to_bytes_32 u n)
        × (le_value (to_bytes_32 u n) ≡ u.value n % 2 ^ 256)
  unfolding to_bytes_32
  to_bytes_32_lem n =
      let bytes : List ℕ = u.to_bytes_le n in
      let len : ℕ = min (length bytes) 32 in
      let front : List ℕ = take len bytes in
      let back : List ℕ = drop len bytes in
      let zeros : List ℕ = replicate (32 - len) 0 in
      let front_size : length front ≡ len = omega (arith, length-take len bytes) in
      let front_bytes = All-take IsByte len bytes (laws.to_bytes_le-AreBytes n) in
      let zeros_size : length zeros ≡ 32 - len = length-replicate (32 - len) 0 in
      let padded : le_value (front ++ zeros) ≡ le_value front =
        le_value-append front zeros ∙ rw (le_value-replicate (32 - len)) (omega arith) in
      let whole : u.value n ≡ le_value front + 256 ^ length front * le_value back =
        sym (laws.le_value-to_bytes_le n)
        ∙ ap le_value (sym (take-append-drop len bytes))
        ∙ le_value-append front back in
      (
        omega (arith, length-append front zeros, zeros_size, front_size),
        All-append IsByte front zeros front_bytes (All-replicate IsByte (32 - len) 0 (omega arith)),
        padded ∙ elim (leb_cases (length bytes) 32) [
          | inl (_, fits) ↦
              let all : length back ≡ 0 = omega (arith, length-drop len bytes) in
              let bound : 256 ^ length front ≤ 256 ^ 32 =
                pow-le-pow_right {n = 256} (omega arith) {i = length front} {j = 32}
                  (omega (arith, front_size)) in
              omega (
                arith,
                whole,
                ap (λ (t : ℕ). 256 ^ length front * t) (empty back all),
                le_value-lt front front_bytes,
                bound,
              )
          | inr (_, over) ↦
              let full : length front ≡ 32 = omega (arith, front_size) in
              let whole' : u.value n ≡ le_value front + 256 ^ 32 * le_value back =
                rw full at whole in
              let bound : le_value front < 256 ^ 32 = rw full at (le_value-lt front front_bytes) in
              omega (arith, whole', bound)
        ],
      )

module _ (u : BigUint) (laws : BigUintLaws u) (hex : Hex) (hex_laws : HexLaws hex) where
  -- With the laws of `BigUintLaws` and `HexLaws`, `to_hex_32` shows every number as 32 bytes in
  -- little-endian order, modulo 2 ^ 256.
  pub to_hex_32-Shows : (n : u.Number) → Shows hex (to_hex_32 u hex n) (u.value n)
  unfolding to_hex_32
  to_hex_32-Shows n =
      let (size, small, value) = to_bytes_32_lem u laws n in
      record {
        bytes = to_bytes_32 u n;
        decoded = hex_laws.decode-encode (to_bytes_32 u n) small;
        size = size;
        value = value;
      }

  pub shows : (n : u.Number) (m : ℕ) → u.value n ≡ m → Shows hex (to_hex_32 u hex n) m
  shows n m e = subst (Shows hex (to_hex_32 u hex n)) e (to_hex_32-Shows n)
