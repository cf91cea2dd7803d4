-- ===== src/Crypto/LowerHex.antt =====
-- Texts in lower-case hexadecimal, and what is relied on of the `hex` crate about them.
use tos_spec.Base.{ℕ, ◌+◌, ◌*◌, ◌/◌, ◌%◌, ◌<◌, ◌≡◌, refl, ap, sym, ◌∙◌, arith, List, [], ◌∷◌}
use tos_spec.Base.{some, length, ltb, if◌then◌else◌}
use tos_spec.Base.Bytes.{AreBytes}
use tos_spec.Crypto.{Hex, HexLaws}

abbrev pub hex_digit : ℕ → ℕ
hex_digit d = if ltb d 10 then b'0' + d else 87 + d

abbrev pub lower_hex : List ℕ → List ℕ
lower_hex [] = []
lower_hex (b ∷ bs) = hex_digit (b / 16) ∷ hex_digit (b % 16) ∷ lower_hex bs

-- `hex::encode` writes two lower-case digits for each byte.
pub record WritesLowerHex (hex : Hex) : Type 0 where
  pub encode_lem : (bytes : List ℕ) → AreBytes bytes → hex.encode bytes ≡ lower_hex bytes

-- A text that is the hexadecimal form of bytes is decoded to them.
pub decode_text :
    (hex : Hex) (laws : HexLaws hex) (lower : WritesLowerHex hex) (text bytes : List ℕ)
    → AreBytes bytes
    → text ≡ lower_hex bytes
    → hex.decode text ≡ some bytes
decode_text hex laws lower text bytes h e =
    ap hex.decode (e ∙ sym (lower.encode_lem bytes h)) ∙ laws.decode-encode bytes h

pub length-lower_hex : (bytes : List ℕ) → length (lower_hex bytes) ≡ 2 * length bytes
length-lower_hex [] = refl
length-lower_hex (b ∷ bs) = omega (arith, length-lower_hex bs)

-- A digit is a character from `0` to `9` or from `a` to `f`.
pub hex_digit-lt : (d : ℕ) → d < 16 → (b'0' < hex_digit d + 1) × (hex_digit d < 103)
hex_digit-lt d h = ground arith
