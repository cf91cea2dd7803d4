-- ===== src/Tests/WrittenHex.antt =====
-- An implementation of the `hex` operations: lower-case digits in pairs.
use tos_spec.Base.{ℕ, ◌+◌, ◌*◌, ◌/◌, ◌%◌, ◌<◌, ◌≡◌, refl, subst, arith, List, [], ◌∷◌}
use tos_spec.Base.{Option, none, some, true, ltb, ◌==◌, if◌then◌else◌, ==_iff, Option-cases}
use tos_spec.Base.{inl, inr}
use tos_spec.Base.Options.{◌>>=◌}
use tos_spec.Base.Tables.{all_below, all_below_sound}
use tos_spec.Base.Bytes.{AreBytes}
use tos_spec.Crypto.{Hex, HexLaws}
use tos_spec.Crypto.LowerHex.{hex_digit, lower_hex, WritesLowerHex}

-- The value of a digit; any other character counts as a digit too.
abbrev digit_value : ℕ → ℕ
digit_value c = if ltb c 58 then c % 16 else (c + 9) % 16

digit_value-lt : (c : ℕ) → digit_value c < 16
digit_value-lt c = ground arith

abbrev decode_pairs : List ℕ → Option (List ℕ)
decode_pairs [] = some []
decode_pairs (x ∷ []) = none
decode_pairs (x ∷ y ∷ cs) = do
  bytes ← decode_pairs cs
  some ((digit_value x * 16 + digit_value y) ∷ bytes)

abbrev pub written_hex : Hex
written_hex = record { encode = lower_hex; decode = decode_pairs }

digits_table : all_below 16 (λ d. digit_value (hex_digit d) == d) ≡ true
unfolding all_below
digits_table = refl

digit_value-hex_digit : (d : ℕ) → d < 16 → digit_value (hex_digit d) ≡ d
digit_value-hex_digit d h =
    (==_iff _ d).0 (all_below_sound (λ d. digit_value (hex_digit d) == d) 16 d h digits_table)

pairs-lower_hex : (bytes : List ℕ) → AreBytes bytes → decode_pairs (lower_hex bytes) ≡ some bytes
pairs-lower_hex [] h = refl
pairs-lower_hex (b ∷ bs) h =
    let high = digit_value-hex_digit (b / 16) (omega (arith, h.0)) in
    let low = digit_value-hex_digit (b % 16) (omega arith) in
    let whole : b / 16 * 16 + b % 16 ≡ b = omega arith in
    rw (pairs-lower_hex bs h.1, high, low, whole)

decoded-AreBytes : (text bytes : List ℕ) → decode_pairs text ≡ some bytes → AreBytes bytes
decoded-AreBytes [] bytes e = let same : [] ≡ bytes = cc in subst AreBytes same tt
decoded-AreBytes (x ∷ []) bytes e = cc
decoded-AreBytes (x ∷ y ∷ cs) bytes e = elim (Option-cases (decode_pairs cs)) [
  | inl missing ↦ cc (rw missing at e)
  | inr (rest, found) ↦
      let same : (digit_value x * 16 + digit_value y) ∷ rest ≡ bytes = cc (rw found at e) in
      let high = digit_value-lt x in
      let low = digit_value-lt y in
      subst AreBytes same (omega arith, decoded-AreBytes cs rest found)
]

pub written_hex_laws : HexLaws written_hex
written_hex_laws = record {
  decode-encode = pairs-lower_hex;
  decode-AreBytes = decoded-AreBytes;
  decode_nil = refl;
}

pub written_hex_lower : WritesLowerHex written_hex
written_hex_lower = record { encode_lem = λ bytes h. refl }
