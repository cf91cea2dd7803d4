-- ===== src/Bech32/ConvertBits.antt =====
-- rust_generators/crypto/gen_bech32_vectors.rs: `convert_bits`, which regroups bits, on `u16`
-- accumulators.
pub mod Value
pub mod RoundTrip
use tos_spec.Base.{ℕ, zero, suc, ◌+◌, ◌-◌, ◌*◌, ◌/◌, ◌%◌, ◌^◌, bit_and, bit_or}
use tos_spec.Base.{List, [], ◌∷◌, ◌++◌, Option, none, some, Bool, ◌&&◌, leb, ltb, if◌then◌else◌}
use tos_spec.Base.Options.{◌>>=◌}

-- `acc`, `bits` and `result`.
pub record State : Type 0 where
  pub acc : ℕ
  pub bits : ℕ
  pub result : List ℕ

-- `1 << to`, less one, as `u16`.
abbrev pub max_value : ℕ → ℕ
max_value to = 2 ^ to - 1

-- The inner loop; `none` means that the fuel ran out, as for `to` 0, where the loop does not end.
unfoldable pub drain : ℕ → ℕ → State → Option State
drain zero to s = none
drain (suc fuel) to s =
    let bits = s.bits - to in
    let rest = drain fuel to (record {
      acc = s.acc;
      bits = bits;
      result = s.result ++ (bit_and (s.acc / 2 ^ bits) (max_value to) % 2 ^ 8 ∷ []);
    }) in
    if leb to s.bits then rest else some s

-- The outer loop. Each round of the inner loop takes `to` bits, so one more than the number of
-- bits is fuel enough.
unfoldable pub convert : ℕ → ℕ → List ℕ → State → Option State
convert from to [] s = some s
convert from to (v ∷ vs) s = do
  s' ← drain (s.bits + from + 1) to (record {
    acc = bit_or (s.acc * 2 ^ from % 2 ^ 16) v;
    bits = s.bits + from;
    result = s.result;
  })
  convert from to vs s'

unfoldable pub convert_bits : List ℕ → ℕ → ℕ → Bool → Option (List ℕ)
convert_bits bytes from to pad = do
  s ← convert from to bytes (record { acc = 0; bits = 0; result = [] })
  some (
      if pad && ltb 0 s.bits
      then s.result ++ (bit_and (s.acc * 2 ^ (to - s.bits) % 2 ^ 16) (max_value to) % 2 ^ 8 ∷ [])
      else s.result)
