-- ===== src/Bech32/ConvertBits/RoundTrip.antt =====
-- `convert_bits` of gen_bech32_vectors.rs, with and without padding, and what the one undoes of the
-- other.
use tos_spec.Base.{ℕ, ◌+◌, ◌-◌, ◌*◌, ◌/◌, ◌%◌, ◌^◌, ◌≤◌, ◌<◌, ◌≡◌, refl, sym, ap, ◌∙◌}
use tos_spec.Base.{bit_and, List, [], ◌∷◌, ◌++◌, length, length-append, All-append, arith}
use tos_spec.Base.{some, true, false, ltb_cases, inl, inr, subst}
use tos_spec.Base.Bits.{bit_and_mask}
use tos_spec.Base.Bytes.{AreBytes}
use tos_spec.Base.Arith.{pow_add, shift_mod, mod-mod_pow, mod_below}
use tos_spec.Bech32.ConvertBits.{State, max_value, convert, convert_bits}
use tos_spec.Bech32.ConvertBits.Value.{
  digits_value, digits_value-append_one, AreDigits, Holds, convert-Holds, digits_inj,
}
use native.Mathlib.Nat.{
  mul_assoc, one-le-pow, pow-le-pow_right, mul-div_cancel, mul-add-div_right, div-eq_of_lt,
  mul-lt-mul_of_pos_right,
}

-- The digit that padding appends for `b` waiting bits.
padding_digit :
    (acc to b : ℕ)
    → to ≤ 8
    → b ≤ to
    → bit_and (acc * 2 ^ (to - b) % 2 ^ 16) (max_value to) % 2 ^ 8 ≡ acc % 2 ^ b * 2 ^ (to - b)
padding_digit acc to b small le =
    let x : ℕ = acc * 2 ^ (to - b) in
    let split : 16 - to + to ≡ 16 = omega arith in
    let split' : b + (to - b) ≡ to = omega arith in
    let wide : x % 2 ^ 16 % 2 ^ to ≡ x % 2 ^ to =
      ap (λ (t : ℕ). x % 2 ^ t % 2 ^ to) (sym split) ∙ mod-mod_pow x to (16 - to) in
    let low : x % 2 ^ to ≡ acc % 2 ^ b * 2 ^ (to - b) =
      ap (λ (t : ℕ). x % 2 ^ t) (sym split') ∙ shift_mod acc (to - b) b in
    let byte : 2 ^ to ≤ 2 ^ 8 = pow-le-pow_right (omega arith) small in
    let below : x % 2 ^ to < 2 ^ to = mod_below x (2 ^ to) (one-le-pow to 2 (omega arith)) in
    omega (arith, bit_and_mask to (x % 2 ^ 16), wide, low, byte, below)

abbrev start : State
start = record { acc = 0; bits = 0; result = [] }

module _ (from to : ℕ) (to_pos : 0 < to) (to_byte : to ≤ 8) (room : from + to ≤ 16) where
  -- The loop over all digits from the empty state.
  converted :
      (vs : List ℕ)
      → AreDigits from vs
      → (t : State) × (convert from to vs start ≡ some t)
        × Holds from to to_pos to_byte room (digits_value from 0 vs) (from * length vs) t
        × (t.bits < to)
  converted vs q =
      let (t, e, h, few) =
        convert-Holds from to to_pos to_byte room 0 0 vs start q to_pos
          (record { value = unfold digits_value in refl; count = omega arith; written = tt }) in
      (t, e, record { value = h.value; count = omega (arith, h.count); written = h.written }, few)

  -- For digits of `from` bits, with `to` between 1 and 8 and `from + to` at most 16, `convert_bits`
  -- with padding ends and gives digits of `to` bits that stand for the same number, moved up by
  -- fewer than `to` places of padding.
  pub convert_bits-pad :
      (vs : List ℕ)
      → AreDigits from vs
      → (out : List ℕ) × (p : ℕ) × (convert_bits vs from to true ≡ some out)
        × AreDigits to out
        × (p < to)
        × (to * length out ≡ from * length vs + p)
        × (digits_value to 0 out ≡ digits_value from 0 vs * 2 ^ p)
  unfolding convert_bits
  convert_bits-pad vs q =
      let (t, e, h, few) = converted vs q in
      elim (ltb_cases 0 t.bits) [
        | inl (test, some_left) ↦
            let p : ℕ = to - t.bits in
            let d : ℕ = t.acc % 2 ^ t.bits * 2 ^ p in
            let front : ℕ = digits_value to 0 t.result in
            let digit = padding_digit t.acc to t.bits to_byte (omega arith) in
            let split : t.bits + p ≡ to = omega arith in
            let place : front * 2 ^ to ≡ front * 2 ^ t.bits * 2 ^ p =
              ap (λ (k : ℕ). front * 2 ^ k) (sym split)
              ∙ ap (λ (k : ℕ). front * k) (pow_add 2 t.bits p)
              ∙ sym (mul_assoc front (2 ^ t.bits) (2 ^ p)) in
            let small : d < 2 ^ to =
              subst (λ k. d < 2 ^ k) split
                (subst (λ k. d < k) (sym (pow_add 2 t.bits p))
                  (mul-lt-mul_of_pos_right
                    (mod_below t.acc (2 ^ t.bits) (one-le-pow t.bits 2 (omega arith)))
                    (one-le-pow p 2 (omega arith)))) in
            (
              t.result ++ (d ∷ []),
              p,
              rw (e, test, digit),
              All-append (λ x. x < 2 ^ to) t.result (d ∷ []) h.written (small, tt),
              omega arith,
              rw (length-append t.result (d ∷ [])) (omega (arith, h.count)),
              rw (digits_value-append_one to 0 t.result d)
                  (omega (arith, place, ap (λ (n : ℕ). n * 2 ^ p) h.value)),
            )
        | inr (test, nothing) ↦
            let none_left : t.bits ≡ 0 = omega arith in
            let value = rw none_left at h.value in
            (
              t.result,
              0,
              rw (e, test),
              h.written,
              to_pos,
              omega (arith, h.count),
              omega (arith, value),
            )
      ]

  -- Without padding the bits that fill no digit are dropped.
  pub convert_bits-no_pad :
      (vs : List ℕ)
      → AreDigits from vs
      → (out : List ℕ) × (b : ℕ) × (convert_bits vs from to false ≡ some out)
        × AreDigits to out
        × (b < to)
        × (to * length out + b ≡ from * length vs)
        × (digits_value to 0 out ≡ digits_value from 0 vs / 2 ^ b)
  unfolding convert_bits
  convert_bits-no_pad vs q =
      let (t, e, h, few) = converted vs q in
      let p : ℕ = 2 ^ t.bits in
      let hp : 0 < p = one-le-pow t.bits 2 (omega arith) in
      let front : ℕ = digits_value to 0 t.result in
      (
        t.result,
        t.bits,
        rw e,
        h.written,
        few,
        h.count,
        sym (
            ap (λ (n : ℕ). n / p) h.value
            ∙ mul-add-div_right hp front (t.acc % p)
            ∙ omega (arith, div-eq_of_lt (mod_below t.acc p hp))),
      )

-- Bytes regrouped into values of five bits with padding, and those regrouped into bytes without it,
-- are the bytes again; the values are below 32, and there are as many as the bits need.
pub convert_bits-convert_bits :
    (bytes : List ℕ)
    → AreBytes bytes
    → (values : List ℕ) × (convert_bits bytes 8 5 true ≡ some values)
      × AreDigits 5 values
      × (length values ≡ (8 * length bytes + 4) / 5)
      × (convert_bits values 5 8 false ≡ some bytes)
convert_bits-convert_bits bytes h =
    let (values, p, e, small, few, size, value) =
      convert_bits-pad 8 5 (omega arith) (omega arith) (omega arith) bytes h in
    let (back, b, e', small', few', size', value') =
      convert_bits-no_pad 5 8 (omega arith) (omega arith) (omega arith) values small in
    let same_size : length back ≡ length bytes = omega arith in
    let same_places : b ≡ p = omega arith in
    let same_value : digits_value 8 0 back ≡ digits_value 8 0 bytes =
      value'
      ∙ ap (λ (t : ℕ). digits_value 5 0 values / 2 ^ t) same_places
      ∙ ap (λ (t : ℕ). t / 2 ^ p) value
      ∙ mul-div_cancel (digits_value 8 0 bytes) (one-le-pow p 2 (omega arith)) in
    (
      values,
      e,
      small,
      omega arith,
      e' ∙ ap some (digits_inj 8 back bytes same_size small' h same_value),
    )
