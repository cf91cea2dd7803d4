-- ===== src/Bech32/ConvertBits/Value.antt =====
-- `convert_bits` of gen_bech32_vectors.rs: the numbers that its input and its state stand for.
use tos_spec.Base.{
  ℕ, zero, suc, ◌+◌, ◌-◌, ◌*◌, ◌/◌, ◌%◌, ◌^◌, ◌≤◌, ◌<◌, ◌≡◌, refl, sym, ap, ap₂, ◌∙◌,
}
use tos_spec.Base.{
  bit_and, bit_or, List, [], ◌∷◌, ◌++◌, length, length-append, All, All-append, arith,
}
use tos_spec.Base.{some, leb_cases, inl, inr}
use tos_spec.Base.Arith.{
  pow_add, mod_product, mod_below, shift_mod, mod-mod_pow, field_mod, fields_inj,
}
use tos_spec.Base.Bits.{bit_and_mask, bit_or_disjoint}
use tos_spec.Bech32.ConvertBits.{State, max_value, drain, convert}
use native.Mathlib.Nat.{mul_assoc, one-le-pow, pow-le-pow_right}

-- Digits of `w` bits as one number, highest first.
unfoldable pub digits_value : ℕ → ℕ → List ℕ → ℕ
digits_value w acc [] = acc
digits_value w acc (x ∷ xs) = digits_value w (acc * 2 ^ w + x) xs

pub digits_value-append_one :
    (w acc : ℕ) (xs : List ℕ) (x : ℕ)
    → digits_value w acc (xs ++ (x ∷ [])) ≡ digits_value w acc xs * 2 ^ w + x
unfolding digits_value
digits_value-append_one w acc [] x = refl
digits_value-append_one w acc (y ∷ xs) x = digits_value-append_one w (acc * 2 ^ w + y) xs x

abbrev pub AreDigits : ℕ → List ℕ → Type 0
AreDigits w = All (λ x. x < 2 ^ w)

-- A digit shifted into the 16-bit accumulator, of which `b` bits are waiting.
shift_in :
    (acc v f b : ℕ)
    → b + f ≤ 16
    → v < 2 ^ f
    → bit_or (acc * 2 ^ f % 2 ^ 16) v % 2 ^ (b + f) ≡ acc % 2 ^ b * 2 ^ f + v
shift_in acc v f b room h =
    let g : ℕ = 16 - f in
    let k : ℕ = g - b in
    let split : g + f ≡ 16 = omega arith in
    let split' : k + b ≡ g = omega arith in
    let shifted : acc * 2 ^ f % 2 ^ 16 ≡ acc % 2 ^ g * 2 ^ f =
      ap (λ t. acc * 2 ^ f % 2 ^ t) (sym split) ∙ shift_mod acc f g in
    let low : acc % 2 ^ g % 2 ^ b ≡ acc % 2 ^ b =
      ap (λ (t : ℕ). acc % 2 ^ t % 2 ^ b) (sym split') ∙ mod-mod_pow acc b k in
    ap (λ t. bit_or t v % 2 ^ (b + f)) shifted
    ∙ ap (λ t. t % 2 ^ (b + f)) (bit_or_disjoint f (acc % 2 ^ g) v h)
    ∙ field_mod (acc % 2 ^ g) v f b h
    ∙ ap (λ t. t * 2 ^ f + v) low

module _ (from to : ℕ) (to_pos : 0 < to) (to_byte : to ≤ 8) (room : from + to ≤ 16) where
  -- The state after digits that stand for `n`, in `total` bits: what was written and the bits that
  -- wait in the accumulator make up `n`.
  pub record Holds (n total : ℕ) (s : State) : Type 0 where
    pub value : n ≡ digits_value to 0 s.result * 2 ^ s.bits + s.acc % 2 ^ s.bits
    pub count : to * length s.result + s.bits ≡ total
    pub written : AreDigits to s.result

  push : State → State
  push s = record {
    acc = s.acc;
    bits = s.bits - to;
    result = s.result ++ (bit_and (s.acc / 2 ^ (s.bits - to)) (max_value to) % 2 ^ 8 ∷ []);
  }

  push-Holds : (n total : ℕ) (s : State) → to ≤ s.bits → Holds n total s → Holds n total (push s)
  unfolding push
  push-Holds n total s enough h =
      let b : ℕ = s.bits - to in
      let q : ℕ = 2 ^ b in
      let m : ℕ = 2 ^ to in
      let d : ℕ = s.acc / q % m in
      let front : ℕ = digits_value to 0 s.result in
      let hq : 0 < q = one-le-pow b 2 (omega arith) in
      let hm : 0 < m = one-le-pow to 2 (omega arith) in
      let byte : m ≤ 2 ^ 8 = pow-le-pow_right (omega arith) to_byte in
      let small : d < m = mod_below (s.acc / q) m hm in
      let digit : bit_and (s.acc / q) (max_value to) % 2 ^ 8 ≡ d =
        omega (arith, bit_and_mask to (s.acc / q)) in
      let bits : to + b ≡ s.bits = omega arith in
      let whole : m * q ≡ 2 ^ s.bits = sym (pow_add 2 to b) ∙ ap (λ (t : ℕ). 2 ^ t) bits in
      let low : s.acc % 2 ^ s.bits ≡ d * q + s.acc % q =
        ap (λ (t : ℕ). s.acc % t) (sym whole) ∙ mod_product s.acc q m hq hm in
      let high : front * 2 ^ s.bits ≡ front * m * q =
        ap (λ (t : ℕ). front * t) (sym whole) ∙ sym (mul_assoc front m q) in
      record {
        value =
            rw (digit, digits_value-append_one to 0 s.result d) (omega (arith, h.value, low, high));
        count = rw (length-append s.result _) (omega (arith, h.count));
        written = rw digit (All-append (λ x. x < 2 ^ to) s.result (d ∷ []) h.written (small, tt));
      }

  drain-Holds :
      (fuel n total : ℕ) (s : State)
      → s.bits < fuel
      → Holds n total s
      → (t : State) × (drain fuel to s ≡ some t) × Holds n total t × (t.bits < to)
  unfolding drain push
  drain-Holds zero n total s few h = absurd (omega arith)
  drain-Holds (suc fuel) n total s few h = elim (leb_cases to s.bits) [
    | inl (test, enough) ↦
        rw test (drain-Holds fuel n total (push s) (omega arith) (push-Holds n total s enough h))
    | inr (test, few') ↦ (s, rw test, h, few')
  ]

  -- The state with one more digit in the accumulator.
  feed : ℕ → State → State
  feed v s = record {
    acc = bit_or (s.acc * 2 ^ from % 2 ^ 16) v;
    bits = s.bits + from;
    result = s.result;
  }

  feed-Holds :
      (n total v : ℕ) (s : State)
      → s.bits < to
      → v < 2 ^ from
      → Holds n total s
      → Holds (n * 2 ^ from + v) (total + from) (feed v s)
  unfolding feed
  feed-Holds n total v s few small h =
      let front : ℕ = digits_value to 0 s.result in
      let waiting : ℕ = s.acc % 2 ^ s.bits in
      let low = shift_in s.acc v from s.bits (omega arith) small in
      let high : front * 2 ^ (s.bits + from) ≡ front * 2 ^ s.bits * 2 ^ from =
        ap (λ (t : ℕ). front * t) (pow_add 2 s.bits from)
        ∙ sym (mul_assoc front (2 ^ s.bits) (2 ^ from)) in
      let whole : n * 2 ^ from ≡ (front * 2 ^ s.bits + waiting) * 2 ^ from =
        ap (λ (t : ℕ). t * 2 ^ from) h.value in
      record {
        value = omega (arith, low, high, whole);
        count = omega (arith, h.count);
        written = h.written;
      }

  pub convert-Holds :
      (n total : ℕ) (vs : List ℕ) (s : State)
      → AreDigits from vs
      → s.bits < to
      → Holds n total s
      → (t : State) × (convert from to vs s ≡ some t)
        × Holds (digits_value from n vs) (total + from * length vs) t
        × (t.bits < to)
  unfolding convert digits_value feed
  convert-Holds n total [] s q few h = (
    s,
    refl,
    record { value = h.value; count = omega (arith, h.count); written = h.written },
    few,
  )
  convert-Holds n total (v ∷ vs) s q few h =
      let (s', drained, h', few') =
        drain-Holds (s.bits + from + 1) (n * 2 ^ from + v) (total + from) (feed v s) (omega arith)
          (feed-Holds n total v s few q.0 h) in
      let (t, converted, h2, few2) =
        convert-Holds (n * 2 ^ from + v) (total + from) vs s' q.1 few' h' in
      (
        t,
        rw drained converted,
        record { value = h2.value; count = omega (arith, h2.count); written = h2.written },
        few2,
      )

-- Lists of digits of one length are told apart by their numbers.
digits_value_inj :
    (w a b : ℕ) (xs ys : List ℕ)
    → length xs ≡ length ys
    → AreDigits w xs
    → AreDigits w ys
    → digits_value w a xs ≡ digits_value w b ys
    → (a ≡ b) × (xs ≡ ys)
unfolding digits_value
digits_value_inj w a b [] [] e h k n = (n, refl)
digits_value_inj w a b [] (y ∷ ys) e h k n = absurd (omega arith)
digits_value_inj w a b (x ∷ xs) [] e h k n = absurd (omega arith)
digits_value_inj w a b (x ∷ xs) (y ∷ ys) e h k n =
    let (heads, tails) =
      digits_value_inj w (a * 2 ^ w + x) (b * 2 ^ w + y) xs ys (omega arith) h.1 k.1 n in
    let (high, low) = fields_inj w a x b y h.0 k.0 heads in (high, ap₂ ◌∷◌ low tails)

pub digits_inj :
    (w : ℕ) (xs ys : List ℕ)
    → length xs ≡ length ys
    → AreDigits w xs
    → AreDigits w ys
    → digits_value w 0 xs ≡ digits_value w 0 ys
    → xs ≡ ys
digits_inj w xs ys e h k n = (digits_value_inj w 0 0 xs ys e h k n).1
