-- ===== src/Base/Decimal.antt =====
-- Numbers in decimal, as `{}` prints an unsigned integer of 64 bits, and their reading.
use tos_spec.Base.{ℕ, zero, suc, ◌+◌, ◌-◌, ◌*◌, ◌/◌, ◌%◌, ◌^◌, ◌≤◌, ◌<◌, ◌≡◌, refl, arith}
use tos_spec.Base.{List, [], ◌∷◌, ◌++◌, All, All-append, ltb, if◌then◌else◌, ltb_cases, inl, inr}
use native.Mathlib.Nat.{pow-suc}

-- At most `k` digits.
unfoldable pub decimal_digits : ℕ → ℕ → List ℕ
decimal_digits zero n = []
decimal_digits (suc k) n =
    let front = decimal_digits k (n / 10) in
    if ltb n 10 then (b'0' + n) ∷ [] else front ++ ((b'0' + n % 10) ∷ [])

-- Twenty digits are enough below 2 ^ 64.
unfoldable pub decimal : ℕ → List ℕ
decimal n = decimal_digits 20 n

-- The number that digits stand for, with those already read in `acc`.
unfoldable pub decimal_value : ℕ → List ℕ → ℕ
decimal_value acc [] = acc
decimal_value acc (c ∷ cs) = decimal_value (acc * 10 + (c - b'0')) cs

abbrev pub IsDigit : ℕ → Type 0
IsDigit c = (b'0' ≤ c) × (c < 58)

decimal_value-append_one :
    (acc : ℕ) (cs : List ℕ) (c : ℕ)
    → decimal_value acc (cs ++ (c ∷ [])) ≡ decimal_value acc cs * 10 + (c - b'0')
unfolding decimal_value
decimal_value-append_one acc [] c = refl
decimal_value-append_one acc (x ∷ xs) c = decimal_value-append_one (acc * 10 + (x - b'0')) xs c

decimal_value-decimal_digits : (k n : ℕ) → n < 10 ^ k → decimal_value 0 (decimal_digits k n) ≡ n
unfolding decimal_digits decimal_value
decimal_value-decimal_digits zero n h = omega arith
decimal_value-decimal_digits (suc k) n h =
    let front = decimal_digits k (n / 10) in
    let before = decimal_value-decimal_digits k (n / 10) (omega (arith, pow-suc 10 k)) in
    elim (ltb_cases n 10) [
      | inl (e, small) ↦ rw e (omega arith)
      | inr (e, large) ↦
          rw (e, decimal_value-append_one 0 front (b'0' + n % 10), before) (omega arith)
    ]

pub decimal_value-decimal : (n : ℕ) → n < 2 ^ 64 → decimal_value 0 (decimal n) ≡ n
unfolding decimal
decimal_value-decimal n h = decimal_value-decimal_digits 20 n (omega arith)

digits-IsDigit : (k n : ℕ) → All IsDigit (decimal_digits k n)
unfolding decimal_digits
digits-IsDigit zero n = tt
digits-IsDigit (suc k) n =
    let front = decimal_digits k (n / 10) in
    elim (ltb_cases n 10) [
      | inl (e, small) ↦ rw e (omega arith)
      | inr (e, large) ↦ rw e (
          All-append IsDigit front ((b'0' + n % 10) ∷ []) (digits-IsDigit k (n / 10)) (omega arith))
    ]

pub decimal-IsDigit : (n : ℕ) → All IsDigit (decimal n)
unfolding decimal
decimal-IsDigit n = digits-IsDigit 20 n
