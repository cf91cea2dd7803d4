-- ===== src/Base/Bits.antt =====
-- Laws of the binary operations at every width, from the equation for the lowest digit.
use Prim.Native.Nat.{min, max, digits, bitwise, differ}
use Prim.Native.Nat.{bit_and-bitwise, bit_or-bitwise, bit_xor-bitwise}
use native.Mathlib.Nat.{pow-suc, one-le-pow}
use tos_spec.Base.{ℕ, zero, suc, ◌+◌, ◌-◌, ◌*◌, ◌/◌, ◌%◌, ◌^◌, ◌≤◌, ◌<◌}
use tos_spec.Base.{bit_and, bit_or, bit_xor, ◌≡◌, refl, ap, ap₂, ◌∙◌, arith}
use tos_spec.Base.Order.{strong_induction}

-- Induction from the half of a number to the number.
halving : (P : ℕ → Type 0) → P 0 → ((x : ℕ) → P (x / 2) → P x) → (x : ℕ) → P x
halving P base up = strong_induction P go
  where
    go : (x : ℕ) → ((y : ℕ) → y < x → P y) → P x
    go zero below = base
    go (suc x) below = up (suc x) (below (suc x / 2) (omega arith))

module _ (tail : ℕ → ℕ) (op : ℕ → ℕ → ℕ) where
  -- Any fuel from the first number on gives what that number gives as fuel.
  enough_fuel : (fuel x y : ℕ) → x ≤ fuel → digits tail op fuel x y ≡ digits tail op x x y
  enough_fuel =
      strong_induction
        (λ fuel. (x y : ℕ) → x ≤ fuel → digits tail op fuel x y ≡ digits tail op x x y) go
    where
      go :
          (fuel : ℕ)
          → ((k : ℕ) → k < fuel → (x y : ℕ) → x ≤ k → digits tail op k x y ≡ digits tail op x x y)
          → (x y : ℕ) → x ≤ fuel
          → digits tail op fuel x y ≡ digits tail op x x y
      go zero less zero y le = refl
      go zero less (suc x) y le = absurd (omega arith)
      go (suc fuel) less zero y le = refl
      go (suc fuel) less (suc x) y le = omega (
        arith,
        less fuel (omega arith) (suc x / 2) (y / 2) (omega arith),
        less x (omega arith) (suc x / 2) (y / 2) (omega arith),
      )

  lowest_digit :
      (x y : ℕ)
      → bitwise tail op (suc x) y ≡ op (suc x % 2) (y % 2) + 2 * bitwise tail op (suc x / 2) (y / 2)
  lowest_digit x y = omega (arith, enough_fuel x (suc x / 2) (y / 2) (omega arith))

pub bit_and_step : (x y : ℕ) → bit_and x y ≡ min (x % 2) (y % 2) + 2 * bit_and (x / 2) (y / 2)
bit_and_step zero y = omega (arith, bit_and-bitwise 0 y, bit_and-bitwise (0 / 2) (y / 2))
bit_and_step (suc x) y = omega (
  arith,
  bit_and-bitwise (suc x) y,
  bit_and-bitwise (suc x / 2) (y / 2),
  lowest_digit (λ _. 0) min x y,
)

differ_lem : (x y : ℕ) → x < 2 → y < 2 → differ x y ≡ (x + y) % 2
differ_lem zero y h k = omega arith
differ_lem (suc zero) zero h k = refl
differ_lem (suc zero) (suc zero) h k = refl
differ_lem (suc zero) (suc (suc y)) h k = absurd (omega arith)
differ_lem (suc (suc x)) y h k = absurd (omega arith)

pub zero-bit_xor : (y : ℕ) → bit_xor 0 y ≡ y
zero-bit_xor y = bit_xor-bitwise 0 y

pub bit_xor_step : (x y : ℕ) → bit_xor x y ≡ bit_xor (x / 2) (y / 2) * 2 + (x % 2 + y % 2) % 2
bit_xor_step zero y = omega (arith, zero-bit_xor y, zero-bit_xor (y / 2))
bit_xor_step (suc x) y = omega (
  arith,
  bit_xor-bitwise (suc x) y,
  bit_xor-bitwise (suc x / 2) (y / 2),
  lowest_digit (λ z. z) differ x y,
  differ_lem (suc x % 2) (y % 2) (omega arith) (omega arith),
)

pub bit_xor-zero : (x : ℕ) → bit_xor x 0 ≡ x
bit_xor-zero = halving (λ x. bit_xor x 0 ≡ x) refl (λ x half. omega (arith, bit_xor_step x 0, half))

pub bit_xor_self : (x : ℕ) → bit_xor x x ≡ 0
bit_xor_self = halving (λ x. bit_xor x x ≡ 0) refl (λ x half. omega (arith, bit_xor_step x x, half))

pub bit_xor_comm : (x y : ℕ) → bit_xor x y ≡ bit_xor y x
bit_xor_comm =
    halving (λ x. (y : ℕ) → bit_xor x y ≡ bit_xor y x)
      (λ y. omega (arith, zero-bit_xor y, bit_xor-zero y))
      (λ x half y. omega (arith, bit_xor_step x y, bit_xor_step y x, half (y / 2)))

pub bit_xor_parts :
    (x y : ℕ)
    → (bit_xor x y / 2 ≡ bit_xor (x / 2) (y / 2)) × (bit_xor x y % 2 ≡ (x % 2 + y % 2) % 2)
bit_xor_parts x y = omega (arith, bit_xor_step x y)

pub bit_xor_assoc : (x y z : ℕ) → bit_xor (bit_xor x y) z ≡ bit_xor x (bit_xor y z)
bit_xor_assoc =
    halving (λ x. (y z : ℕ) → bit_xor (bit_xor x y) z ≡ bit_xor x (bit_xor y z))
      (λ y z. rw (zero-bit_xor y, zero-bit_xor (bit_xor y z)))
      (λ x half y z. ground (
        arith,
        bit_xor_step (bit_xor x y) z,
        bit_xor_step x (bit_xor y z),
        bit_xor_parts x y,
        bit_xor_parts y z,
        half (y / 2) (z / 2),
      ))

-- Exclusive or, regrouped by places.
pub bit_xor_swap :
    (a b c d : ℕ) → bit_xor (bit_xor a b) (bit_xor c d) ≡ bit_xor (bit_xor a c) (bit_xor b d)
bit_xor_swap a b c d = cc (
  bit_xor_assoc a b (bit_xor c d),
  bit_xor_assoc b c d,
  bit_xor_comm b c,
  bit_xor_assoc c b d,
  bit_xor_assoc a c (bit_xor b d),
)

pub bit_xor_cancel : (a b : ℕ) → bit_xor (bit_xor a b) b ≡ a
bit_xor_cancel a b = cc (bit_xor_assoc a b b, bit_xor_self b, bit_xor-zero a)

-- Two numbers whose exclusive or is 0 are the same.
pub eq_of_bit_xor-eq-zero : (a b : ℕ) → bit_xor a b ≡ 0 → a ≡ b
eq_of_bit_xor-eq-zero a b h = cc (bit_xor_cancel a b, zero-bit_xor b)

-- One place further up is twice as much.
double_place : (k q : ℕ) → q * 2 ^ k + q * 2 ^ k ≡ q * 2 ^ suc k
double_place k q = omega (arith, ap (λ (t : ℕ). q * t) (pow-suc 2 k))

pub bit_xor-lt : (k a b : ℕ) → a < 2 ^ k → b < 2 ^ k → bit_xor a b < 2 ^ k
bit_xor-lt zero a b h g =
    let ea : a ≡ 0 = omega arith in let eb : b ≡ 0 = omega arith in rw (ea, eb) (omega arith)
bit_xor-lt (suc k) a b h g = omega (
  arith,
  pow-suc 2 k,
  bit_xor_step a b,
  bit_xor-lt k (a / 2) (b / 2) (omega (arith, pow-suc 2 k)) (omega (arith, pow-suc 2 k)),
)

-- High and low fields are combined apart from one another.
pub bit_xor_fields :
    (k q r q' r' : ℕ)
    → r < 2 ^ k
    → r' < 2 ^ k
    → bit_xor (q * 2 ^ k + r) (q' * 2 ^ k + r') ≡ bit_xor q q' * 2 ^ k + bit_xor r r'
bit_xor_fields zero q r q' r' h h' =
    let e : r ≡ 0 = omega arith in
    let e' : r' ≡ 0 = omega arith in
    let eq : q * 2 ^ 0 + r ≡ q = omega arith in
    let eq' : q' * 2 ^ 0 + r' ≡ q' = omega arith in rw (eq, eq', e, e') (omega arith)
bit_xor_fields (suc k) q r q' r' h h' = ground (
  arith,
  bit_xor_step (q * 2 ^ suc k + r) (q' * 2 ^ suc k + r'),
  bit_xor_step r r',
  double_place k q,
  double_place k q',
  double_place k (bit_xor q q'),
  pow-suc 2 k,
  bit_xor_fields k q (r / 2) q' (r' / 2) (omega (arith, pow-suc 2 k)) (omega (arith, pow-suc 2 k)),
)

-- On disjoint fields exclusive or is a sum.
pub bit_xor_disjoint : (k q r : ℕ) → r < 2 ^ k → bit_xor (q * 2 ^ k) r ≡ q * 2 ^ k + r
bit_xor_disjoint k q r h =
    ground (arith, one-le-pow k 2, bit_xor_fields k q 0 0 r, bit_xor-zero q, zero-bit_xor r)

bit_and-zero : (x : ℕ) → bit_and x 0 ≡ 0
bit_and-zero = halving (λ x. bit_and x 0 ≡ 0) refl (λ x half. omega (arith, bit_and_step x 0, half))

low_digits : (k high low : ℕ) → low < 2 ^ k → bit_and (high * 2 ^ k + low) (2 ^ k - 1) ≡ low
low_digits zero high low small = ground (arith, bit_and-zero (high * 2 ^ 0 + low))
low_digits (suc k) high low small = ground (
  arith,
  low_digits k high (low / 2) (omega (arith, pow-suc 2 k)),
  bit_and_step (high * 2 ^ suc k + low) (2 ^ suc k - 1),
  double_place k high,
  pow-suc 2 k,
)

-- The low `k` digits by a mask, and as a remainder.
pub bit_and_mask : (k x : ℕ) → bit_and x (2 ^ k - 1) ≡ x % 2 ^ k
bit_and_mask k x =
    let positive : 0 < 2 ^ k = one-le-pow k 2 (omega arith) in
    ground (arith, positive, low_digits k (x / 2 ^ k) (x % 2 ^ k))

-- Exclusive or is at most the sum.
pub bit_xor-le-add : (x y : ℕ) → bit_xor x y ≤ x + y
bit_xor-le-add =
    halving (λ x. (y : ℕ) → bit_xor x y ≤ x + y) (λ y. omega (arith, zero-bit_xor y))
      (λ x half y. omega (arith, bit_xor_step x y, half (y / 2)))

-- Two numbers with the same highest digit differ in lower digits only.
pub bit_xor-lt_top :
    (k a b : ℕ) → 2 ^ k ≤ a → a < 2 ^ suc k → 2 ^ k ≤ b → b < 2 ^ suc k → bit_xor a b < 2 ^ k
bit_xor-lt_top k a b la ua lb ub =
    let ea : a ≡ 1 * 2 ^ k + (a - 2 ^ k) = omega arith in
    let eb : b ≡ 1 * 2 ^ k + (b - 2 ^ k) = omega arith in
    let fields =
      bit_xor_fields k 1 (a - 2 ^ k) 1 (b - 2 ^ k) (omega (arith, pow-suc 2 k))
        (omega (arith, pow-suc 2 k)) in
    let low =
      bit_xor-lt k (a - 2 ^ k) (b - 2 ^ k) (omega (arith, pow-suc 2 k))
        (omega (arith, pow-suc 2 k)) in
    let whole : bit_xor a b ≡ bit_xor (a - 2 ^ k) (b - 2 ^ k) =
      ap₂ bit_xor ea eb ∙ fields ∙ omega arith in
    rw whole low

bit_or_step : (x y : ℕ) → bit_or x y ≡ max (x % 2) (y % 2) + 2 * bit_or (x / 2) (y / 2)
bit_or_step zero y = omega (arith, bit_or-bitwise 0 y, bit_or-bitwise (0 / 2) (y / 2))
bit_or_step (suc x) y = omega (
  arith,
  bit_or-bitwise (suc x) y,
  bit_or-bitwise (suc x / 2) (y / 2),
  lowest_digit (λ z. z) max x y,
)

bit_or-zero : (x : ℕ) → bit_or x 0 ≡ x
bit_or-zero = halving (λ x. bit_or x 0 ≡ x) refl (λ x half. omega (arith, bit_or_step x 0, half))

-- Two numbers that share no digit are joined by a sum.
pub bit_or_disjoint :
    (k high low : ℕ) → low < 2 ^ k → bit_or (high * 2 ^ k) low ≡ high * 2 ^ k + low
bit_or_disjoint zero high low small = ground (arith, bit_or-zero (high * 2 ^ 0))
bit_or_disjoint (suc k) high low small = ground (
  arith,
  bit_or_disjoint k high (low / 2) (omega (arith, pow-suc 2 k)),
  bit_or_step (high * 2 ^ suc k) low,
  double_place k high,
  pow-suc 2 k,
)
