-- ===== src/Base/Arith.antt =====
-- Laws of powers and remainders by variable moduli.
use native.Mathlib.Nat.{
  pow-suc, pow-zero, mul_assoc, mul-one, add-zero, add-suc, mul-add-mod_self_right, mod-eq_of_lt,
  mul-le-mul_right, div-add-mod, one-le-pow, mul-div_cancel, mul-mod_left, mul-add-div_right,
  div-eq_of_lt,
}
use tos_spec.Base.{ℕ, zero, suc, ◌+◌, ◌*◌, ◌/◌, ◌%◌, ◌^◌, ◌<◌, ◌≡◌, refl, ap, ◌∙◌, sym, arith}

pub pow_add : (b m n : ℕ) → b ^ (m + n) ≡ b ^ m * b ^ n
pow_add b m zero = simp (add-zero, pow-zero, mul-one) refl
pow_add b m (suc n) = simp (add-suc, pow-suc) (rw (pow_add b m n, mul_assoc (b ^ m) (b ^ n) b))

pub mod_below : (x y : ℕ) → 0 < y → x % y < y
mod_below x y h = omega arith

-- The remainder by a product, place by place.
pub mod_product : (a q m : ℕ) → 0 < q → 0 < m → a % (m * q) ≡ a / q % m * q + a % q
mod_product a q m hq hm =
    let k : ℕ = a / q / m in
    let r : ℕ = a / q % m in
    let low : ℕ = r * q + a % q in
    let fits : low < m * q =
      omega (arith, mul-le-mul_right q (mod_below (a / q) m hm), mod_below a q hq) in
    let whole : k * (m * q) + low ≡ a =
      omega (arith, div-add-mod a q, ap (λ (t : ℕ). t * q) (div-add-mod (a / q) m)) in
    ap (λ t. t % (m * q)) (sym whole) ∙ mul-add-mod_self_right k (m * q) low ∙ mod-eq_of_lt fits

-- A remainder taken after a shift.
pub shift_mod : (a f g : ℕ) → a * 2 ^ f % 2 ^ (g + f) ≡ a % 2 ^ g * 2 ^ f
shift_mod a f g =
    let q : ℕ = 2 ^ f in
    let m : ℕ = 2 ^ g in
    let hq : 0 < q = one-le-pow f 2 (omega arith) in
    let hm : 0 < m = one-le-pow g 2 (omega arith) in
    let whole : m * q ≡ 2 ^ (g + f) = sym (pow_add 2 g f) in
    let quotient : a * q / q ≡ a = mul-div_cancel a hq in
    let rest : a * q % q ≡ 0 = mul-mod_left a q in
    ap (λ t. a * q % t) (sym whole)
    ∙ mod_product (a * q) q m hq hm
    ∙ (rw (quotient, rest) (omega arith))

-- The remainder by a smaller power.
pub mod-mod_pow : (a b k : ℕ) → a % 2 ^ (k + b) % 2 ^ b ≡ a % 2 ^ b
mod-mod_pow a b k =
    let q : ℕ = 2 ^ b in
    let hq : 0 < q = one-le-pow b 2 (omega arith) in
    ap (λ (t : ℕ). a % t % q) (pow_add 2 k b)
    ∙ ap (λ (t : ℕ). t % q) (mod_product a q (2 ^ k) hq (one-le-pow k 2 (omega arith)))
    ∙ mul-add-mod_self_right (a / q % 2 ^ k) q (a % q)
    ∙ mod-eq_of_lt (mod_below a q hq)

-- The remainder of two fields, the lower of `f` digits.
pub field_mod : (x v f b : ℕ) → v < 2 ^ f → (x * 2 ^ f + v) % 2 ^ (b + f) ≡ x % 2 ^ b * 2 ^ f + v
field_mod x v f b h =
    let q : ℕ = 2 ^ f in
    let hq : 0 < q = one-le-pow f 2 (omega arith) in
    let quotient : (x * q + v) / q ≡ x = mul-add-div_right hq x v ∙ omega (arith, div-eq_of_lt h) in
    let rest : (x * q + v) % q ≡ v = mul-add-mod_self_right x q v ∙ mod-eq_of_lt h in
    ap (λ t. (x * q + v) % t) (pow_add 2 b f)
    ∙ mod_product (x * q + v) q (2 ^ b) hq (one-le-pow b 2 (omega arith))
    ∙ rw (quotient, rest)

-- Two fields are read back from their sum.
pub fields_inj :
    (k q r q' r' : ℕ)
    → r < 2 ^ k
    → r' < 2 ^ k
    → q * 2 ^ k + r ≡ q' * 2 ^ k + r'
    → (q ≡ q') × (r ≡ r')
fields_inj k q r q' r' h h' e =
    let p : ℕ = 2 ^ k in
    let hp : 0 < p = one-le-pow k 2 (omega arith) in
    let quotient : (q * p + r) / p ≡ (q' * p + r') / p = ap (λ (t : ℕ). t / p) e in
    let rest : (q * p + r) % p ≡ (q' * p + r') % p = ap (λ (t : ℕ). t % p) e in
    (
      omega (
        arith,
        quotient,
        mul-add-div_right hp q r,
        mul-add-div_right hp q' r',
        div-eq_of_lt h,
        div-eq_of_lt h',
      ),
      omega (
        arith,
        rest,
        mul-add-mod_self_right q p r,
        mul-add-mod_self_right q' p r',
        mod-eq_of_lt h,
        mod-eq_of_lt h',
      ),
    )
