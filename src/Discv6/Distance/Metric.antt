-- ===== src/Discv6/Distance/Metric.antt =====
-- The distance of gen_discv6_vectors.rs and the numbers that node identifiers stand for.
use tos_spec.Base.{
  ℕ, ◌⊎◌, inl, inr, subst, zero, suc, ◌+◌, ◌*◌, ◌^◌, ◌≤◌, ◌<◌, ◌≡◌, refl, ap, ap₂, ◌∙◌, sym, arith,
}
use tos_spec.Base.{bit_xor, List, [], ◌∷◌, length, ◌↔◌}
use tos_spec.Base.Bits.{
  bit_xor_cancel, bit_xor-le-add, eq_of_bit_xor-eq-zero, bit_xor_comm, bit_xor_assoc, bit_xor_self,
  bit_xor-lt, bit_xor_fields,
}
use tos_spec.Base.Bytes.{AreBytes, be_value}
use tos_spec.Base.Arith.{pow_add}
use tos_spec.Discv6.Distance.{xor_distance}
use native.Mathlib.Nat.{pow-suc, mul-le-mul_right, zero-add}

-- A node identifier.
pub record IsNodeId (id : List ℕ) : Type 0 where
  pub size : length id ≡ 32
  pub bytes : AreBytes id

abbrev pub number : List ℕ → ℕ
number = be_value 0

pub length-xor_distance :
    (a b : List ℕ) → length a ≡ length b → length (xor_distance a b) ≡ length a
unfolding xor_distance
length-xor_distance [] b e = refl
length-xor_distance (x ∷ a) [] e = absurd (omega arith)
length-xor_distance (x ∷ a) (y ∷ b) e = omega (arith, length-xor_distance a b (omega arith))

pub xor_distance-AreBytes : (a b : List ℕ) → AreBytes a → AreBytes b → AreBytes (xor_distance a b)
unfolding xor_distance
xor_distance-AreBytes [] b h k = tt
xor_distance-AreBytes (x ∷ a) [] h k = tt
xor_distance-AreBytes (x ∷ a) (y ∷ b) h k =
    (bit_xor-lt 8 x y h.0 k.0, xor_distance-AreBytes a b h.1 k.1)

be_value_step : (acc b : ℕ) (bs : List ℕ) → be_value acc (b ∷ bs) ≡ be_value (acc * 256 + b) bs
unfolding be_value
be_value_step acc b bs = refl

be_value_head : (b : ℕ) (bs : List ℕ) → be_value 0 (b ∷ bs) ≡ be_value b bs
unfolding be_value
be_value_head b bs = rw zero-add

-- The accumulator of a number in big-endian order.
be_value_acc : (acc : ℕ) (bs : List ℕ) → be_value acc bs ≡ acc * 256 ^ length bs + be_value 0 bs
be_value_acc acc [] = unfold be_value in omega arith
be_value_acc acc (b ∷ bs) = omega (
  arith,
  be_value_step acc b bs,
  be_value_head b bs,
  be_value_acc (acc * 256 + b) bs,
  be_value_acc b bs,
  ap (λ (t : ℕ). acc * t) (pow-suc 256 (length bs)),
)

-- The first byte has the highest place.
pub be_value-cons :
    (b : ℕ) (bs : List ℕ) → be_value 0 (b ∷ bs) ≡ b * 256 ^ length bs + be_value 0 bs
be_value-cons b bs = be_value_head b bs ∙ be_value_acc b bs

pub be_value-lt : (bs : List ℕ) → AreBytes bs → be_value 0 bs < 256 ^ length bs
be_value-lt [] h = unfold be_value in omega arith
be_value-lt (b ∷ bs) h = omega (
  arith,
  be_value-cons b bs,
  be_value-lt bs h.1,
  pow-suc 256 (length bs),
  mul-le-mul_right (256 ^ length bs) h.0,
)

pub pow_256 : (n : ℕ) → 256 ^ n ≡ 2 ^ (8 * n)
pow_256 zero = refl
pow_256 (suc n) =
    let e : 8 * suc n ≡ 8 * n + 8 = omega arith in
    rw (e, pow_add 2 (8 * n) 8, pow-suc 256 n, pow_256 n) refl

-- For byte strings of one length the distance, read as a number, is the exclusive or of the numbers
-- that they stand for.
pub number-xor_distance :
    (a b : List ℕ)
    → length a ≡ length b
    → AreBytes a
    → AreBytes b
    → number (xor_distance a b) ≡ bit_xor (number a) (number b)
unfolding xor_distance
number-xor_distance [] [] e h k = unfold be_value in refl
number-xor_distance [] (y ∷ b) e h k = absurd (omega arith)
number-xor_distance (x ∷ a) [] e h k = absurd (omega arith)
number-xor_distance (x ∷ a) (y ∷ b) e h k =
    let same : length b ≡ length a = omega arith in
    let size = length-xor_distance a b (omega arith) in
    let places = pow_256 (length a) in
    let low : number a < 2 ^ (8 * length a) =
      subst (λ p. number a < p) places (be_value-lt a h.1) in
    let low' : number b < 2 ^ (8 * length a) =
      subst (λ p. number b < p) (ap (λ n. 256 ^ n) same ∙ places) (be_value-lt b k.1) in
    rw
      (
        be_value-cons (bit_xor x y) (xor_distance a b),
        be_value-cons x a,
        be_value-cons y b,
        size,
        same,
        places,
        number-xor_distance a b (omega arith) h.1 k.1,
      )
      (sym (bit_xor_fields (8 * length a) x (number a) y (number b) low low'))

-- A quotient does not depend on the remainder.
same_quotient : (p x y : ℕ) {u v : ℕ} → u < p → v < p → x * p + u ≡ y * p + v → x ≡ y
same_quotient p x y hu hv e = elim (compare_cases x y) [
  | inl lt ↦ absurd (omega (arith, mul-le-mul_right p lt))
  | inr (inl eq) ↦ eq
  | inr (inr gt) ↦ absurd (omega (arith, mul-le-mul_right p gt))
]
  where
    compare_cases : (m n : ℕ) → (m < n) ⊎ ((m ≡ n) ⊎ (n < m))
    compare_cases m n = ground arith

-- Byte strings of one length are told apart by their numbers.
be_value_inj :
    (a b : List ℕ) → length a ≡ length b → AreBytes a → AreBytes b → number a ≡ number b → a ≡ b
be_value_inj [] [] e h k n = refl
be_value_inj [] (y ∷ b) e h k n = absurd (omega arith)
be_value_inj (x ∷ a) [] e h k n = absurd (omega arith)
be_value_inj (x ∷ a) (y ∷ b) e h k n =
    let same : length b ≡ length a = omega arith in
    let high : x * 256 ^ length a + number a ≡ y * 256 ^ length a + number b =
      sym (be_value-cons x a) ∙ n ∙ be_value-cons y b ∙ rw same in
    let low' : number b < 256 ^ length a = rw same at (be_value-lt b k.1) in
    let heads : x ≡ y = same_quotient (256 ^ length a) x y (be_value-lt a h.1) low' high in
    let tails : number a ≡ number b = omega (arith, ap (λ (t : ℕ). t * 256 ^ length a) heads) in
    ap₂ ◌∷◌ heads (be_value_inj a b (omega arith) h.1 k.1 tails)

pub xor_distance_comm : (a b : List ℕ) → xor_distance a b ≡ xor_distance b a
unfolding xor_distance
xor_distance_comm [] [] = refl
xor_distance_comm [] (y ∷ b) = refl
xor_distance_comm (x ∷ a) [] = refl
xor_distance_comm (x ∷ a) (y ∷ b) = ap₂ ◌∷◌ (bit_xor_comm x y) (xor_distance_comm a b)

xor_distance_back : (a b : List ℕ) → length a ≡ length b → xor_distance a (xor_distance a b) ≡ b
unfolding xor_distance
xor_distance_back [] [] e = refl
xor_distance_back [] (y ∷ b) e = absurd (omega arith)
xor_distance_back (x ∷ a) [] e = absurd (omega arith)
xor_distance_back (x ∷ a) (y ∷ b) e =
    ap₂ ◌∷◌
      (bit_xor_comm x (bit_xor x y)
        ∙ ap (λ (t : ℕ). bit_xor t x) (bit_xor_comm x y)
        ∙ bit_xor_cancel y x)
      (xor_distance_back a b (omega arith))

-- Passing through a third number.
through : (m n k : ℕ) → bit_xor m k ≤ bit_xor m n + bit_xor n k
through m n k =
    let join : bit_xor (bit_xor m n) (bit_xor n k) ≡ bit_xor m k =
      cc (bit_xor_assoc (bit_xor m n) n k, bit_xor_cancel m n) in
    rw (← join) (bit_xor-le-add (bit_xor m n) (bit_xor n k))

-- On node identifiers of 32 bytes the distance, as a number, is 0 exactly between equal identifiers,
-- does not depend on the direction and satisfies the triangle inequality; and from an identifier
-- each distance leads back to the one identifier that it was taken to.
pub xor_distance_metric :
    (a b c : List ℕ)
    → IsNodeId a
    → IsNodeId b
    → IsNodeId c
    → ((number (xor_distance a b) ≡ 0) ↔ (a ≡ b))
      × (xor_distance a b ≡ xor_distance b a)
      × (number (xor_distance a c) ≤ number (xor_distance a b) + number (xor_distance b c))
      × (xor_distance a (xor_distance a b) ≡ b)
xor_distance_metric a b c ha hb hc =
    let ab = number-xor_distance a b (omega arith) ha.bytes hb.bytes in
    let bc = number-xor_distance b c (omega arith) hb.bytes hc.bytes in
    let ac = number-xor_distance a c (omega arith) ha.bytes hc.bytes in
    (
      (
        λ z.
            be_value_inj a b (omega arith) ha.bytes hb.bytes
              (eq_of_bit_xor-eq-zero (number a) (number b) (sym ab ∙ z)),
        λ e. ab ∙ ap (λ l. bit_xor (number l) (number b)) e ∙ bit_xor_self (number b),
      ),
      xor_distance_comm a b,
      rw (ab, bc, ac) (through (number a) (number b) (number c)),
      xor_distance_back a b (omega arith),
    )
