-- ===== src/Discv6/Distance/Bucket.antt =====
-- `log2_distance` of gen_discv6_vectors.rs and the highest bit of the distance.
use tos_spec.Base.{ℕ, suc, ◌+◌, ◌-◌, ◌*◌, ◌^◌, ◌≤◌, ◌<◌, ◌≡◌, refl, ap, ◌∙◌, arith}
use tos_spec.Base.{subst, List, [], ◌∷◌, length, Option, none, some, ◌↔◌, inl, inr}
use tos_spec.Base.{eq_cases, leb_cases, bit_xor, Option-cases}
use tos_spec.Base.Bits.{bit_xor-lt_top, bit_xor_comm, bit_xor_assoc, bit_xor_cancel}
use tos_spec.Base.Bytes.{AreBytes, be_value}
use tos_spec.Base.Arith.{pow_add}
use tos_spec.Discv6.Distance.{
  xor_distance, leading_zeros, bucket_of_byte, first_bucket, log2_distance,
}
use tos_spec.Discv6.Distance.Metric.{
  IsNodeId, number, be_value-cons, be_value-lt, pow_256, length-xor_distance, xor_distance-AreBytes,
  xor_distance_metric, xor_distance_comm, number-xor_distance,
}
use native.Mathlib.Nat.{mul-le-mul_right, pow-le-pow_right, pow-suc, one-le-pow}

-- A byte other than 0 has its highest bit at place `7 - leading_zeros`.
leading_zeros_lem :
    (b : ℕ)
    → 0 < b
    → b < 256
    → (leading_zeros b ≤ 7) × (2 ^ (7 - leading_zeros b) ≤ b) × (b + 1 ≤ 2 ^ (8 - leading_zeros b))
unfolding leading_zeros
leading_zeros_lem b pos lt = ground arith

-- No step of the arithmetic saturates or wraps for an index below 32.
bucket_of_byte_lem :
    (i n b : ℕ)
    → i + suc n ≡ 32
    → leading_zeros b ≤ 7
    → bucket_of_byte i b ≡ 8 * n + (7 - leading_zeros b)
unfolding bucket_of_byte
bucket_of_byte_lem i n b e h = ground arith

-- `k` is the place of the highest bit of `n`.
abbrev pub IsTopBit : ℕ → ℕ → Type 0
IsTopBit k n = (2 ^ k ≤ n) × (n < 2 ^ suc k)

-- The bytes that the loop has not reached decide the bucket.
abbrev Bucket : List ℕ → Option ℕ → Type 0
Bucket bs none = be_value 0 bs ≡ 0
Bucket bs (some k) = (k < 8 * length bs) × IsTopBit k (be_value 0 bs)

top_byte :
    (b n low : ℕ) (k : ℕ)
    → low < 256 ^ n
    → 2 ^ k ≤ b
    → b + 1 ≤ 2 ^ suc k
    → IsTopBit (8 * n + k) (b * 256 ^ n + low)
top_byte b n low k small lo hi = omega (
  arith,
  pow_add 2 (8 * n) k,
  pow_256 n,
  ap (λ (t : ℕ). t * 2 ^ k) (pow_256 n),
  pow-suc 2 (8 * n + k),
  ap (λ (t : ℕ). t * 256 ^ n) (pow-suc 2 k),
  mul-le-mul_right (256 ^ n) lo,
  mul-le-mul_right (256 ^ n) hi,
)

Bucket-cons :
    (b : ℕ) (bs : List ℕ) (o : Option ℕ)
    → be_value 0 (b ∷ bs) ≡ be_value 0 bs
    → Bucket bs o
    → Bucket (b ∷ bs) o
Bucket-cons b bs none e h = e ∙ h
Bucket-cons b bs (some k) e h = (omega arith, rw e h.1)

first_bucket-Bucket :
    (i : ℕ) (bs : List ℕ) → i + length bs ≡ 32 → AreBytes bs → Bucket bs (first_bucket i bs)
unfolding first_bucket
first_bucket-Bucket i [] e h = unfold be_value in refl
first_bucket-Bucket i (b ∷ bs) e h = elim (eq_cases b 0) [
  | inl (test, z) ↦ rw test (
      Bucket-cons b bs (first_bucket (i + 1) bs)
        (omega (arith, be_value-cons b bs, ap (λ (t : ℕ). t * 256 ^ length bs) z))
        (first_bucket-Bucket (i + 1) bs (omega arith) h.1))
  | inr (test, nz) ↦
      let (small, lo, hi) = leading_zeros_lem b (omega arith) h.0 in
      let n = length bs in
      let top : suc (7 - leading_zeros b) ≡ 8 - leading_zeros b = omega arith in
      let bound =
        top_byte b n (be_value 0 bs) (7 - leading_zeros b) (be_value-lt bs h.1) lo (rw top hi) in
      rw (test, bucket_of_byte_lem i n b e small, be_value-cons b bs) (omega arith, bound)
]

log2_distance-Bucket :
    (a b : List ℕ)
    → IsNodeId a
    → IsNodeId b
    → (o : Option ℕ) → log2_distance a b ≡ o
    → Bucket (xor_distance a b) o
unfolding log2_distance
log2_distance-Bucket a b ha hb o e = subst (Bucket (xor_distance a b)) e (
    first_bucket-Bucket 0 (xor_distance a b) (omega (arith, length-xor_distance a b (omega arith)))
      (xor_distance-AreBytes a b ha.bytes hb.bytes))

-- For node identifiers of 32 bytes `log2_distance` gives `none` exactly between equal identifiers; a
-- bucket that it gives is below 256 and the place of the highest bit of the distance; and it does
-- not depend on the direction.
pub log2_distance_lem :
    (a b : List ℕ)
    → IsNodeId a
    → IsNodeId b
    → ((log2_distance a b ≡ none) ↔ (a ≡ b))
      × ((k : ℕ) → log2_distance a b ≡ some k → (k < 256) × IsTopBit k (number (xor_distance a b)))
      × (log2_distance a b ≡ log2_distance b a)
log2_distance_lem a b ha hb =
    let metric = xor_distance_metric a b b ha hb hb in
    (
      (
        λ e. metric.0.0 (log2_distance-Bucket a b ha hb none e),
        λ e. elim (Option-cases (log2_distance a b)) [
          | inl none_there ↦ none_there
          | inr (k, e') ↦
              let lower = (log2_distance-Bucket a b ha hb (some k) e').1 in
              absurd (omega (arith, one-le-pow k 2, metric.0.1 e, lower))
        ],
      ),
      λ k e.
          let found = log2_distance-Bucket a b ha hb (some k) e in
          (omega (arith, found.0, length-xor_distance a b (omega arith)), found.1),
      unfold log2_distance in rw (xor_distance_comm a b),
    )

number_through :
    (a b c : List ℕ)
    → IsNodeId a
    → IsNodeId b
    → IsNodeId c
    → number (xor_distance b c) ≡ bit_xor (number (xor_distance a b)) (number (xor_distance a c))
number_through a b c ha hb hc =
    rw
      (
        number-xor_distance b c (omega arith) hb.bytes hc.bytes,
        number-xor_distance a b (omega arith) ha.bytes hb.bytes,
        number-xor_distance a c (omega arith) ha.bytes hc.bytes,
      )
      (cc (
        bit_xor_comm (number a) (number b),
        bit_xor_assoc (bit_xor (number b) (number a)) (number a) (number c),
        bit_xor_cancel (number b) (number a),
      ))

-- For node identifiers of 32 bytes: two that lie in one bucket of a third, and in a bucket of one
-- another, lie in a lower bucket of one another.
pub log2_distance_bucket :
    (a b c : List ℕ) (i j : ℕ)
    → IsNodeId a
    → IsNodeId b
    → IsNodeId c
    → log2_distance a b ≡ some i
    → log2_distance a c ≡ some i
    → log2_distance b c ≡ some j
    → j < i
log2_distance_bucket a b c i j ha hb hc eb ec e =
    let top_b = (log2_distance-Bucket a b ha hb (some i) eb).1 in
    let top_c = (log2_distance-Bucket a c ha hc (some i) ec).1 in
    let top = (log2_distance-Bucket b c hb hc (some j) e).1 in
    let near =
      bit_xor-lt_top i (number (xor_distance a b)) (number (xor_distance a c)) top_b.0 top_b.1
        top_c.0 top_c.1 in
    let far : 2 ^ j < 2 ^ i = omega (arith, top.0, rw (← number_through a b c ha hb hc) at near) in
    elim (leb_cases i j) [
      | inl (_, le) ↦ absurd (omega (arith, far, pow-le-pow_right {n = 2} (omega arith) le))
      | inr (_, lt) ↦ lt
    ]
