-- ===== src/Bech32/Linear.antt =====
-- The polynomial remainder of gen_bech32_vectors.rs and the exclusive or of its inputs.
use tos_spec.Base.Tables.{all_below, all_below_sound}
use tos_spec.Base.{
  ℕ, true, Bool-cases, inl, inr, ltb, ==_iff, ◌+◌, ◌*◌, ◌/◌, ◌%◌, ◌^◌, ◌<◌, ◌≡◌, refl, sym, ap₂,
  ◌∙◌,
}
use tos_spec.Base.{bit_and, bit_xor, List, [], ◌∷◌, ◌++◌, All, arith, ◌==◌}
use tos_spec.Base.Bits.{
  bit_xor-zero, zero-bit_xor, bit_xor_assoc, bit_xor_swap, bit_xor-lt, bit_xor_fields,
  bit_xor_disjoint, bit_and_mask,
}
use tos_spec.Bech32.{generator, add_generators, polymod_step, polymod_from}

-- The words of the remainder have 30 bits.
abbrev pub IsWord : ℕ → Type 0
IsWord n = n < 2 ^ 30

-- What a round adds for the highest five bits.
unfoldable pub spread : ℕ → ℕ
spread top = add_generators top 0 generator 0

add_generators_from :
    (top i : ℕ) (items : List ℕ) (chk : ℕ)
    → add_generators top i items chk ≡ bit_xor chk (add_generators top i items 0)
unfolding add_generators
add_generators_from top i [] chk = sym (bit_xor-zero chk)
add_generators_from top i (item ∷ items) chk = elim (Bool-cases (bit_and (top / 2 ^ i) 1 == 1)) [
  | inl on ↦ rw on (
      cc (
        add_generators_from top (i + 1) items (bit_xor chk item),
        add_generators_from top (i + 1) items (bit_xor 0 item),
        zero-bit_xor item,
        bit_xor_assoc chk item (add_generators top (i + 1) items 0),
      ))
  | inr off ↦ rw off (add_generators_from top (i + 1) items chk)
]

-- All pairs of five bits.
spread_table :
    all_below 32 (λ s. all_below 32 (λ t. spread (bit_xor s t) == bit_xor (spread s) (spread t)))
    ≡ true
unfolding all_below spread add_generators
spread_table = refl

spread_xor : (s t : ℕ) → s < 32 → t < 32 → spread (bit_xor s t) ≡ bit_xor (spread s) (spread t)
spread_xor s t hs ht =
    (==_iff _ _).0 (all_below_sound _ 32 t ht (all_below_sound _ 32 s hs spread_table))

word_table : all_below 32 (λ t. ltb (spread t) (2 ^ 30)) ≡ true
unfolding all_below spread add_generators
word_table = refl

spread-IsWord : (t : ℕ) → t < 32 → IsWord (spread t)
spread-IsWord t h = ground (arith, all_below_sound (λ t. ltb (spread t) (2 ^ 30)) 32 t h word_table)

pub polymod_step_lem :
    (chk value : ℕ)
    → IsWord chk
    → value < 2 ^ 5
    → polymod_step chk value ≡ bit_xor (chk % 2 ^ 25 * 2 ^ 5 + value) (spread (chk / 2 ^ 25))
unfolding polymod_step spread
polymod_step_lem chk value h v =
    let shifted : bit_and chk 0x1ffffff * 2 ^ 5 % 2 ^ 32 ≡ chk % 2 ^ 25 * 2 ^ 5 =
      omega (arith, bit_and_mask 25 chk) in
    rw (shifted, bit_xor_disjoint 5 (chk % 2 ^ 25) value v)
      (add_generators_from (chk / 2 ^ 25) 0 generator (chk % 2 ^ 25 * 2 ^ 5 + value))

pub polymod_step-IsWord :
    (chk value : ℕ) → IsWord chk → value < 2 ^ 5 → IsWord (polymod_step chk value)
polymod_step-IsWord chk value h v =
    rw (polymod_step_lem chk value h v)
      (bit_xor-lt 30 _ _ (omega arith) (spread-IsWord (chk / 2 ^ 25) (omega arith)))

-- The two parts of a word of 30 bits, and of an exclusive or of two.
fields_xor :
    (a b : ℕ)
    → (bit_xor a b / 2 ^ 25 ≡ bit_xor (a / 2 ^ 25) (b / 2 ^ 25))
      × (bit_xor a b % 2 ^ 25 ≡ bit_xor (a % 2 ^ 25) (b % 2 ^ 25))
fields_xor a b =
    let ea : a / 2 ^ 25 * 2 ^ 25 + a % 2 ^ 25 ≡ a = omega arith in
    let eb : b / 2 ^ 25 * 2 ^ 25 + b % 2 ^ 25 ≡ b = omega arith in
    let whole =
      sym (ap₂ bit_xor ea eb)
      ∙ bit_xor_fields 25 (a / 2 ^ 25) (a % 2 ^ 25) (b / 2 ^ 25) (b % 2 ^ 25) (omega arith)
          (omega arith) in
    omega (arith, whole, bit_xor-lt 25 (a % 2 ^ 25) (b % 2 ^ 25) (omega arith) (omega arith))

-- One round is linear.
pub polymod_step_xor :
    (a b v w : ℕ)
    → IsWord a
    → IsWord b
    → v < 2 ^ 5
    → w < 2 ^ 5
    → polymod_step (bit_xor a b) (bit_xor v w) ≡ bit_xor (polymod_step a v) (polymod_step b w)
polymod_step_xor a b v w ha hb hv hw =
    let parts = fields_xor a b in
    rw
      (
        polymod_step_lem (bit_xor a b) (bit_xor v w) (bit_xor-lt 30 a b ha hb)
            (bit_xor-lt 5 v w hv hw),
        polymod_step_lem a v ha hv,
        polymod_step_lem b w hb hw,
        parts.0,
        parts.1,
        spread_xor (a / 2 ^ 25) (b / 2 ^ 25) (omega arith) (omega arith),
        ← bit_xor_fields 5 (a % 2 ^ 25) v (b % 2 ^ 25) w hv hw,
      )
      (bit_xor_swap (a % 2 ^ 25 * 2 ^ 5 + v) (b % 2 ^ 25 * 2 ^ 5 + w) (spread (a / 2 ^ 25))
        (spread (b / 2 ^ 25)))

-- The values of five bits that the remainder is taken of.
abbrev pub AreQuintets : List ℕ → Type 0
AreQuintets = All (λ v. v < 2 ^ 5)

pub polymod_from-append :
    (chk : ℕ) (xs ys : List ℕ) → polymod_from chk (xs ++ ys) ≡ polymod_from (polymod_from chk xs) ys
unfolding polymod_from
polymod_from-append chk [] ys = refl
polymod_from-append chk (x ∷ xs) ys = polymod_from-append (polymod_step chk x) xs ys

pub polymod_from-IsWord :
    (chk : ℕ) (xs : List ℕ) → IsWord chk → AreQuintets xs → IsWord (polymod_from chk xs)
unfolding polymod_from
polymod_from-IsWord chk [] h q = h
polymod_from-IsWord chk (x ∷ xs) h q =
    polymod_from-IsWord (polymod_step chk x) xs (polymod_step-IsWord chk x h q.0) q.1

-- A round on a word whose highest five bits are 0 only shifts the value in.
pub polymod_step_low :
    (d value : ℕ) → d < 2 ^ 25 → value < 2 ^ 5 → polymod_step d value ≡ d * 2 ^ 5 + value
polymod_step_low d value h v =
    let low : d % 2 ^ 25 ≡ d = omega arith in
    let top : d / 2 ^ 25 ≡ 0 = omega arith in
    rw (polymod_step_lem d value (omega arith) v, low, top)
      (unfold spread add_generators in bit_xor-zero (d * 2 ^ 5 + value))
