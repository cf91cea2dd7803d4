-- ===== src/Bech32/Checksum.antt =====
-- The checksum of gen_bech32_vectors.rs, the check of BIP 173, and changes of one value.
use tos_spec.Base.{ℕ, zero, suc, ◌+◌, ◌*◌, ◌/◌, ◌%◌, ◌^◌, ◌≤◌, ◌<◌, ◌≡◌, ◌≢◌, refl, sym, ap, ◌∙◌}
use tos_spec.Base.{bit_and, bit_xor, List, [], ◌∷◌, ◌++◌, map, length, All-append, arith, ◌==◌}
use tos_spec.Base.{replicate, append_assoc, true, ◌||◌, ltb, eq_cases, inl, inr}
use tos_spec.Base.Bits.{
  bit_xor-zero, zero-bit_xor, bit_xor_self, bit_xor_comm, bit_xor_assoc, bit_xor_cancel, bit_xor-lt,
  bit_and_mask, eq_of_bit_xor-eq-zero,
}
use native.Mathlib.Nat.{pow-suc, one-le-pow, mul-le-mul_left, mul-le-mul_right}
use tos_spec.Base.Tables.{all_below, all_below_sound}
use tos_spec.Base.Bytes.{AreBytes}
use tos_spec.Bech32.{
  add_generators, polymod_step, polymod_from, polymod, hrp_expand, checksum_bytes, create_checksum,
}
use tos_spec.Bech32.Linear.{
  IsWord, AreQuintets, polymod_step_xor, polymod_step-IsWord, polymod_step_low, polymod_from-append,
  polymod_from-IsWord, spread, polymod_step_lem,
}

-- Values of five bits read as one number.
abbrev pub quintets_value : ℕ → List ℕ → ℕ
quintets_value d [] = d
quintets_value d (c ∷ cs) = quintets_value (d * 2 ^ 5 + c) cs

room_small : (d n : ℕ) → (d + 1) * 32 ^ suc n ≤ 2 ^ 30 → d < 2 ^ 25
room_small d n h = omega (
  arith,
  ap (λ (t : ℕ). (d + 1) * t) (pow-suc 32 n),
  mul-le-mul_left (d + 1) (one-le-pow n 32 (omega arith)),
)

room_step :
    (d c n : ℕ) → c < 2 ^ 5 → (d + 1) * 32 ^ suc n ≤ 2 ^ 30 → (d * 2 ^ 5 + c + 1) * 32 ^ n ≤ 2 ^ 30
room_step d c n h room =
    let le : d * 2 ^ 5 + c + 1 ≤ (d + 1) * 32 = omega arith in
    omega (arith, ap (λ (t : ℕ). (d + 1) * t) (pow-suc 32 n), mul-le-mul_right (32 ^ n) le)

-- Up to six values at the end shift in as they are.
polymod_from_tail :
    (s d : ℕ) (cs : List ℕ)
    → IsWord s
    → (d + 1) * 32 ^ length cs ≤ 2 ^ 30
    → AreQuintets cs
    → polymod_from (bit_xor s d) cs
      ≡ bit_xor (polymod_from s (replicate (length cs) 0)) (quintets_value d cs)
unfolding polymod_from
polymod_from_tail s d [] hs room q = refl
polymod_from_tail s d (c ∷ cs) hs room q =
    let small : d < 2 ^ 25 = room_small d (length cs) room in
    let step : polymod_step (bit_xor s d) c ≡ bit_xor (polymod_step s 0) (d * 2 ^ 5 + c) =
      ap (polymod_step (bit_xor s d)) (sym (zero-bit_xor c))
      ∙ polymod_step_xor s d 0 c hs (omega arith) (omega arith) q.0
      ∙ ap (bit_xor (polymod_step s 0)) (polymod_step_low d c small q.0) in
    rw step (
      polymod_from_tail (polymod_step s 0) (d * 2 ^ 5 + c) cs
        (polymod_step-IsWord s 0 hs (omega arith)) (room_step d c (length cs) q.0 room) q.1)

quintets_value-checksum_bytes : (p : ℕ) → IsWord p → quintets_value 0 (checksum_bytes p) ≡ p
unfolding checksum_bytes
quintets_value-checksum_bytes p h = omega (
  arith,
  bit_and_mask 5 (p / 33554432),
  bit_and_mask 5 (p / 1048576),
  bit_and_mask 5 (p / 32768),
  bit_and_mask 5 (p / 1024),
  bit_and_mask 5 (p / 32),
  bit_and_mask 5 (p / 1),
)

checksum_bytes-AreQuintets : (p : ℕ) → AreQuintets (checksum_bytes p)
unfolding checksum_bytes
checksum_bytes-AreQuintets p = omega (
  arith,
  bit_and_mask 5 (p / 33554432),
  bit_and_mask 5 (p / 1048576),
  bit_and_mask 5 (p / 32768),
  bit_and_mask 5 (p / 1024),
  bit_and_mask 5 (p / 32),
  bit_and_mask 5 (p / 1),
)

-- Six values of five bits, whatever the text is.
pub create_checksum_shape :
    (hrp bytes : List ℕ)
    → (length (create_checksum hrp bytes) ≡ 6) × AreQuintets (create_checksum hrp bytes)
unfolding create_checksum
create_checksum_shape hrp bytes =
    let word : ℕ = bit_xor (polymod (hrp_expand hrp ++ (bytes ++ replicate 6 0))) 1 in
    (unfold checksum_bytes in refl, checksum_bytes-AreQuintets word)

hrp_expand-AreQuintets : (hrp : List ℕ) → AreBytes hrp → AreQuintets (hrp_expand hrp)
unfolding hrp_expand
hrp_expand-AreQuintets hrp h =
    All-append (λ v. v < 2 ^ 5) (map (λ c. c / 2 ^ 5) hrp) (0 ∷ map (λ c. bit_and c 31) hrp)
      (high hrp h) (omega arith, low hrp)
  where
    high : (cs : List ℕ) → AreBytes cs → AreQuintets (map (λ c. c / 2 ^ 5) cs)
    high [] k = tt
    high (c ∷ cs) k = (omega (arith, k.0), high cs k.1)

    low : (cs : List ℕ) → AreQuintets (map (λ c. bit_and c 31) cs)
    low [] = tt
    low (c ∷ cs) = (omega (arith, bit_and_mask 5 c), low cs)

-- The six values of a word `p` behind a state `s`.
checksum_run :
    (s p : ℕ)
    → IsWord s
    → IsWord p
    → polymod_from s (checksum_bytes p) ≡ bit_xor (polymod_from s (replicate 6 0)) p
checksum_run s p hs hp =
    let six : length (checksum_bytes p) ≡ 6 = unfold checksum_bytes in refl in
    ap (λ (x : ℕ). polymod_from x (checksum_bytes p)) (sym (bit_xor-zero s))
    ∙ polymod_from_tail s 0 (checksum_bytes p) hs (rw six (omega arith))
        (checksum_bytes-AreQuintets p)
    ∙ rw (six, quintets_value-checksum_bytes p hp)

bit_xor_back : (r : ℕ) → bit_xor r (bit_xor r 1) ≡ 1
bit_xor_back r = cc (bit_xor_assoc r r 1, bit_xor_self r, zero-bit_xor 1)

-- For a prefix of bytes and values of five bits the remainder of the text with its checksum is 1,
-- which is what a decoder checks.
pub polymod-create_checksum :
    (hrp bytes : List ℕ)
    → AreBytes hrp
    → AreQuintets bytes
    → polymod (hrp_expand hrp ++ (bytes ++ create_checksum hrp bytes)) ≡ 1
unfolding polymod create_checksum
polymod-create_checksum hrp bytes h q =
    let front : List ℕ = hrp_expand hrp ++ bytes in
    let front_ok : AreQuintets front =
      All-append (λ v. v < 2 ^ 5) (hrp_expand hrp) bytes (hrp_expand-AreQuintets hrp h) q in
    let s : ℕ = polymod_from 1 front in
    let s_word : IsWord s = polymod_from-IsWord 1 front (omega arith) front_ok in
    let zeros : List ℕ = replicate 6 0 in
    let r : ℕ = polymod_from s zeros in
    let r_word : IsWord r = polymod_from-IsWord s zeros s_word (omega arith) in
    let p : ℕ = bit_xor r 1 in
    let p_word : IsWord p = bit_xor-lt 30 r 1 r_word (omega arith) in
    let split = λ (tail : List ℕ).
      ap (polymod_from 1) (sym (append_assoc (hrp_expand hrp) bytes tail))
      ∙ polymod_from-append 1 front tail in
    rw (split zeros, split (checksum_bytes p)) (checksum_run s p s_word p_word ∙ bit_xor_back r)

-- A round on a word other than 0 does not give 0 when 0 is shifted in.
step_zero_table : all_below 32 (λ t. t == 0 || ltb 0 (spread t % 32)) ≡ true
unfolding all_below spread add_generators
step_zero_table = refl

polymod_step-ne-zero : (d : ℕ) → IsWord d → d ≢ 0 → polymod_step d 0 ≢ 0
polymod_step-ne-zero d h ne z =
    let top : ℕ = d / 2 ^ 25 in
    let small : top < 32 = omega arith in
    let same : d % 2 ^ 25 * 2 ^ 5 + 0 ≡ spread top =
      eq_of_bit_xor-eq-zero _ _ (sym (polymod_step_lem d 0 h (omega arith)) ∙ z) in
    let test =
      all_below_sound (λ t. t == 0 || ltb 0 (spread t % 32)) 32 top small step_zero_table in
    elim (eq_cases top 0) [
      | inl (_, zero_top) ↦
          let spread_zero : spread top ≡ 0 =
            ap spread zero_top ∙ (unfold spread add_generators in refl) in
          ne (omega (arith, same, spread_zero, zero_top))
      | inr (other, _) ↦ absurd (ground (arith, test, other, same))
    ]

-- Zeros shifted in keep a word different from 0.
polymod_from_zeros-ne-zero : (n d : ℕ) → IsWord d → d ≢ 0 → polymod_from d (replicate n 0) ≢ 0
unfolding polymod_from
polymod_from_zeros-ne-zero zero d h ne = ne
polymod_from_zeros-ne-zero (suc n) d h ne =
    polymod_from_zeros-ne-zero n (polymod_step d 0) (polymod_step-IsWord d 0 h (omega arith))
      (polymod_step-ne-zero d h ne)

-- The remainders of two states drift apart by what zeros make of their difference.
polymod_from_xor :
    (s d : ℕ) (ys : List ℕ)
    → IsWord s
    → IsWord d
    → AreQuintets ys
    → polymod_from (bit_xor s d) ys
      ≡ bit_xor (polymod_from s ys) (polymod_from d (replicate (length ys) 0))
unfolding polymod_from
polymod_from_xor s d [] hs hd q = refl
polymod_from_xor s d (y ∷ ys) hs hd q =
    let step : polymod_step (bit_xor s d) y ≡ bit_xor (polymod_step s y) (polymod_step d 0) =
      ap (polymod_step (bit_xor s d)) (sym (bit_xor-zero y))
      ∙ polymod_step_xor s d y 0 hs hd q.0 (omega arith) in
    rw step (
      polymod_from_xor (polymod_step s y) (polymod_step d 0) ys (polymod_step-IsWord s y hs q.0)
        (polymod_step-IsWord d 0 hd (omega arith)) q.1)

zero_of_bit_xor : (r x : ℕ) → r ≡ bit_xor r x → x ≡ 0
zero_of_bit_xor r x e = cc (bit_xor_cancel x r, bit_xor_comm x r, bit_xor_self r)

-- The states after two different values differ by the difference of the values.
step_apart :
    (s v w : ℕ)
    → IsWord s
    → v < 2 ^ 5
    → w < 2 ^ 5
    → polymod_step s w ≡ bit_xor (polymod_step s v) (bit_xor v w)
step_apart s v w hs hv hw =
    let d : ℕ = bit_xor v w in
    let hd : d < 2 ^ 5 = bit_xor-lt 5 v w hv hw in
    let low : polymod_step 0 d ≡ d = polymod_step_low 0 d (omega arith) hd ∙ omega arith in
    let back : bit_xor v d ≡ w = cc (bit_xor_assoc v v w, bit_xor_self v, zero-bit_xor w) in
    cc (polymod_step_xor s 0 v d hs (omega arith) hv hd, bit_xor-zero s, low, back)

-- Two lists of values of five bits that differ at exactly one place have different remainders, so a
-- decoder refuses a text with a valid checksum of which one value was changed.
pub polymod_one_error :
    (xs ys : List ℕ) (v w : ℕ)
    → AreQuintets xs
    → AreQuintets ys
    → v < 2 ^ 5
    → w < 2 ^ 5
    → v ≢ w
    → polymod (xs ++ (v ∷ ys)) ≢ polymod (xs ++ (w ∷ ys))
unfolding polymod polymod_from
polymod_one_error xs ys v w qx qy hv hw ne same =
    let s : ℕ = polymod_from 1 xs in
    let hs : IsWord s = polymod_from-IsWord 1 xs (omega arith) qx in
    let d : ℕ = bit_xor v w in
    let hd : d < 2 ^ 5 = bit_xor-lt 5 v w hv hw in
    let hv' : IsWord (polymod_step s v) = polymod_step-IsWord s v hs hv in
    let apart : polymod_step s w ≡ bit_xor (polymod_step s v) d = step_apart s v w hs hv hw in
    let drift = polymod_from_xor (polymod_step s v) d ys hv' (omega arith) qy in
    let differ : d ≢ 0 = λ z. ne (eq_of_bit_xor-eq-zero v w z) in
    let same' : polymod_from (polymod_step s v) ys ≡ polymod_from (polymod_step s w) ys =
      sym (polymod_from-append 1 xs (v ∷ ys)) ∙ same ∙ polymod_from-append 1 xs (w ∷ ys) in
    polymod_from_zeros-ne-zero (length ys) d (omega arith) differ
      (zero_of_bit_xor _ _ (same' ∙ ap (λ (x : ℕ). polymod_from x ys) apart ∙ drift))
