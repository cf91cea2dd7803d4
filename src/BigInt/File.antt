-- ===== src/BigInt/File.antt =====
-- The lists of vectors of gen_bigint_vectors.rs against arithmetic modulo 2 ^ 256.
use tos_spec.Base.{◌≡◌, refl, arith}
use tos_spec.Base.{List, [], ◌∷◌, none, some}
use tos_spec.Base.{All}
use tos_spec.Crypto.{Hex, HexLaws}
use tos_spec.BigInt.{
  BigUint, BigUintLaws, ArithVector, CompareVector, ShiftVector, BigIntTestFile, arith_vector,
  simple_vector, compare_vector, shift_vector, arith_vectors, compare_vectors, shift_vectors,
  bigint_test_file, max_128_text, mul_text, below_max_text, max_text, high_bit_text,
}
use tos_spec.BigInt.Agrees.{
  ArithAgrees, CompareAgrees, ShiftAgrees, arith_vector-ArithAgrees, simple_vector-ArithAgrees,
  compare_vector-CompareAgrees, shift_vector-ShiftAgrees, small,
}

module _ (u : BigUint) (laws : BigUintLaws u) (hex : Hex) (hex_laws : HexLaws hex) where
  arith_vectors-ArithAgrees :
      (vs : List ArithVector) × (arith_vectors u hex ≡ some vs) × All (ArithAgrees hex) vs
  unfolding arith_vectors
  arith_vectors-ArithAgrees =
      let (max_128, e, v) = laws.value-parse_bytes max_128_text _ (omega arith) refl in
      let (large, e', v') = laws.value-parse_bytes mul_text _ (omega arith) refl in
      (
        simple_vector u hex
            ∷ arith_vector u hex "deadbeef_cafebabe" none (u.from_u64 0xDEADBEEF)
                (u.from_u64 0xCAFEBABE)
            ∷ arith_vector u hex "max_128bit_plus_one" (some "2^128 - 1 + 1") max_128 (u.from_u64 1)
            ∷ arith_vector u hex "256bit_mul_2" (some "Large 256-bit value * 2") large
                (u.from_u64 2)
            ∷ arith_vector u hex "div_mod_100_7" (some "100 / 7 = 14 rem 2") (u.from_u64 100)
                (u.from_u64 7)
            ∷ [],
        rw (e, e'),
        (
          simple_vector-ArithAgrees u laws hex hex_laws,
          (
            arith_vector-ArithAgrees u laws hex hex_laws _ _ _ _ 0xDEADBEEF 0xCAFEBABE
                (small u laws hex hex_laws _ (omega arith))
                (small u laws hex hex_laws _ (omega arith)) (omega arith) (omega arith)
                (omega arith),
            (
              arith_vector-ArithAgrees u laws hex hex_laws _ _ _ _ _ 1 v
                  (small u laws hex hex_laws _ (omega arith)) (omega arith) (omega arith)
                  (omega arith),
              (
                arith_vector-ArithAgrees u laws hex hex_laws _ _ _ _ _ 2 v'
                    (small u laws hex hex_laws _ (omega arith)) (omega arith) (omega arith)
                    (omega arith),
                (
                  arith_vector-ArithAgrees u laws hex hex_laws _ _ _ _ 100 7
                      (small u laws hex hex_laws _ (omega arith))
                      (small u laws hex hex_laws _ (omega arith)) (omega arith) (omega arith)
                      (omega arith),
                  tt,
                ),
              ),
            ),
          ),
        ),
      )

  compare_vectors-CompareAgrees :
      (vs : List CompareVector) × (compare_vectors u hex ≡ some vs) × All (CompareAgrees hex) vs
  unfolding compare_vectors
  compare_vectors-CompareAgrees =
      let (below_max, e, v) = laws.value-parse_bytes below_max_text _ (omega arith) refl in
      let (max, e', v') = laws.value-parse_bytes max_text _ (omega arith) refl in
      (
        compare_vector u hex "100_vs_200" (u.from_u64 100) (u.from_u64 200)
            ∷ compare_vector u hex "equal_42" (u.from_u64 42) (u.from_u64 42)
            ∷ compare_vector u hex "max_minus_one_vs_max" below_max max
            ∷ [],
        rw (e, e'),
        (
          compare_vector-CompareAgrees u laws hex hex_laws _ _ _ 100 200
              (small u laws hex hex_laws _ (omega arith))
              (small u laws hex hex_laws _ (omega arith)) (omega arith) (omega arith),
          (
            compare_vector-CompareAgrees u laws hex hex_laws _ _ _ 42 42
                (small u laws hex hex_laws _ (omega arith))
                (small u laws hex hex_laws _ (omega arith)) (omega arith) (omega arith),
            (
              compare_vector-CompareAgrees u laws hex hex_laws _ _ _ _ _ v v' (omega arith)
                  (omega arith),
              tt,
            ),
          ),
        ),
      )

  shift_vectors-ShiftAgrees :
      (vs : List ShiftVector) × (shift_vectors u hex ≡ some vs) × All (ShiftAgrees hex) vs
  unfolding shift_vectors
  shift_vectors-ShiftAgrees =
      let (high_bit, e, v) = laws.value-parse_bytes high_bit_text _ (omega arith) refl in
      (
        shift_vector u hex "shift_1_by_1" (some "1 << 1 = 2, 1 >> 1 = 0") (u.from_u64 1) 1
            ∷ shift_vector u hex "shift_1_by_64" (some "1 << 64") (u.from_u64 1) 64
            ∷ shift_vector u hex "shift_large_by_8" none (u.from_u64 0xDEADBEEFCAFEBABE) 8
            ∷ shift_vector u hex "shift_highbit_by_1" (some "Highest bit set, shift by 1") high_bit
                1
            ∷ [],
        rw e,
        (
          shift_vector-ShiftAgrees u laws hex hex_laws _ _ _ 1 1
              (small u laws hex hex_laws _ (omega arith)) (omega arith),
          (
            shift_vector-ShiftAgrees u laws hex hex_laws _ _ _ 64 1
                (small u laws hex hex_laws _ (omega arith)) (omega arith),
            (
              shift_vector-ShiftAgrees u laws hex hex_laws _ _ _ 8 0xDEADBEEFCAFEBABE
                  (small u laws hex hex_laws _ (omega arith)) (omega arith),
              (shift_vector-ShiftAgrees u laws hex hex_laws _ _ _ 1 _ v (omega arith), tt),
            ),
          ),
        ),
      )

  -- With the laws of `BigUintLaws` and `HexLaws`, `main` does not panic; each vector shows numbers
  -- below 2 ^ 256 and, modulo 2 ^ 256, their sum, product, quotient, remainder and shifts, a
  -- difference exactly where it is not negative, and how they compare.
  pub bigint_test_file-Agrees :
      (file : BigIntTestFile) × (bigint_test_file u hex ≡ some file)
      × All (ArithAgrees hex) file.arith_vectors
      × All (CompareAgrees hex) file.compare_vectors
      × All (ShiftAgrees hex) file.shift_vectors
  unfolding bigint_test_file
  bigint_test_file-Agrees =
      let (arith_made, e1, h1) = arith_vectors-ArithAgrees in
      let (compare_made, e2, h2) = compare_vectors-CompareAgrees in
      let (shift_made, e3, h3) = shift_vectors-ShiftAgrees in
      (
        record {
          algorithm = "uint256";
          word_size = 32;
          arith_vectors = arith_made;
          compare_vectors = compare_made;
          shift_vectors = shift_made;
        },
        rw (e1, e2, e3),
        h1,
        h2,
        h3,
      )
