-- ===== src/Tests/BigInt.antt =====
-- Examples for the big integer vectors, with natural numbers as `BigUint`.
use tos_spec.Base.{
  ℕ, zero, suc, ◌+◌, ◌-◌, ◌*◌, ◌/◌, ◌%◌, ◌^◌, ◌<◌, ◌≡◌, refl, arith, ltb, ◌==◌, some, All,
}
use tos_spec.Base.Bytes.{to_le_bytes, le_value-to_le_bytes, to_le_bytes-AreBytes}
use tos_spec.BigInt.{BigUint, BigUintLaws, BigIntTestFile, hex_value, to_hex_32, bigint_test_file}
use tos_spec.BigInt.Shows.{Shows, to_hex_32-Shows}
use tos_spec.BigInt.Agrees.{ArithAgrees, CompareAgrees, ShiftAgrees}
use tos_spec.BigInt.File.{bigint_test_file-Agrees}
use tos_spec.Tests.Toy.{toy_hex, toy_hex_laws}
use native.Mathlib.Nat.{pow-suc}

abbrev naturals : BigUint
naturals = record {
  Number = ℕ;
  from_u64 = λ n. n;
  parse_bytes = hex_value 0;
  add = ◌+◌;
  sub = ◌-◌;
  mul = ◌*◌;
  div = ◌/◌;
  rem = ◌%◌;
  shl = λ a k. a * 2 ^ k;
  shr = λ a k. a / 2 ^ k;
  lt = ltb;
  eq = ◌==◌;
  to_bytes_le = λ n. to_le_bytes n n;
  value = λ n. n;
}

enough_bytes : (n : ℕ) → n < 256 ^ n
enough_bytes zero = omega arith
enough_bytes (suc n) = omega (arith, enough_bytes n, pow-suc 256 n)

naturals_laws : BigUintLaws naturals
naturals_laws = record {
  value-from_u64 = λ n h. refl;
  value-parse_bytes = λ text n nonempty e. (n, e, refl);
  value-add = λ a b. refl;
  value-sub = λ a b le. refl;
  value-mul = λ a b. refl;
  value-div = λ a b pos. refl;
  value-rem = λ a b pos. refl;
  value-shl = λ a k. refl;
  value-shr = λ a k. refl;
  lt_lem = λ a b. refl;
  eq_lem = λ a b. refl;
  le_value-to_bytes_le = λ a. le_value-to_le_bytes a a (enough_bytes a);
  to_bytes_le-AreBytes = λ a. to_le_bytes-AreBytes a a;
}

to_hex_32-Shows_example : Shows toy_hex (to_hex_32 naturals toy_hex 1000) 1000
to_hex_32-Shows_example = to_hex_32-Shows naturals naturals_laws toy_hex toy_hex_laws 1000

bigint_test_file-Agrees_example :
    (file : BigIntTestFile) × (bigint_test_file naturals toy_hex ≡ some file)
    × All (ArithAgrees toy_hex) file.arith_vectors
    × All (CompareAgrees toy_hex) file.compare_vectors
    × All (ShiftAgrees toy_hex) file.shift_vectors
bigint_test_file-Agrees_example =
    bigint_test_file-Agrees naturals naturals_laws toy_hex toy_hex_laws
