-- ===== src/BigInt.antt =====
-- rust_generators/crypto/gen_bigint_vectors.rs: numbers as 32 bytes in little-endian order, and the
-- vectors that `main` makes. `num_bigint` is a record of operations with the number that a value
-- stands for. `none` is a panic.
pub mod Shows
pub mod Agrees
pub mod File
use tos_spec.Base.{ℕ, ◌+◌, ◌-◌, ◌*◌, ◌/◌, ◌%◌, ◌^◌, ◌≤◌, ◌<◌, ◌≡◌, min, List, [], ◌∷◌, ◌++◌, String}
use tos_spec.Base.{Option, none, some, Bool, ltb, ◌==◌, length, take, replicate}
use tos_spec.Base.{◌&&◌, leb, if◌then◌else◌}
use tos_spec.Base.Options.{◌>>=◌}
use tos_spec.Base.Bytes.{AreBytes, codes, le_value}
use tos_spec.Crypto.{Hex}

-- `BigUint`: `from(u64)`, `parse_bytes(_, 16)`, the operators, and `to_bytes_le`.
pub record BigUint : Type 1 where
  pub Number : Type 0
  pub from_u64 : ℕ → Number
  pub parse_bytes : List ℕ → Option Number
  pub add : Number → Number → Number
  pub sub : Number → Number → Number
  pub mul : Number → Number → Number
  pub div : Number → Number → Number
  pub rem : Number → Number → Number
  pub shl : Number → ℕ → Number
  pub shr : Number → ℕ → Number
  pub lt : Number → Number → Bool
  pub eq : Number → Number → Bool
  pub to_bytes_le : Number → List ℕ
  -- the number that it stands for
  pub value : Number → ℕ

-- The number of a text of lower-case hexadecimal digits.
abbrev pub hex_digit : ℕ → Option ℕ
hex_digit c =
    if leb b'0' c && leb c b'9'
    then some (c - b'0')
    else if leb b'a' c && leb c b'f'
    then some (c - b'a' + 10)
    else none

abbrev pub hex_value : ℕ → List ℕ → Option ℕ
hex_value n [] = some n
hex_value n (c ∷ cs) = do d ← hex_digit c; hex_value (n * 16 + d) cs

-- What the operations are documented to do; a difference that would be negative panics.
pub record BigUintLaws (u : BigUint) : Type 0 where
  pub value-from_u64 : (n : ℕ) → n < 2 ^ 64 → u.value (u.from_u64 n) ≡ n
  pub value-parse_bytes :
      (text : List ℕ) (n : ℕ)
      → 0 < length text
      → hex_value 0 text ≡ some n
      → (a : u.Number) × (u.parse_bytes text ≡ some a) × (u.value a ≡ n)
  pub value-add : (a b : u.Number) → u.value (u.add a b) ≡ u.value a + u.value b
  pub value-sub :
      (a b : u.Number) → u.value b ≤ u.value a → u.value (u.sub a b) ≡ u.value a - u.value b
  pub value-mul : (a b : u.Number) → u.value (u.mul a b) ≡ u.value a * u.value b
  pub value-div : (a b : u.Number) → 0 < u.value b → u.value (u.div a b) ≡ u.value a / u.value b
  pub value-rem : (a b : u.Number) → 0 < u.value b → u.value (u.rem a b) ≡ u.value a % u.value b
  pub value-shl : (a : u.Number) (k : ℕ) → u.value (u.shl a k) ≡ u.value a * 2 ^ k
  pub value-shr : (a : u.Number) (k : ℕ) → u.value (u.shr a k) ≡ u.value a / 2 ^ k
  pub lt_lem : (a b : u.Number) → u.lt a b ≡ ltb (u.value a) (u.value b)
  pub eq_lem : (a b : u.Number) → u.eq a b ≡ (u.value a == u.value b)
  pub le_value-to_bytes_le : (a : u.Number) → le_value (u.to_bytes_le a) ≡ u.value a
  pub to_bytes_le-AreBytes : (a : u.Number) → AreBytes (u.to_bytes_le a)

pub record ArithVector : Type 0 where
  pub name : String
  pub description : Option String
  pub a_hex : List ℕ
  pub b_hex : List ℕ
  pub add_hex : List ℕ
  pub sub_hex : Option (List ℕ)
  pub mul_hex : List ℕ
  pub div_hex : Option (List ℕ)
  pub mod_hex : Option (List ℕ)

pub record CompareVector : Type 0 where
  pub name : String
  pub a_hex : List ℕ
  pub b_hex : List ℕ
  pub a_lt_b : Bool
  pub a_eq_b : Bool
  pub a_gt_b : Bool

pub record ShiftVector : Type 0 where
  pub name : String
  pub description : Option String
  pub input_hex : List ℕ
  pub shift : ℕ
  pub left_hex : List ℕ
  pub right_hex : List ℕ

pub record BigIntTestFile : Type 0 where
  pub algorithm : String
  pub word_size : ℕ
  pub arith_vectors : List ArithVector
  pub compare_vectors : List CompareVector
  pub shift_vectors : List ShiftVector

module _ (u : BigUint) where
  -- The first 32 bytes, with zeros behind them where there are fewer.
  unfoldable pub to_bytes_32 : u.Number → List ℕ
  to_bytes_32 n =
      let bytes = u.to_bytes_le n in
      let len = min (length bytes) 32 in take len bytes ++ replicate (32 - len) 0

module _ (u : BigUint) (hex : Hex) where
  unfoldable pub to_hex_32 : u.Number → List ℕ
  to_hex_32 n = hex.encode (to_bytes_32 u n)

  -- One block of `main` with a difference.
  unfoldable pub arith_vector : String → Option String → u.Number → u.Number → ArithVector
  arith_vector name description a b = record {
    name = name;
    description = description;
    a_hex = to_hex_32 a;
    b_hex = to_hex_32 b;
    add_hex = to_hex_32 (u.add a b);
    sub_hex = some (to_hex_32 (u.sub a b));
    mul_hex = to_hex_32 (u.mul a b);
    div_hex = some (to_hex_32 (u.div a b));
    mod_hex = some (to_hex_32 (u.rem a b));
  }

  -- The first block leaves the difference out.
  unfoldable pub simple_vector : ArithVector
  simple_vector =
      let a = u.from_u64 1 in
      let b = u.from_u64 2 in
      record {
        name = "simple_1_2";
        description = some "1 + 2 = 3";
        a_hex = to_hex_32 a;
        b_hex = to_hex_32 b;
        add_hex = to_hex_32 (u.add a b);
        sub_hex = none;
        mul_hex = to_hex_32 (u.mul a b);
        div_hex = some (to_hex_32 (u.div a b));
        mod_hex = some (to_hex_32 (u.rem a b));
      }

  unfoldable pub compare_vector : String → u.Number → u.Number → CompareVector
  compare_vector name a b = record {
    name = name;
    a_hex = to_hex_32 a;
    b_hex = to_hex_32 b;
    a_lt_b = u.lt a b;
    a_eq_b = u.eq a b;
    a_gt_b = u.lt b a;
  }

  unfoldable pub shift_vector : String → Option String → u.Number → ℕ → ShiftVector
  shift_vector name description input shift = record {
    name = name;
    description = description;
    input_hex = to_hex_32 input;
    shift = shift;
    left_hex = to_hex_32 (u.shl input shift);
    right_hex = to_hex_32 (u.shr input shift);
  }

abbrev pub max_128_text : List ℕ
max_128_text = codes "ffffffffffffffffffffffffffffffff"

abbrev pub mul_text : List ℕ
mul_text = codes "0102030405060708090a0b0c0d0e0f101112131415161718191a1b1c1d1e1f20"

abbrev pub below_max_text : List ℕ
below_max_text = codes "fffffffffffffffffffffffffffffffffffffffffffffffffffffffffffffffe"

abbrev pub max_text : List ℕ
max_text = codes "ffffffffffffffffffffffffffffffffffffffffffffffffffffffffffffffff"

abbrev pub high_bit_text : List ℕ
high_bit_text = codes "8000000000000000000000000000000000000000000000000000000000000000"

module _ (u : BigUint) (hex : Hex) where
  unfoldable pub arith_vectors : Option (List ArithVector)
  arith_vectors = do
    max_128 ← u.parse_bytes max_128_text
    large ← u.parse_bytes mul_text
    some (
        simple_vector u hex
        ∷ arith_vector u hex "deadbeef_cafebabe" none (u.from_u64 0xDEADBEEF)
            (u.from_u64 0xCAFEBABE)
        ∷ arith_vector u hex "max_128bit_plus_one" (some "2^128 - 1 + 1") max_128 (u.from_u64 1)
        ∷ arith_vector u hex "256bit_mul_2" (some "Large 256-bit value * 2") large (u.from_u64 2)
        ∷ arith_vector u hex "div_mod_100_7" (some "100 / 7 = 14 rem 2") (u.from_u64 100)
            (u.from_u64 7)
        ∷ [])

  unfoldable pub compare_vectors : Option (List CompareVector)
  compare_vectors = do
    below_max ← u.parse_bytes below_max_text
    max ← u.parse_bytes max_text
    some (
        compare_vector u hex "100_vs_200" (u.from_u64 100) (u.from_u64 200)
        ∷ compare_vector u hex "equal_42" (u.from_u64 42) (u.from_u64 42)
        ∷ compare_vector u hex "max_minus_one_vs_max" below_max max
        ∷ [])

  unfoldable pub shift_vectors : Option (List ShiftVector)
  shift_vectors = do
    high_bit ← u.parse_bytes high_bit_text
    some (
        shift_vector u hex "shift_1_by_1" (some "1 << 1 = 2, 1 >> 1 = 0") (u.from_u64 1) 1
        ∷ shift_vector u hex "shift_1_by_64" (some "1 << 64") (u.from_u64 1) 64
        ∷ shift_vector u hex "shift_large_by_8" none (u.from_u64 0xDEADBEEFCAFEBABE) 8
        ∷ shift_vector u hex "shift_highbit_by_1" (some "Highest bit set, shift by 1") high_bit 1
        ∷ [])

  -- `main` up to the writing of the file.
  unfoldable pub bigint_test_file : Option BigIntTestFile
  bigint_test_file = do
    arith_made ← arith_vectors
    compare_made ← compare_vectors
    shift_made ← shift_vectors
    some (record {
      algorithm = "uint256";
      word_size = 32;
      arith_vectors = arith_made;
      compare_vectors = compare_made;
      shift_vectors = shift_made;
    })
