-- ===== src/BigInt/Agrees.antt =====
-- The blocks of gen_bigint_vectors.rs against arithmetic modulo 2 ^ 256.
use tos_spec.Base.{ℕ, ◌+◌, ◌-◌, ◌*◌, ◌/◌, ◌%◌, ◌^◌, ◌≤◌, ◌<◌, ◌≡◌, ◌∙◌, arith}
use tos_spec.Base.{List, String, Option, none, some, ltb, ◌==◌}
use tos_spec.Crypto.{Hex, HexLaws}
use tos_spec.BigInt.{
  BigUint, BigUintLaws, ArithVector, CompareVector, ShiftVector, arith_vector, simple_vector,
  compare_vector, shift_vector,
}
use tos_spec.BigInt.Shows.{Shows, shows}

-- A difference is left out, or shown where it is not negative.
abbrev pub Difference : Hex → Option (List ℕ) → ℕ → ℕ → Type 0
Difference hex none a b = a < b
Difference hex (some text) a b = (b ≤ a) × Shows hex text (a - b)

abbrev pub ShowsSome : Hex → Option (List ℕ) → ℕ → Type 0
ShowsSome hex none n = ⊥
ShowsSome hex (some text) n = Shows hex text n

pub record ArithAgrees (hex : Hex) (v : ArithVector) : Type 0 where
  pub a : ℕ
  pub b : ℕ
  pub a_small : a < 2 ^ 256
  pub b_small : b < 2 ^ 256
  pub a_shown : Shows hex v.a_hex a
  pub b_shown : Shows hex v.b_hex b
  pub sum : Shows hex v.add_hex (a + b)
  pub difference : Difference hex v.sub_hex a b
  pub product : Shows hex v.mul_hex (a * b)
  pub quotient : ShowsSome hex v.div_hex (a / b)
  pub remainder : ShowsSome hex v.mod_hex (a % b)

pub record CompareAgrees (hex : Hex) (v : CompareVector) : Type 0 where
  pub a : ℕ
  pub b : ℕ
  pub a_small : a < 2 ^ 256
  pub b_small : b < 2 ^ 256
  pub a_shown : Shows hex v.a_hex a
  pub b_shown : Shows hex v.b_hex b
  pub less : v.a_lt_b ≡ ltb a b
  pub equal : v.a_eq_b ≡ (a == b)
  pub greater : v.a_gt_b ≡ ltb b a

pub record ShiftAgrees (hex : Hex) (v : ShiftVector) : Type 0 where
  pub input : ℕ
  pub input_small : input < 2 ^ 256
  pub input_shown : Shows hex v.input_hex input
  pub left : Shows hex v.left_hex (input * 2 ^ v.shift)
  pub right : Shows hex v.right_hex (input / 2 ^ v.shift)

module _ (u : BigUint) (laws : BigUintLaws u) (hex : Hex) (hex_laws : HexLaws hex) where
  pub arith_vector-ArithAgrees :
      (name : String) (description : Option String) (a b : u.Number) (x y : ℕ)
      → u.value a ≡ x
      → u.value b ≡ y
      → x < 2 ^ 256
      → y ≤ x
      → 0 < y
      → ArithAgrees hex (arith_vector u hex name description a b)
  unfolding arith_vector
  arith_vector-ArithAgrees name description a b x y ea eb small le pos = record {
    a = x;
    b = y;
    a_small = small;
    b_small = omega arith;
    a_shown = shows u laws hex hex_laws a x ea;
    b_shown = shows u laws hex hex_laws b y eb;
    sum = shows u laws hex hex_laws (u.add a b) (x + y) (laws.value-add a b ∙ rw (ea, eb));
    difference = (
      le,
      shows u laws hex hex_laws (u.sub a b) (x - y)
          (laws.value-sub a b (omega (arith, ea, eb)) ∙ rw (ea, eb)),
    );
    product = shows u laws hex hex_laws (u.mul a b) (x * y) (laws.value-mul a b ∙ rw (ea, eb));
    quotient =
        shows u laws hex hex_laws (u.div a b) (x / y)
          (laws.value-div a b (omega (arith, eb)) ∙ rw (ea, eb));
    remainder =
        shows u laws hex hex_laws (u.rem a b) (x % y)
          (laws.value-rem a b (omega (arith, eb)) ∙ rw (ea, eb));
  }

  pub compare_vector-CompareAgrees :
      (name : String) (a b : u.Number) (x y : ℕ)
      → u.value a ≡ x
      → u.value b ≡ y
      → x < 2 ^ 256
      → y < 2 ^ 256
      → CompareAgrees hex (compare_vector u hex name a b)
  unfolding compare_vector
  compare_vector-CompareAgrees name a b x y ea eb small small' = record {
    a = x;
    b = y;
    a_small = small;
    b_small = small';
    a_shown = shows u laws hex hex_laws a x ea;
    b_shown = shows u laws hex hex_laws b y eb;
    less = laws.lt_lem a b ∙ rw (ea, eb);
    equal = laws.eq_lem a b ∙ rw (ea, eb);
    greater = laws.lt_lem b a ∙ rw (ea, eb);
  }

  pub shift_vector-ShiftAgrees :
      (name : String) (description : Option String) (input : u.Number) (shift x : ℕ)
      → u.value input ≡ x
      → x < 2 ^ 256
      → ShiftAgrees hex (shift_vector u hex name description input shift)
  unfolding shift_vector
  shift_vector-ShiftAgrees name description input shift x e small = record {
    input = x;
    input_small = small;
    input_shown = shows u laws hex hex_laws input x e;
    left =
        shows u laws hex hex_laws (u.shl input shift) (x * 2 ^ shift)
          (laws.value-shl input shift ∙ rw e);
    right =
        shows u laws hex hex_laws (u.shr input shift) (x / 2 ^ shift)
          (laws.value-shr input shift ∙ rw e);
  }

  pub simple_vector-ArithAgrees : ArithAgrees hex (simple_vector u hex)
  unfolding simple_vector
  simple_vector-ArithAgrees =
      let a = u.from_u64 1 in
      let b = u.from_u64 2 in
      let ea : u.value a ≡ 1 = laws.value-from_u64 1 (omega arith) in
      let eb : u.value b ≡ 2 = laws.value-from_u64 2 (omega arith) in
      record {
        a = 1;
        b = 2;
        a_small = omega arith;
        b_small = omega arith;
        a_shown = shows u laws hex hex_laws a 1 ea;
        b_shown = shows u laws hex hex_laws b 2 eb;
        sum = shows u laws hex hex_laws (u.add a b) 3 (laws.value-add a b ∙ rw (ea, eb));
        difference = omega arith;
        product = shows u laws hex hex_laws (u.mul a b) 2 (laws.value-mul a b ∙ rw (ea, eb));
        quotient =
            shows u laws hex hex_laws (u.div a b) 0
              (laws.value-div a b (omega (arith, eb)) ∙ rw (ea, eb));
        remainder =
            shows u laws hex hex_laws (u.rem a b) 1
              (laws.value-rem a b (omega (arith, eb)) ∙ rw (ea, eb));
      }

  pub small : (n : ℕ) → n < 2 ^ 64 → u.value (u.from_u64 n) ≡ n
  small n h = laws.value-from_u64 n h
