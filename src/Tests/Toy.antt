-- ===== src/Tests/Toy.antt =====
-- Small instances of the parameters: a curve whose scalars and points are bits, a digest of 64 bytes
-- that shows the length of its input, and Python objects that are tuples, bytes, numbers or `None`.
use tos_spec.Base.{ℕ, ◌+◌, ◌%◌, ◌^◌, ◌<◌, ◌≡◌, refl, arith}
use tos_spec.Base.{Bool, true, false, not, ◌&&◌, List, [], ◌∷◌, length, replicate, ◌==◌}
use tos_spec.Base.{ap, ap₂, Option, none, some, ◌↔◌, map, subst, All-replicate}
use tos_spec.Base.Bytes.{AreBytes}
use tos_spec.Crypto.{Curve, CurveLaws, Rng, Merlin, Hex, HexLaws}
use tos_spec.Signer.Result.{PyResult, ok, raised}
use tos_spec.Signer.Transfer.{Python, PythonLaws}

abbrev pub xor : Bool → Bool → Bool
xor true b = not b
xor false b = b

abbrev same : Bool → Bool → Bool
same a b = not (xor a b)

abbrev bit_bytes : Bool → List ℕ
bit_bytes true = 1 ∷ replicate 31 0
bit_bytes false = replicate 32 0

abbrev parity : List ℕ → Bool
parity [] = false
parity (b ∷ bs) = b % 2 == 1

abbrev pub toy_curve : Curve
toy_curve = record {
  Scalar = Bool;
  Point = Bool;
  from_u64 = λ n. n % 2 == 1;
  from_bytes_mod_order = parity;
  from_bytes_mod_order_wide = parity;
  as_bytes = bit_bytes;
  scalar_zero = false;
  scalar_eq = same;
  add = xor;
  mul = ◌&&◌;
  invert = λ a. a;
  smul = ◌&&◌;
  padd = xor;
  psub = xor;
  compress = bit_bytes;
  base = true;
  base_blinding = true;
}

and_comm : (a b : Bool) → (a && b) ≡ (b && a)
and_comm true true = refl
and_comm true false = refl
and_comm false true = refl
and_comm false false = refl

and_xor : (a b p : Bool) → (xor a b && p) ≡ xor (a && p) (b && p)
and_xor true true true = refl
and_xor true true false = refl
and_xor true false true = refl
and_xor true false false = refl
and_xor false b p = refl

and_assoc : (a b p : Bool) → (a && b && p) ≡ (a && (b && p))
and_assoc true b p = refl
and_assoc false b p = refl

xor_and : (a p q : Bool) → (a && xor p q) ≡ xor (a && p) (a && q)
xor_and true p q = refl
xor_and false p q = refl

xor_comm : (p q : Bool) → xor p q ≡ xor q p
xor_comm true true = refl
xor_comm true false = refl
xor_comm false true = refl
xor_comm false false = refl

xor_back : (p q : Bool) → xor (xor p q) q ≡ p
xor_back true true = refl
xor_back true false = refl
xor_back false true = refl
xor_back false false = refl

same_iff : (a b : Bool) → (same a b ≡ true) ↔ (a ≡ b)
same_iff true true = (λ _. refl, λ _. refl)
same_iff true false = (λ e. absurd (ground arith), λ e. absurd (ground arith))
same_iff false true = (λ e. absurd (ground arith), λ e. absurd (ground arith))
same_iff false false = (λ _. refl, λ _. refl)

bit_bytes-size : (a : Bool) → length (bit_bytes a) ≡ 32
bit_bytes-size true = refl
bit_bytes-size false = refl

bit_bytes-AreBytes : (a : Bool) → AreBytes (bit_bytes a)
bit_bytes-AreBytes true = omega arith
bit_bytes-AreBytes false = omega arith

parity-bit_bytes : (a : Bool) → parity (bit_bytes a) ≡ a
parity-bit_bytes true = refl
parity-bit_bytes false = refl

pub toy_laws : CurveLaws toy_curve
toy_laws = record {
  mul_comm = and_comm;
  add-smul = and_xor;
  mul-smul = and_assoc;
  smul-padd = xor_and;
  padd_comm = xor_comm;
  psub-padd = xor_back;
  scalar_eq_iff = same_iff;
  length-as_bytes = bit_bytes-size;
  as_bytes-AreBytes = bit_bytes-AreBytes;
  from_bytes_mod_order-as_bytes = parity-bit_bytes;
  length-compress = bit_bytes-size;
  compress-AreBytes = bit_bytes-AreBytes;
}

abbrev pub toy_digest : List ℕ → List ℕ
toy_digest bytes = length bytes % 2 ∷ replicate 63 0

abbrev pub toy_rng : Rng toy_curve
toy_rng = record {
  State = ℕ;
  from_seed = parity_number;
  random_scalar = λ n. (n % 2 == 1, n + 1);
  random_point = λ n. (n % 3 == 1, n + 1);
}
  where
    parity_number : List ℕ → ℕ
    parity_number [] = 0
    parity_number (b ∷ bs) = b

abbrev pub toy_merlin : Merlin
toy_merlin = record {
  Transcript = ℕ;
  start = λ label. length label;
  append_message = λ t label bytes. t + length label + length bytes;
  challenge_bytes = λ t label n. (replicate n (t % 2), t + 1);
}

pub data Item : Type 0 where
  bytes : List ℕ → Item
  zeros : ℕ → Item
  number : ℕ → Item
  nothing : Item

pub data Object : Type 0 where
  tuple : List Item → Object
  item : Item → Object

abbrev toy_extract_bytes : Object → PyResult Unit (List ℕ)
toy_extract_bytes (item (bytes bs)) = ok (map (λ b. b % 256) bs)
toy_extract_bytes (item (zeros n)) = ok (replicate n 0)
toy_extract_bytes (item (number n)) = raised tt
toy_extract_bytes (item nothing) = raised tt
toy_extract_bytes (tuple xs) = raised tt

abbrev toy_extract_u64 : Object → PyResult Unit ℕ
toy_extract_u64 (item (number n)) = ok (n % 2 ^ 64)
toy_extract_u64 (item (bytes bs)) = raised tt
toy_extract_u64 (item (zeros n)) = raised tt
toy_extract_u64 (item nothing) = raised tt
toy_extract_u64 (tuple xs) = raised tt

abbrev toy_downcast : Object → Option (List Object)
toy_downcast (tuple xs) = some (map item xs)
toy_downcast (item x) = none

abbrev toy_is_none : Object → Bool
toy_is_none (item nothing) = true
toy_is_none (item (bytes bs)) = false
toy_is_none (item (zeros n)) = false
toy_is_none (item (number n)) = false
toy_is_none (tuple xs) = false

abbrev pub toy_python : Python
toy_python = record {
  Object = Object;
  PyErr = Unit;
  downcast_tuple = toy_downcast;
  is_none = toy_is_none;
  extract_bytes = toy_extract_bytes;
  extract_u64 = toy_extract_u64;
  index_error = tt;
}

small : (bs : List ℕ) → AreBytes (map (λ b. b % 256) bs)
small [] = tt
small (b ∷ bs) = (omega arith, small bs)

extract_bytes-small : (o : Object) (bs : List ℕ) → toy_extract_bytes o ≡ ok bs → AreBytes bs
extract_bytes-small (item (bytes xs)) bs e =
    let same : map (λ b. b % 256) xs ≡ bs = cc in subst AreBytes same (small xs)
extract_bytes-small (item (zeros n)) bs e =
    let same : replicate n 0 ≡ bs = cc in
    subst AreBytes same (All-replicate (λ b. b < 256) n 0 (omega arith))
extract_bytes-small (item (number n)) bs e = cc
extract_bytes-small (item nothing) bs e = cc
extract_bytes-small (tuple xs) bs e = cc

extract_u64-small : (o : Object) (n : ℕ) → toy_extract_u64 o ≡ ok n → n < 2 ^ 64
extract_u64-small (item (number m)) n e = let same : m % 2 ^ 64 ≡ n = cc in omega arith
extract_u64-small (item (bytes bs)) n e = cc
extract_u64-small (item (zeros m)) n e = cc
extract_u64-small (item nothing) n e = cc
extract_u64-small (tuple xs) n e = cc

pub toy_python_laws : PythonLaws toy_python
toy_python_laws = record {
  extract_bytes-AreBytes = extract_bytes-small;
  extract_u64-lt = extract_u64-small;
}

-- The transfer of 7 from one key to another, as Python gives it, with extra data or without.
abbrev pub plain_transfer : Object
plain_transfer = tuple (bytes (replicate 32 1) ∷ bytes (replicate 32 2) ∷ number 7 ∷ [])

abbrev pub transfer_with : List ℕ → Object
transfer_with extra =
    tuple (bytes (replicate 32 1) ∷ bytes (replicate 32 2) ∷ number 9 ∷ bytes extra ∷ [])

-- Extra data of `n` zeros.
abbrev pub transfer_zeros : ℕ → Object
transfer_zeros n = tuple (bytes (replicate 32 1) ∷ bytes (replicate 32 2) ∷ number 9 ∷ zeros n ∷ [])

-- A `hex` that keeps the bytes as they are.
abbrev pub toy_hex : Hex
toy_hex = record { encode = λ bs. bs; decode = λ text. some (map (λ b. b % 256) text) }

same_bytes : (bs : List ℕ) → AreBytes bs → map (λ b. b % 256) bs ≡ bs
same_bytes [] h = refl
same_bytes (b ∷ bs) h = ap₂ ◌∷◌ (omega (arith, h.0)) (same_bytes bs h.1)

decoded-AreBytes :
    (text bs : List ℕ)
    → Path (Option (List ℕ)) (some (map (λ b. b % 256) text)) (some bs)
    → AreBytes bs
decoded-AreBytes text bs e =
    let same : map (λ b. b % 256) text ≡ bs = cc in subst AreBytes same (small text)

pub toy_hex_laws : HexLaws toy_hex
toy_hex_laws = record {
  decode-encode = λ bs h. ap some (same_bytes bs h);
  decode-AreBytes = decoded-AreBytes;
  decode_nil = refl;
}

pub toy_digest-AreBytes : (m : List ℕ) → AreBytes (toy_digest m)
toy_digest-AreBytes m = (omega arith, All-replicate (λ b. b < 256) 63 0 (omega arith))
