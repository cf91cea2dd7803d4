-- ===== src/Crypto.antt =====
-- What the Rust code takes from third-party crates: scalars and points of the Ristretto group
-- (curve25519-dalek with the Pedersen generators of bulletproofs), the ChaCha20 generator, the
-- Merlin transcript and the `hex` crate. Each is a record of operations; what is relied on of it is a
-- record of laws.
pub mod LowerHex
use tos_spec.Base.{ℕ, List, [], length, Bool, true, Option, some, ◌≡◌, ◌↔◌}
use tos_spec.Base.Bytes.{AreBytes}

pub record Curve : Type 1 where
  pub Scalar : Type 0
  pub Point : Type 0
  -- `Scalar::from(u64)`, `from_bytes_mod_order`, `from_bytes_mod_order_wide`, `as_bytes`, `zero`
  pub from_u64 : ℕ → Scalar
  pub from_bytes_mod_order : List ℕ → Scalar
  pub from_bytes_mod_order_wide : List ℕ → Scalar
  pub as_bytes : Scalar → List ℕ
  pub scalar_zero : Scalar
  pub scalar_eq : Scalar → Scalar → Bool
  pub add : Scalar → Scalar → Scalar
  pub mul : Scalar → Scalar → Scalar
  pub invert : Scalar → Scalar
  -- a scalar times a point, the sum and the difference of points
  pub smul : Scalar → Point → Point
  pub padd : Point → Point → Point
  pub psub : Point → Point → Point
  -- `point.compress().as_bytes()`
  pub compress : Point → List ℕ
  -- `PedersenGens::default()`: `B` and `B_blinding`
  pub base : Point
  pub base_blinding : Point

-- The laws of a module over a commutative ring, and of the two canonical 32-byte encodings.
pub record CurveLaws (c : Curve) : Type 0 where
  pub mul_comm : (a b : c.Scalar) → c.mul a b ≡ c.mul b a
  pub add-smul :
      (a b : c.Scalar) (p : c.Point) → c.smul (c.add a b) p ≡ c.padd (c.smul a p) (c.smul b p)
  pub mul-smul : (a b : c.Scalar) (p : c.Point) → c.smul (c.mul a b) p ≡ c.smul a (c.smul b p)
  pub smul-padd :
      (a : c.Scalar) (p q : c.Point) → c.smul a (c.padd p q) ≡ c.padd (c.smul a p) (c.smul a q)
  pub padd_comm : (p q : c.Point) → c.padd p q ≡ c.padd q p
  pub psub-padd : (p q : c.Point) → c.psub (c.padd p q) q ≡ p
  pub scalar_eq_iff : (a b : c.Scalar) → (c.scalar_eq a b ≡ true) ↔ (a ≡ b)
  pub length-as_bytes : (a : c.Scalar) → length (c.as_bytes a) ≡ 32
  pub as_bytes-AreBytes : (a : c.Scalar) → AreBytes (c.as_bytes a)
  pub from_bytes_mod_order-as_bytes : (a : c.Scalar) → c.from_bytes_mod_order (c.as_bytes a) ≡ a
  pub length-compress : (p : c.Point) → length (c.compress p) ≡ 32
  pub compress-AreBytes : (p : c.Point) → AreBytes (c.compress p)

-- `ChaCha20Rng::from_seed`, `Scalar::random`, `RistrettoPoint::random`: each draw moves the state.
pub record Rng (c : Curve) : Type 1 where
  pub State : Type 0
  pub from_seed : List ℕ → State
  pub random_scalar : State → c.Scalar × State
  pub random_point : State → c.Point × State

-- `merlin::Transcript`: `new`, `append_message`, and `challenge_bytes` into a buffer of a size.
pub record Merlin : Type 1 where
  pub Transcript : Type 0
  pub start : List ℕ → Transcript
  pub append_message : Transcript → List ℕ → List ℕ → Transcript
  pub challenge_bytes : Transcript → List ℕ → ℕ → List ℕ × Transcript

-- The `hex` crate on ASCII texts.
pub record Hex : Type 0 where
  pub encode : List ℕ → List ℕ
  pub decode : List ℕ → Option (List ℕ)

pub record HexLaws (hex : Hex) : Type 0 where
  pub decode-encode : (bytes : List ℕ) → AreBytes bytes → hex.decode (hex.encode bytes) ≡ some bytes
  pub decode-AreBytes : (text bytes : List ℕ) → hex.decode text ≡ some bytes → AreBytes bytes
  pub decode_nil : hex.decode [] ≡ some []
