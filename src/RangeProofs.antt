-- ===== src/RangeProofs.antt =====
-- rust_generators/crypto/gen_rangeproofs_vectors.rs, verify_rangeproofs.rs, dump_proof.rs,
-- check_gens.rs and gen_rangeproofs_table.rs. The crate `bulletproofs` and the extendable output of
-- `Shake256` are parameters. `none` is a panic.
pub mod Vectors
pub mod Verify
pub mod Dump
pub mod Chain
pub mod Table
use tos_spec.Base.{
  ℕ, ◌+◌, ◌^◌, ◌<◌, ◌≡◌, ◌⊎◌, List, [], ◌++◌, String, Option, some, Bool, true, length,
}
use tos_spec.Base.Bytes.{AreBytes}
use tos_spec.Crypto.{Curve}

-- `BulletproofGens::new(n, 1)`, `Scalar::random`, the transcript of a label, `prove_single` with the
-- commitment as bytes, `verify_single`, `to_bytes` and `from_bytes`. Both calls take the Pedersen
-- generators of `default()`.
pub record Bulletproofs : Type 1 where
  pub Gens : Type 0
  pub Scalar : Type 0
  pub OsRng : Type 0
  pub Transcript : Type 0
  pub Proof : Type 0
  pub gens : ℕ → Gens
  pub random : OsRng → Scalar × OsRng
  pub transcript : List ℕ → Transcript
  pub prove_single : Gens → Transcript → ℕ → Scalar → ℕ → Option (Proof × List ℕ)
  pub verify_single : Gens → Transcript → List ℕ → Proof → ℕ → Bool
  pub to_bytes : Proof → List ℕ
  pub from_bytes : List ℕ → Option Proof

-- A number of 32 or of 64 bits has a proof, which is accepted with the same generators and a fresh
-- transcript of the same label.
pub record Proves (b : Bulletproofs) (bits value : ℕ) (blinding : b.Scalar) (label : List ℕ)
    : Type 0 where
  pub proof : b.Proof
  pub commitment : List ℕ
  pub proved :
      b.prove_single (b.gens bits) (b.transcript label) value blinding bits
      ≡ some (proof, commitment)
  pub commitment_bytes : AreBytes commitment
  pub commitment_size : length commitment ≡ 32
  pub accepted : b.verify_single (b.gens bits) (b.transcript label) commitment proof bits ≡ true

pub record BulletproofsLaws (b : Bulletproofs) : Type 0 where
  pub complete :
      (bits value : ℕ) (blinding : b.Scalar) (label : List ℕ)
      → (bits ≡ 32) ⊎ (bits ≡ 64)
      → value < 2 ^ bits
      → Proves b bits value blinding label
  pub to_bytes-AreBytes : (p : b.Proof) → AreBytes (b.to_bytes p)
  pub from_bytes-to_bytes : (p : b.Proof) → b.from_bytes (b.to_bytes p) ≡ some p

-- `Shake256` of bytes as a reader, its `read`, and `RistrettoPoint::from_uniform_bytes`.
pub record Shake (c : Curve) : Type 1 where
  pub Reader : Type 0
  pub finalize_xof : List ℕ → Reader
  pub read : Reader → ℕ → List ℕ × Reader
  pub from_uniform_bytes : List ℕ → c.Point

-- Reading `m` and then `n` bytes is reading `m + n`.
pub record ShakeLaws (c : Curve) (s : Shake c) : Type 0 where
  pub length-read : (r : s.Reader) (n : ℕ) → length (s.read r n).0 ≡ n
  pub read_add :
      (r : s.Reader) (m n : ℕ)
      → (s.read r (m + n)).0 ≡ (s.read r m).0 ++ (s.read (s.read r m).1 n).0
