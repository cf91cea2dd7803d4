-- ===== src/RangeProofs/Vectors.antt =====
-- gen_rangeproofs_vectors.rs: the vectors that `main` makes, from the state of the system's random
-- numbers.
use tos_spec.Base.{ℕ, ◌-◌, ◌^◌, List, [], ◌∷◌, String, Option, some, Bool, true}
use tos_spec.Base.Options.{◌>>=◌}
use tos_spec.Base.Bytes.{codes}
use tos_spec.Crypto.{Hex}
use tos_spec.RangeProofs.{Bulletproofs}

pub record TestVector : Type 0 where
  pub name : String
  pub description : Option String
  pub value : ℕ
  pub bit_length : ℕ
  pub commitment_hex : List ℕ
  pub proof_hex : List ℕ
  pub should_verify : Bool

pub record RangeProofsTestFile : Type 0 where
  pub algorithm : String
  pub description : String
  pub test_vectors : List TestVector

module _ (b : Bulletproofs) (hex : Hex) where
  -- One block of `main`.
  unfoldable pub range_vector : b.OsRng → String → String → ℕ → ℕ → Option (TestVector × b.OsRng)
  range_vector rng name description value bit_length = do
    let (blinding, rng) = b.random rng
    (proof, commitment) ←
        b.prove_single (b.gens bit_length) (b.transcript (codes "RangeProofTest")) value blinding
          bit_length
    some (
      record {
        name = name;
        description = some description;
        value = value;
        bit_length = bit_length;
        commitment_hex = hex.encode commitment;
        proof_hex = hex.encode (b.to_bytes proof);
        should_verify = true;
      },
      rng,
    )

  -- `main` up to the writing of the file.
  unfoldable pub rangeproofs_test_file : b.OsRng → Option RangeProofsTestFile
  rangeproofs_test_file rng = do
    (v1, rng) ← range_vector rng "simple_42" "Range proof for value 42" 42 64
    (v2, rng) ← range_vector rng "zero_value" "Range proof for value 0" 0 64
    (v3, rng) ← range_vector rng "max_u64" "Range proof for u64::MAX" (2 ^ 64 - 1) 64
    (v4, rng) ← range_vector rng "power_of_2" "Range proof for 2^32" (2 ^ 32) 64
    (v5, rng) ←
        range_vector rng "deadbeef" "Range proof for 0xDEADBEEFCAFEBABE" 0xDEADBEEFCAFEBABE 64
    (v6, rng) ← range_vector rng "bit32_million" "32-bit range proof for 1000000" 1000000 32
    some record {
      algorithm = "Bulletproofs";
      description = "Range proofs using Bulletproofs protocol on Ristretto255";
      test_vectors = v1 ∷ v2 ∷ v3 ∷ v4 ∷ v5 ∷ v6 ∷ [];
    }
