-- ===== src/RangeProofs/Verify/Accepts.antt =====
-- verify_rangeproofs.rs on the vectors of gen_rangeproofs_vectors.rs.
use tos_spec.Base.{ℕ, ◌-◌, ◌^◌, ◌<◌, ◌≡◌, ◌⊎◌, inl, inr, refl, arith, [], ◌∷◌, map, String}
use tos_spec.Base.{some, true, length, ◌==◌, if◌then◌else◌}
use tos_spec.Base.Bytes.{codes}
use tos_spec.Crypto.{Hex, HexLaws}
use tos_spec.RangeProofs.{Bulletproofs, BulletproofsLaws, Proves}
use tos_spec.RangeProofs.Vectors.{
  TestVector, RangeProofsTestFile, range_vector, rangeproofs_test_file,
}
use tos_spec.RangeProofs.Verify.{Entry, check_entry, check_from, verify_rangeproofs}

-- A vector as it is written in the list of the verifier.
abbrev pub entry_of : TestVector → Entry
entry_of v = record {
  name = v.name;
  bit_length = v.bit_length;
  commitment_hex = v.commitment_hex;
  proof_hex = v.proof_hex;
}

module _ (b : Bulletproofs) (laws : BulletproofsLaws b) (hex : Hex) (hex_laws : HexLaws hex) where
  abbrev Accepted : TestVector → Type 0
  Accepted v = check_entry b hex (entry_of v) ≡ some true

  gens_chosen :
      (bits : ℕ)
      → (bits ≡ 32) ⊎ (bits ≡ 64)
      → (if bits == 32 then b.gens 32 else b.gens 64) ≡ b.gens bits
  gens_chosen bits (inl e) = rw e refl
  gens_chosen bits (inr e) = rw e refl

  made_entry :
      (name : String) {bits value : ℕ} {blinding : b.Scalar}
      → (bits ≡ 32) ⊎ (bits ≡ 64)
      → (made : Proves b bits value blinding (codes "RangeProofTest"))
      → check_entry b hex record {
        name = name;
        bit_length = bits;
        commitment_hex = hex.encode made.commitment;
        proof_hex = hex.encode (b.to_bytes made.proof);
      }
        ≡ some true
  unfolding check_entry
  made_entry name {bits} size made =
      let commitment_read = hex_laws.decode-encode made.commitment made.commitment_bytes in
      let proof_read =
        hex_laws.decode-encode (b.to_bytes made.proof) (laws.to_bytes-AreBytes made.proof) in
      rw (
        commitment_read,
        made.commitment_size,
        proof_read,
        laws.from_bytes-to_bytes made.proof,
        gens_chosen bits size,
        made.accepted,
      )

  range_vector-Accepted :
      (rng : b.OsRng) (name description : String) (value bits : ℕ)
      → (bits ≡ 32) ⊎ (bits ≡ 64)
      → value < 2 ^ bits
      → (v : TestVector) × (after : b.OsRng) × (range_vector b hex rng name description value bits
          ≡ some (v, after))
        × Accepted v
  unfolding range_vector
  range_vector-Accepted rng name description value bits size small =
      let (blinding, after) = b.random rng in
      let made = laws.complete bits value blinding (codes "RangeProofTest") size small in
      (
        record {
          name = name;
          description = some description;
          value = value;
          bit_length = bits;
          commitment_hex = hex.encode made.commitment;
          proof_hex = hex.encode (b.to_bytes made.proof);
          should_verify = true;
        },
        after,
        rw made.proved,
        made_entry name size made,
      )

  -- With the laws of `BulletproofsLaws` and `HexLaws`, for every state of the random numbers, `main`
  -- of the generator does not panic, and `verify_rangeproofs` on its six vectors returns six passed
  -- and none failed.
  pub verify_rangeproofs-rangeproofs_test_file :
      (rng : b.OsRng)
      → (file : RangeProofsTestFile) × (rangeproofs_test_file b hex rng ≡ some file)
        × (length file.test_vectors ≡ 6)
        × (verify_rangeproofs b hex (map entry_of file.test_vectors)
            ≡ some record { passed = 6; failed = 0 })
  unfolding rangeproofs_test_file verify_rangeproofs check_from
  verify_rangeproofs-rangeproofs_test_file rng =
      let (v1, r1, e1, a1) =
        range_vector-Accepted rng "simple_42" "Range proof for value 42" 42 64 (inr refl)
          (omega arith) in
      let (v2, r2, e2, a2) =
        range_vector-Accepted r1 "zero_value" "Range proof for value 0" 0 64 (inr refl)
          (omega arith) in
      let (v3, r3, e3, a3) =
        range_vector-Accepted r2 "max_u64" "Range proof for u64::MAX" (2 ^ 64 - 1) 64 (inr refl)
          (omega arith) in
      let (v4, r4, e4, a4) =
        range_vector-Accepted r3 "power_of_2" "Range proof for 2^32" (2 ^ 32) 64 (inr refl)
          (omega arith) in
      let (v5, r5, e5, a5) =
        range_vector-Accepted r4 "deadbeef" "Range proof for 0xDEADBEEFCAFEBABE" 0xDEADBEEFCAFEBABE
          64 (inr refl) (omega arith) in
      let (v6, r6, e6, a6) =
        range_vector-Accepted r5 "bit32_million" "32-bit range proof for 1000000" 1000000 32
          (inl refl) (omega arith) in
      (
        record {
          algorithm = "Bulletproofs";
          description = "Range proofs using Bulletproofs protocol on Ristretto255";
          test_vectors = v1 ∷ v2 ∷ v3 ∷ v4 ∷ v5 ∷ v6 ∷ [];
        },
        rw (e1, e2, e3, e4, e5, e6),
        refl,
        rw (a1, a2, a3, a4, a5, a6),
      )
