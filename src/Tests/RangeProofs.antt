-- ===== src/Tests/RangeProofs.antt =====
-- Examples for the range proofs: proofs that are their value, and readers that count.
use tos_spec.Base.{
  ℕ, ◌+◌, ◌*◌, ◌%◌, ◌≤◌, ◌<◌, ◌≡◌, ◌↔◌, refl, ap, ◌∙◌, arith, List, [], ◌∷◌, ◌++◌, map,
}
use tos_spec.Base.{none, some, Bool, true, false, length, replicate, take, All, flatten}
use tos_spec.Base.{◌==◌, if◌then◌else◌, zero, suc}
use tos_spec.Base.Bytes.{AreBytes, codes}
use tos_spec.Crypto.LowerHex.{lower_hex}
use tos_spec.RangeProofs.{Bulletproofs, BulletproofsLaws, Shake, ShakeLaws}
use tos_spec.RangeProofs.Vectors.{RangeProofsTestFile, rangeproofs_test_file}
use tos_spec.RangeProofs.Verify.{Entry, Counts, verify_rangeproofs, Turns}
use tos_spec.RangeProofs.Verify.Invariant.{zero_counts, accepted, rejected, Turns-invariant}
use tos_spec.RangeProofs.Verify.Accepts.{entry_of, verify_rangeproofs-rangeproofs_test_file}
use tos_spec.RangeProofs.Dump.{ProofParts, dump_proof}
use tos_spec.RangeProofs.Dump.Parts.{part_list, dump_proof_lem}
use tos_spec.RangeProofs.Chain.{generators_chain, pieces, generators_chain_lem}
use tos_spec.RangeProofs.Table.{label_g, label_h, table_text}
use tos_spec.RangeProofs.Table.Scan.{outside, scan}
use tos_spec.RangeProofs.Table.Shows.{scan-table_text}
use tos_spec.Tests.Toy.{toy_curve, toy_laws}
use tos_spec.Tests.WrittenHex.{written_hex, written_hex_laws}

-- A proof is 672 times one byte, which is accepted where it is 7.
abbrev seven : Bulletproofs
seven = record {
  Gens = ℕ;
  Scalar = Unit;
  OsRng = ℕ;
  Transcript = List ℕ;
  Proof = Bool;
  gens = λ n. n;
  random = λ r. (tt, r + 1);
  transcript = λ label. label;
  prove_single = λ _ _ value _ bits. some (true, replicate 32 1);
  verify_single = λ _ _ commitment proof bits. proof;
  to_bytes = λ proof. if proof then replicate 672 7 else replicate 672 0;
  from_bytes = λ bytes. some (starts_seven bytes);
}
  where
    starts_seven : List ℕ → Bool
    starts_seven [] = false
    starts_seven (b ∷ bs) = b == 7

proof_bytes : (p : Bool) → AreBytes (seven.to_bytes p)
proof_bytes true = omega arith
proof_bytes false = omega arith

proof_back : (p : Bool) → seven.from_bytes (seven.to_bytes p) ≡ some p
proof_back true = refl
proof_back false = refl

seven_laws : BulletproofsLaws seven
seven_laws = record {
  complete = λ bits value blinding label size small. record {
    proof = true;
    commitment = replicate 32 1;
    proved = refl;
    commitment_bytes = omega arith;
    commitment_size = refl;
    accepted = refl;
  };
  to_bytes-AreBytes = proof_bytes;
  from_bytes-to_bytes = proof_back;
}

verify_rangeproofs-rangeproofs_test_file_example :
    (file : RangeProofsTestFile) × (rangeproofs_test_file seven written_hex 5 ≡ some file)
    × (length file.test_vectors ≡ 6)
    × (verify_rangeproofs seven written_hex (map entry_of file.test_vectors)
        ≡ some record { passed = 6; failed = 0 })
verify_rangeproofs-rangeproofs_test_file_example =
    verify_rangeproofs-rangeproofs_test_file seven seven_laws written_hex written_hex_laws 5

-- One proof that is accepted and one that is not.
abbrev two_entries : List Entry
two_entries =
    record {
      name = "good";
      bit_length = 64;
      commitment_hex = lower_hex (replicate 32 1);
      proof_hex = lower_hex (replicate 672 7);
    }
    ∷ record {
      name = "bad";
      bit_length = 32;
      commitment_hex = lower_hex (replicate 32 1);
      proof_hex = lower_hex (replicate 672 0);
    }
    ∷ []

Turns-invariant_example :
    ((s : Counts) (left : List Entry)
      → Turns seven written_hex (zero_counts, two_entries) (s, left)
      → (s.passed + accepted seven written_hex left ≡ accepted seven written_hex two_entries)
        × (s.failed + rejected seven written_hex left ≡ rejected seven written_hex two_entries)
        × (s.passed + s.failed + length left ≡ length two_entries))
    × ((final : Counts)
        → (verify_rangeproofs seven written_hex two_entries ≡ some final)
          ↔ Turns seven written_hex (zero_counts, two_entries) (final, []))
Turns-invariant_example = Turns-invariant seven written_hex two_entries

abbrev toy_proof : List ℕ
toy_proof = replicate 672 7

dump_proof_lem_example :
    (672 ≤ length toy_proof
      → (parts : ProofParts) × (dump_proof seven written_hex (lower_hex toy_proof) ≡ some parts)
        × (parts.total_size ≡ length toy_proof)
        × All (λ part. length part ≡ 32) (part_list parts)
        × (flatten (part_list parts) ≡ take 672 toy_proof))
    × (length toy_proof < 672 → dump_proof seven written_hex (lower_hex toy_proof) ≡ none)
dump_proof_lem_example =
    dump_proof_lem seven written_hex (lower_hex toy_proof) toy_proof true
      (written_hex_laws.decode-encode toy_proof (omega arith)) refl refl

-- A reader at a place, whose bytes count up.
abbrev from_place : ℕ → ℕ → List ℕ
from_place r zero = []
from_place r (suc n) = r % 256 ∷ from_place (r + 1) n

abbrev counting : Shake toy_curve
counting = record {
  Reader = ℕ;
  finalize_xof = λ bytes. length bytes;
  read = λ r n. (from_place r n, r + n);
  from_uniform_bytes = parity_first;
}
  where
    parity_first : List ℕ → Bool
    parity_first [] = false
    parity_first (b ∷ bs) = b % 2 == 1

from_place-size : (r n : ℕ) → length (from_place r n) ≡ n
from_place-size r zero = refl
from_place-size r (suc n) = ap suc (from_place-size (r + 1) n)

from_place_add : (r m n : ℕ) → from_place r (m + n) ≡ from_place r m ++ from_place (r + m) n
from_place_add r zero n =
    let place : r ≡ r + 0 = omega arith in
    let size : 0 + n ≡ n = omega arith in
    ap (from_place r) size ∙ ap (λ (k : ℕ). from_place k n) place
from_place_add r (suc m) n =
    let size : suc m + n ≡ suc (m + n) = omega arith in
    let place : r + 1 + m ≡ r + suc m = omega arith in
    ap (from_place r) size
    ∙ ap (◌∷◌ (r % 256))
        (from_place_add (r + 1) m n ∙ ap (λ (k : ℕ). from_place (r + 1) m ++ from_place k n) place)

counting_laws : ShakeLaws toy_curve counting
counting_laws = record { length-read = from_place-size; read_add = from_place_add }

generators_chain_lem_example :
    let output =
      (counting.read (counting.finalize_xof (codes "GeneratorsChain" ++ label_g)) (3 * 64)).0 in
    (generators_chain toy_curve counting label_g 3
      ≡ map counting.from_uniform_bytes (pieces 3 output))
    × (length (generators_chain toy_curve counting label_g 3) ≡ 3)
    × (take 2 (generators_chain toy_curve counting label_g 3)
        ≡ generators_chain toy_curve counting label_g 2)
generators_chain_lem_example =
    generators_chain_lem toy_curve counting counting_laws label_g 2 3 (omega arith)

scan-table_text_example :
    scan outside (table_text toy_curve counting)
    ≡ flatten (
        toy_curve.compress toy_curve.base
        ∷ toy_curve.compress toy_curve.base_blinding
        ∷ flatten (map toy_curve.compress (generators_chain toy_curve counting label_g 256))
        ∷ flatten (map toy_curve.compress (generators_chain toy_curve counting label_h 256))
        ∷ [])
scan-table_text_example = scan-table_text toy_curve toy_laws counting
