-- ===== src/RangeProofs/Verify.antt =====
-- verify_rangeproofs.rs: the loop that counts the proofs that are accepted and those that are not.
pub mod Invariant
pub mod Accepts
use tos_spec.Base.{ℕ, zero, suc, ◌+◌, ◌≡◌, refl, arith, List, [], ◌∷◌, String, Option, none, some}
use tos_spec.Base.{Bool, true, false, Bool-cases, inl, inr, length, ◌==◌, if◌then◌else◌, All}
use tos_spec.Base.Options.{◌>>=◌}
use tos_spec.Base.Bytes.{codes}
use tos_spec.Crypto.{Hex}
use tos_spec.RangeProofs.{Bulletproofs}

-- One entry of `test_vectors`.
pub record Entry : Type 0 where
  pub name : String
  pub bit_length : ℕ
  pub commitment_hex : List ℕ
  pub proof_hex : List ℕ

pub record Counts : Type 0 where
  pub passed : ℕ
  pub failed : ℕ

module _ (b : Bulletproofs) (hex : Hex) where
  -- The result of one entry; `from_slice` panics on another size than 32.
  unfoldable pub check_entry : Entry → Option Bool
  check_entry e = do
    commitment_bytes ← hex.decode e.commitment_hex
    commitment ← if length commitment_bytes == 32 then some commitment_bytes else none
    proof_bytes ← hex.decode e.proof_hex
    proof ← b.from_bytes proof_bytes
    let bp_gens = if e.bit_length == 32 then b.gens 32 else b.gens 64
    some (
        b.verify_single bp_gens (b.transcript (codes "RangeProofTest")) commitment proof
          e.bit_length)

  abbrev pub count : Counts → Bool → Counts
  count s true = record { passed = s.passed + 1; failed = s.failed }
  count s false = record { passed = s.passed; failed = s.failed + 1 }

  -- The loop, with the counts so far.
  unfoldable pub check_from : Counts → List Entry → Option Counts
  check_from s [] = some s
  check_from s (e ∷ es) = do result ← check_entry e; check_from (count s result) es

  unfoldable pub verify_rangeproofs : List Entry → Option Counts
  verify_rangeproofs test_vectors = check_from record { passed = 0; failed = 0 } test_vectors

  -- One turn of the loop, from the counts and the entries left to those after it.
  pub data Turn : Counts × List Entry → Counts × List Entry → Type 0 where
    turn :
        {s : Counts} {e : Entry} {es : List Entry} {result : Bool}
        → check_entry e ≡ some result
        → Turn (s, e ∷ es) (count s result, es)

  pub data Turns : Counts × List Entry → Counts × List Entry → Type 0 where
    start : {s : Counts × List Entry} → Turns s s
    next : {s t u : Counts × List Entry} → Turns s t → Turn t u → Turns s u
