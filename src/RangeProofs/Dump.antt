-- ===== src/RangeProofs/Dump.antt =====
-- dump_proof.rs: the parts of a proof, cut out of its bytes.
pub mod Parts
use tos_spec.Base.{
  ℕ, zero, suc, ◌+◌, ◌-◌, ◌*◌, List, [], ◌∷◌, Option, none, some, Bool, true, false, length, take,
  drop,
}
use tos_spec.Base.{leb, ltb, ◌==◌, ◌&&◌, if◌then◌else◌}
use tos_spec.Base.Options.{◌>>=◌}
use tos_spec.Crypto.{Hex}
use tos_spec.RangeProofs.{Bulletproofs}

-- `&bytes[first..last]`.
unfoldable pub slice : List ℕ → ℕ → ℕ → Option (List ℕ)
slice bytes first last =
    if leb first last && leb last (length bytes)
    then some (take (last - first) (drop first bytes))
    else none

abbrev pub same_bytes : List ℕ → List ℕ → Bool
same_bytes [] [] = true
same_bytes [] (y ∷ ys) = false
same_bytes (x ∷ xs) [] = false
same_bytes (x ∷ xs) (y ∷ ys) = x == y && same_bytes xs ys

-- What is printed of a proof: the points, the scalars, `L` and `R` of each round, `a` and `b`.
pub record ProofParts : Type 0 where
  pub total_size : ℕ
  pub a_point : List ℕ
  pub s_point : List ℕ
  pub t1 : List ℕ
  pub t2 : List ℕ
  pub tx : List ℕ
  pub tx_blinding : List ℕ
  pub e_blinding : List ℕ
  pub rounds : List (List ℕ × List ℕ)
  pub a : List ℕ
  pub b : List ℕ

abbrev pub ipp_start : ℕ
ipp_start = 224

abbrev pub logn : ℕ
logn = 6

-- `count` rounds from the round `i` on.
unfoldable pub dump_rounds : List ℕ → ℕ → ℕ → Option (List (List ℕ × List ℕ))
dump_rounds bytes i zero = some []
dump_rounds bytes i (suc count) = do
  let l_start = ipp_start + i * 64
  let r_start = l_start + 32
  left ← slice bytes l_start (l_start + 32)
  right ← slice bytes r_start (r_start + 32)
  rest ← dump_rounds bytes (i + 1) count
  some ((left, right) ∷ rest)

-- What `main` prints of the bytes that a proof of the size `total_size` is written as.
unfoldable pub dump_parts : ℕ → List ℕ → Option ProofParts
dump_parts total_size reserialized = do
  a_point ← slice reserialized 0 32
  s_point ← slice reserialized 32 64
  t1 ← slice reserialized 64 96
  t2 ← slice reserialized 96 128
  tx ← slice reserialized 128 160
  tx_blinding ← slice reserialized 160 192
  e_blinding ← slice reserialized 192 224
  rounds ← dump_rounds reserialized 0 logn
  let a_start = ipp_start + logn * 64
  let b_start = a_start + 32
  a ← slice reserialized a_start (a_start + 32)
  b ← slice reserialized b_start (b_start + 32)
  some record {
    total_size = total_size;
    a_point = a_point;
    s_point = s_point;
    t1 = t1;
    t2 = t2;
    tx = tx;
    tx_blinding = tx_blinding;
    e_blinding = e_blinding;
    rounds = rounds;
    a = a;
    b = b;
  }

-- `main`, with the text of the proof as an argument; the comparison at its end panics where the two
-- differ.
unfoldable pub dump_proof : Bulletproofs → Hex → List ℕ → Option ProofParts
dump_proof bp hex proof_hex = do
  proof_bytes ← hex.decode proof_hex
  proof ← bp.from_bytes proof_bytes
  let reserialized = bp.to_bytes proof
  parts ← dump_parts (length proof_bytes) reserialized
  if same_bytes proof_bytes reserialized then some parts else none
