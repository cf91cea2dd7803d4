-- ===== src/RangeProofs/Chain.antt =====
-- check_gens.rs and gen_rangeproofs_table.rs: `generators_chain`, which both declare.
use tos_spec.Base.{ℕ, zero, suc, ◌+◌, ◌*◌, ◌≤◌, ◌≡◌, refl, ap, arith, List, [], ◌∷◌, ◌++◌, map}
use tos_spec.Base.{length, take, drop, take-append_length, drop-append_length}
use tos_spec.Base.Bytes.{codes}
use tos_spec.Crypto.{Curve}
use tos_spec.RangeProofs.{Shake, ShakeLaws}

module _ (c : Curve) (s : Shake c) where
  -- The loop, from the state of the reader.
  unfoldable pub chain_from : s.Reader → ℕ → List c.Point
  chain_from reader zero = []
  chain_from reader (suc count) =
      let (uniform_bytes, reader) = s.read reader 64 in
      s.from_uniform_bytes uniform_bytes ∷ chain_from reader count

  unfoldable pub generators_chain : List ℕ → ℕ → List c.Point
  generators_chain label count =
      chain_from (s.finalize_xof (codes "GeneratorsChain" ++ label)) count

  take-chain_from : (m n : ℕ) (r : s.Reader) → m ≤ n → take m (chain_from r n) ≡ chain_from r m
  unfolding chain_from
  take-chain_from zero n r h = refl
  take-chain_from (suc m) zero r h = absurd (omega arith)
  take-chain_from (suc m) (suc n) r h =
      ap (◌∷◌ (s.from_uniform_bytes (s.read r 64).0))
        (take-chain_from m n (s.read r 64).1 (omega arith))

  length-chain_from : (r : s.Reader) (n : ℕ) → length (chain_from r n) ≡ n
  unfolding chain_from
  length-chain_from r zero = refl
  length-chain_from r (suc n) = ap suc (length-chain_from (s.read r 64).1 n)

  pub length-generators_chain : (label : List ℕ) (n : ℕ) → length (generators_chain label n) ≡ n
  unfolding generators_chain
  length-generators_chain label n = length-chain_from _ n

  pub take-generators_chain :
      (label : List ℕ) (m n : ℕ)
      → m ≤ n
      → take m (generators_chain label n) ≡ generators_chain label m
  unfolding generators_chain
  take-generators_chain label m n h = take-chain_from m n _ h

-- The first `n` pieces of 64 bytes.
abbrev pub pieces : ℕ → List ℕ → List (List ℕ)
pieces zero bytes = []
pieces (suc n) bytes = take 64 bytes ∷ pieces n (drop 64 bytes)

module _ (c : Curve) (s : Shake c) (laws : ShakeLaws c s) where
  chain_from-pieces :
      (n : ℕ) (r : s.Reader)
      → chain_from c s r n ≡ map s.from_uniform_bytes (pieces n (s.read r (n * 64)).0)
  unfolding chain_from
  chain_from-pieces zero r = refl
  chain_from-pieces (suc n) r =
      let rest = s.read (s.read r 64).1 (n * 64) in
      let size : suc n * 64 ≡ 64 + n * 64 = omega arith in
      let whole : (s.read r (suc n * 64)).0 ≡ (s.read r 64).0 ++ rest.0 =
        rw size (laws.read_add r 64 (n * 64)) in
      let width = laws.length-read r 64 in
      rw (
        whole,
        take-append_length 64 (s.read r 64).0 rest.0 width,
        drop-append_length 64 (s.read r 64).0 rest.0 width,
        chain_from-pieces n (s.read r 64).1,
      )

  -- With the laws of `ShakeLaws`, the chain of a label is the points of the successive pieces of 64
  -- bytes of one output of the hash function; it has as many points as asked for, and a shorter chain
  -- of the same label is its beginning.
  pub generators_chain_lem :
      (label : List ℕ) (m n : ℕ)
      → m ≤ n
      → let output = (s.read (s.finalize_xof (codes "GeneratorsChain" ++ label)) (n * 64)).0 in
        (generators_chain c s label n ≡ map s.from_uniform_bytes (pieces n output))
        × (length (generators_chain c s label n) ≡ n)
        × (take m (generators_chain c s label n) ≡ generators_chain c s label m)
  unfolding generators_chain
  generators_chain_lem label m n h = (
    chain_from-pieces n _,
    length-generators_chain c s label n,
    take-generators_chain c s label m n h,
  )
