-- ===== src/BlockHash/File.antt =====
-- The file of gen_block_hash_vectors.rs against the block headers.
use tos_spec.Base.{ℕ, ◌-◌, ◌^◌, ◌<◌, ◌≡◌, refl, arith, List, [], ◌∷◌}
use tos_spec.Base.{some, All, All-map, length, replicate}
use tos_spec.Base.Bytes.{codes, sequence}
use tos_spec.Crypto.{Hex, HexLaws}
use tos_spec.Crypto.LowerHex.{WritesLowerHex}
use tos_spec.BlockHash.{
  Blocks, BlocksLaws, BlockHashVector, insert_filled, counted_set, block_vectors, main_vectors,
}
use tos_spec.BlockHash.Yaml.{file_text}
use tos_spec.BlockHash.Read.{NoBreak, read_file}
use tos_spec.BlockHash.RoundTrip.{read_file-file_text}
use tos_spec.BlockHash.Shows.{ShowsHeader, Good, generate_vector-Good}

module _ (k : Blocks) (laws : BlocksLaws k) (hex : Hex) (hex_laws : HexLaws hex)
    (lower : WritesLowerHex hex) where
  block_vectors-Good :
      (miner : k.Key) → All (Good k laws hex hex_laws lower) (block_vectors k hex miner)
  unfolding block_vectors
  block_vectors-Good miner =
      let good =
        λ (name description : List ℕ) (height timestamp nonce b : ℕ) (tips txs : k.IndexSet)
            (hn : NoBreak name) (hd : NoBreak description)
            (small : (height < 2 ^ 64) × (timestamp < 2 ^ 64) × (nonce < 2 ^ 64) × (b < 256)).
          generate_vector-Good k laws hex hex_laws lower name description k.nobunaga height
            timestamp nonce (replicate 32 b) miner tips txs hn hd small.0 small.1 small.2
            (omega (arith, small.3)) refl in
      let set = insert_filled k hex k.set_new in
      (
        good (codes "single_tip_no_txs") (codes "Block with single tip and no transactions") 100
            1700000000000 12345 0xaa (set (0x11 ∷ [])) k.set_new (ground arith) (ground arith)
            (omega arith),
        (
          good (codes "single_tip_single_tx") (codes "Block with single tip and one transaction")
              200 1700000001000 67890 0xbb (set (0x22 ∷ [])) (set (0x33 ∷ [])) (ground arith)
              (ground arith) (omega arith),
          (
            good (codes "two_tips_three_txs") (codes "Block with two tips and three transactions")
                300 1700000002000 11111 0xcc (set (0x44 ∷ 0x55 ∷ []))
                (set (0x66 ∷ 0x77 ∷ 0x88 ∷ [])) (ground arith) (ground arith) (omega arith),
            (
              good (codes "three_tips_ten_txs")
                  (codes "Block with three tips (max) and ten transactions") 400 1700000003000 22222
                  0xdd (set (0x99 ∷ 0xaa ∷ 0xbb ∷ [])) (counted_set k hex k.set_new 0 10)
                  (ground arith) (ground arith) (omega arith),
              (
                good (codes "genesis_like") (codes "Genesis-like block at height 0 with zero tip") 0
                    1600000000000 0 0x00 (k.set_insert k.set_new k.hash_zero) k.set_new
                    (ground arith) (ground arith) (omega arith),
                (
                  good (codes "large_nonce") (codes "Block with maximum nonce values")
                      (2 ^ 64 - 1 - 1) (2 ^ 64 - 1) (2 ^ 64 - 1) 0xff (set (0xee ∷ [])) k.set_new
                      (ground arith) (ground arith) (omega arith),
                  tt,
                ),
              ),
            ),
          ),
        ),
      )

  length-block_vectors : (miner : k.Key) → length (block_vectors k hex miner) ≡ 6
  unfolding block_vectors
  length-block_vectors miner = refl

  -- With the laws of `BlocksLaws`, `HexLaws` and `WritesLowerHex`, `main` does not panic; the file
  -- that it writes is read back as its vectors, and each vector shows the parts of a header, the nonce
  -- that is set after `new` included, and the four hashes of this header.
  pub read_file-main_vectors :
      (vs : List BlockHashVector) × (main_vectors k hex ≡ some vs)
      × (length vs ≡ 6)
      × (read_file (file_text vs) ≡ some vs)
      × All (ShowsHeader k hex) vs
  unfolding main_vectors
  read_file-main_vectors =
      let (miner, read, same) = laws.key_from_bytes_lem (sequence 32 1) refl (omega arith) in
      let good = block_vectors-Good miner in
      (
        block_vectors k hex miner,
        rw read,
        length-block_vectors miner,
        read_file-file_text (block_vectors k hex miner) (All-map (λ v g. g.0) _ good),
        All-map (λ v g. g.1) _ good,
      )
