-- ===== src/BlockHash.antt =====
-- rust_generators/crypto/gen_block_hash_vectors.rs: the vectors that `main` makes. Block headers,
-- hashes and keys of `tos_common` and the sets of `indexmap` are parameters. Texts are lists of codes;
-- `none` is a panic.
pub mod Yaml
pub mod Read
pub mod Breaks
pub mod Shows
pub mod RoundTrip
pub mod File
use tos_spec.Base.{ℕ, zero, suc, ◌-◌, ◌^◌, ◌≡◌, List, [], ◌∷◌, ◌++◌, map, Option, some, length}
use tos_spec.Base.{replicate}
use tos_spec.Base.Options.{◌>>=◌}
use tos_spec.Base.Bytes.{AreBytes, codes, sequence}
use tos_spec.Crypto.{Hex}

-- `Hash`, `IndexSet<Hash>`, `BlockVersion`, `CompressedPublicKey` and `BlockHeader`.
pub record Blocks : Type 1 where
  pub Hash : Type 0
  pub hash_new : List ℕ → Hash
  pub hash_zero : Hash
  pub hash_bytes : Hash → List ℕ
  pub IndexSet : Type 0
  pub set_new : IndexSet
  pub set_insert : IndexSet → Hash → IndexSet
  pub set_iter : IndexSet → List Hash
  pub Version : Type 0
  pub nobunaga : Version
  pub version_byte : Version → ℕ
  pub Key : Type 0
  pub key_from_bytes : List ℕ → Option Key
  pub key_bytes : Key → List ℕ
  pub Header : Type 0
  pub header_new : Version → ℕ → ℕ → IndexSet → List ℕ → Key → IndexSet → Header
  pub with_nonce : Header → ℕ → Header
  pub tips_hash : Header → Hash
  pub txs_hash : Header → Hash
  pub work_hash : Header → Hash
  pub block_hash : Header → Hash

-- Hashes and keys are written as bytes, a version is one byte, and a key is read from 32 bytes.
pub record BlocksLaws (k : Blocks) : Type 0 where
  pub hash_bytes-AreBytes : (h : k.Hash) → AreBytes (k.hash_bytes h)
  pub key_bytes-AreBytes : (p : k.Key) → AreBytes (k.key_bytes p)
  pub version_byte-IsByte : (v : k.Version) → AreBytes (k.version_byte v ∷ [])
  pub key_from_bytes_lem :
      (bytes : List ℕ)
      → length bytes ≡ 32
      → AreBytes bytes
      → (p : k.Key) × (k.key_from_bytes bytes ≡ some p) × (k.key_bytes p ≡ bytes)

pub record BlockHashVector : Type 0 where
  pub name : List ℕ
  pub description : List ℕ
  pub version : ℕ
  pub height : ℕ
  pub timestamp : ℕ
  pub nonce : ℕ
  pub extra_nonce_hex : List ℕ
  pub miner_hex : List ℕ
  pub tips_hex : List (List ℕ)
  pub txs_hashes_hex : List (List ℕ)
  pub tips_hash_hex : List ℕ
  pub txs_hash_hex : List ℕ
  pub work_hash_hex : List ℕ
  pub block_hash_hex : List ℕ

module _ (k : Blocks) (hex : Hex) where
  unfoldable pub hash_to_hex : k.Hash → List ℕ
  hash_to_hex hash = hex.encode (k.hash_bytes hash)

  unfoldable pub bytes_to_hex : List ℕ → List ℕ
  bytes_to_hex bytes = hex.encode bytes

  unfoldable pub generate_vector :
      List ℕ
      → List ℕ
      → k.Version
      → ℕ
      → ℕ
      → ℕ
      → List ℕ
      → k.Key
      → k.IndexSet
      → k.IndexSet
      → BlockHashVector
  generate_vector name description version height timestamp nonce extra_nonce miner tips
        txs_hashes =
      let header = k.header_new version height timestamp tips extra_nonce miner txs_hashes in
      let header = k.with_nonce header nonce in
      record {
        name = name;
        description = description;
        version = k.version_byte version;
        height = height;
        timestamp = timestamp;
        nonce = nonce;
        extra_nonce_hex = bytes_to_hex extra_nonce;
        miner_hex = bytes_to_hex (k.key_bytes miner);
        tips_hex = map hash_to_hex (k.set_iter tips);
        txs_hashes_hex = map hash_to_hex (k.set_iter txs_hashes);
        tips_hash_hex = hash_to_hex (k.tips_hash header);
        txs_hash_hex = hash_to_hex (k.txs_hash header);
        work_hash_hex = hash_to_hex (k.work_hash header);
        block_hash_hex = hash_to_hex (k.block_hash header);
      }

  -- The hashes `[b; 32]`, inserted in order.
  abbrev pub insert_filled : k.IndexSet → List ℕ → k.IndexSet
  insert_filled set [] = set
  insert_filled set (b ∷ bs) = insert_filled (k.set_insert set (k.hash_new (replicate 32 b))) bs

  -- The loop over `i` of Test 4, from `i` on.
  abbrev pub counted_set : k.IndexSet → ℕ → ℕ → k.IndexSet
  counted_set set i zero = set
  counted_set set i (suc n) =
      counted_set (k.set_insert set (k.hash_new (i ∷ (replicate 30 0 ++ (i ∷ []))))) (suc i) n

  -- The vectors of `main` for a miner.
  unfoldable pub block_vectors : k.Key → List BlockHashVector
  block_vectors miner =
      generate_vector (codes "single_tip_no_txs")
        (codes "Block with single tip and no transactions") k.nobunaga 100 1700000000000 12345
        (replicate 32 0xaa) miner (insert_filled k.set_new (0x11 ∷ [])) k.set_new
      ∷ generate_vector (codes "single_tip_single_tx")
          (codes "Block with single tip and one transaction") k.nobunaga 200 1700000001000 67890
          (replicate 32 0xbb) miner (insert_filled k.set_new (0x22 ∷ []))
          (insert_filled k.set_new (0x33 ∷ []))
      ∷ generate_vector (codes "two_tips_three_txs")
          (codes "Block with two tips and three transactions") k.nobunaga 300 1700000002000 11111
          (replicate 32 0xcc) miner (insert_filled k.set_new (0x44 ∷ 0x55 ∷ []))
          (insert_filled k.set_new (0x66 ∷ 0x77 ∷ 0x88 ∷ []))
      ∷ generate_vector (codes "three_tips_ten_txs")
          (codes "Block with three tips (max) and ten transactions") k.nobunaga 400 1700000003000
          22222 (replicate 32 0xdd) miner (insert_filled k.set_new (0x99 ∷ 0xaa ∷ 0xbb ∷ []))
          (counted_set k.set_new 0 10)
      ∷ generate_vector (codes "genesis_like")
          (codes "Genesis-like block at height 0 with zero tip") k.nobunaga 0 1600000000000 0
          (replicate 32 0x00) miner (k.set_insert k.set_new k.hash_zero) k.set_new
      ∷ generate_vector (codes "large_nonce") (codes "Block with maximum nonce values") k.nobunaga
          (2 ^ 64 - 1 - 1) (2 ^ 64 - 1) (2 ^ 64 - 1) (replicate 32 0xff) miner
          (insert_filled k.set_new (0xee ∷ [])) k.set_new
      ∷ []

  -- `main` up to the writing of the file.
  unfoldable pub main_vectors : Option (List BlockHashVector)
  main_vectors = do miner ← k.key_from_bytes (sequence 32 1); some (block_vectors miner)
