-- ===== src/BlockHash/Yaml.antt =====
-- gen_block_hash_vectors.rs: the text of the file that `main` writes, line by line.
use tos_spec.Base.{ℕ, List, [], ◌∷◌, ◌++◌, map, flatten}
use tos_spec.Base.Bytes.{codes}
use tos_spec.Base.Decimal.{decimal}
use tos_spec.BlockHash.{BlockHashVector}

-- `  - '{}'`
abbrev pub item_line : List ℕ → List ℕ
item_line hash = codes "  - '" ++ (hash ++ codes "'")

-- The writes of one vector. No line stands for the items of an empty list.
unfoldable pub vector_lines : BlockHashVector → List (List ℕ)
vector_lines v =
    (codes "- name: " ++ v.name)
    ∷ (codes "  description: " ++ v.description)
    ∷ (codes "  version: " ++ decimal v.version)
    ∷ (codes "  height: " ++ decimal v.height)
    ∷ (codes "  timestamp: " ++ decimal v.timestamp)
    ∷ (codes "  nonce: " ++ decimal v.nonce)
    ∷ (codes "  extra_nonce_hex: " ++ v.extra_nonce_hex)
    ∷ (codes "  miner_hex: " ++ v.miner_hex)
    ∷ codes "  tips_hex:"
    ∷ (map item_line v.tips_hex
        ++ (codes "  txs_hashes_hex:"
            ∷ (map item_line v.txs_hashes_hex
                ++ ((codes "  tips_hash_hex: " ++ v.tips_hash_hex)
                    ∷ (codes "  txs_hash_hex: " ++ v.txs_hash_hex)
                    ∷ (codes "  work_hash_hex: " ++ v.work_hash_hex)
                    ∷ (codes "  block_hash_hex: " ++ v.block_hash_hex)
                    ∷ []))))

abbrev pub head_lines : List (List ℕ)
head_lines =
    codes "# Block Hash Test Vectors"
    ∷ codes "# Generated by gen_block_hash_vectors.rs"
    ∷ codes "# Verifies TOS Rust == Avatar C block hash computation"
    ∷ codes "algorithm: BLOCK_HASH_TOS"
    ∷ codes "description: TOS Rust block hash algorithm (BLAKE3-based, multi-step)"
    ∷ codes "test_vectors:"
    ∷ []

abbrev pub file_lines : List BlockHashVector → List (List ℕ)
file_lines vectors = head_lines ++ flatten (map vector_lines vectors)

-- The bytes of the file.
unfoldable pub file_text : List BlockHashVector → List ℕ
file_text vectors = flatten (map (λ l. l ++ (10 ∷ [])) (file_lines vectors))
