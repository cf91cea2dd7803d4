-- ===== src/BlockHash/Breaks.antt =====
-- Line breaks in the lines of gen_block_hash_vectors.rs.
use tos_spec.Base.{ℕ, ◌^◌, ◌<◌, arith, List, [], ◌∷◌, ◌++◌, map}
use tos_spec.Base.{All, All-append, All-map, flatten}
use tos_spec.Base.Bytes.{codes}
use tos_spec.Base.Decimal.{decimal, decimal-IsDigit}
use tos_spec.BlockHash.{BlockHashVector}
use tos_spec.BlockHash.Yaml.{item_line, vector_lines}
use tos_spec.BlockHash.Read.{NoBreak}

-- No text has a line break, and the numbers are those of machine integers.
pub record IsWritable (v : BlockHashVector) : Type 0 where
  pub name : NoBreak v.name
  pub description : NoBreak v.description
  pub version : v.version < 2 ^ 64
  pub height : v.height < 2 ^ 64
  pub timestamp : v.timestamp < 2 ^ 64
  pub nonce : v.nonce < 2 ^ 64
  pub extra_nonce_hex : NoBreak v.extra_nonce_hex
  pub miner_hex : NoBreak v.miner_hex
  pub tips_hex : All NoBreak v.tips_hex
  pub txs_hashes_hex : All NoBreak v.txs_hashes_hex
  pub tips_hash_hex : NoBreak v.tips_hash_hex
  pub txs_hash_hex : NoBreak v.txs_hash_hex
  pub work_hash_hex : NoBreak v.work_hash_hex
  pub block_hash_hex : NoBreak v.block_hash_hex

abbrev pub some_lines : List BlockHashVector → List (List ℕ)
some_lines vs = flatten (map vector_lines vs)

keyed : (key text : List ℕ) → NoBreak key → NoBreak text → NoBreak (key ++ text)
keyed key text h h' = All-append _ key text h h'

decimal-NoBreak : (n : ℕ) → NoBreak (decimal n)
decimal-NoBreak n = All-map (λ c h. ground (arith, h)) (decimal n) (decimal-IsDigit n)

item_lines-NoBreak : (hs : List (List ℕ)) → All NoBreak hs → All NoBreak (map item_line hs)
item_lines-NoBreak [] h = tt
item_lines-NoBreak (x ∷ xs) h = (
  keyed (codes "  - '") (x ++ codes "'") (ground arith) (keyed x (codes "'") h.0 (ground arith)),
  item_lines-NoBreak xs h.1,
)

vector_lines-NoBreak : (v : BlockHashVector) → IsWritable v → All NoBreak (vector_lines v)
unfolding vector_lines
vector_lines-NoBreak v h =
    let number =
      λ (key : List ℕ) (n : ℕ) (hk : NoBreak key). keyed key (decimal n) hk (decimal-NoBreak n) in
    (
      keyed (codes "- name: ") v.name (ground arith) h.name,
      (
        keyed (codes "  description: ") v.description (ground arith) h.description,
        (
          number (codes "  version: ") v.version (ground arith),
          (
            number (codes "  height: ") v.height (ground arith),
            (
              number (codes "  timestamp: ") v.timestamp (ground arith),
              (
                number (codes "  nonce: ") v.nonce (ground arith),
                (
                  keyed (codes "  extra_nonce_hex: ") v.extra_nonce_hex (ground arith)
                      h.extra_nonce_hex,
                  (
                    keyed (codes "  miner_hex: ") v.miner_hex (ground arith) h.miner_hex,
                    (
                      ground arith,
                      All-append NoBreak (map item_line v.tips_hex) _
                          (item_lines-NoBreak v.tips_hex h.tips_hex) (ground arith, behind_tips),
                    ),
                  ),
                ),
              ),
            ),
          ),
        ),
      ),
    )
  where
    behind_txs : All NoBreak (
        (codes "  tips_hash_hex: " ++ v.tips_hash_hex)
        ∷ (codes "  txs_hash_hex: " ++ v.txs_hash_hex)
        ∷ (codes "  work_hash_hex: " ++ v.work_hash_hex)
        ∷ (codes "  block_hash_hex: " ++ v.block_hash_hex)
        ∷ [])
    behind_txs = (
      keyed (codes "  tips_hash_hex: ") v.tips_hash_hex (ground arith) h.tips_hash_hex,
      (
        keyed (codes "  txs_hash_hex: ") v.txs_hash_hex (ground arith) h.txs_hash_hex,
        (
          keyed (codes "  work_hash_hex: ") v.work_hash_hex (ground arith) h.work_hash_hex,
          (keyed (codes "  block_hash_hex: ") v.block_hash_hex (ground arith) h.block_hash_hex, tt),
        ),
      ),
    )

    behind_tips : All NoBreak (
        map item_line v.txs_hashes_hex
        ++ ((codes "  tips_hash_hex: " ++ v.tips_hash_hex)
            ∷ (codes "  txs_hash_hex: " ++ v.txs_hash_hex)
            ∷ (codes "  work_hash_hex: " ++ v.work_hash_hex)
            ∷ (codes "  block_hash_hex: " ++ v.block_hash_hex)
            ∷ []))
    behind_tips =
        All-append NoBreak (map item_line v.txs_hashes_hex) _
          (item_lines-NoBreak v.txs_hashes_hex h.txs_hashes_hex) behind_txs

pub some_lines-NoBreak :
    (vs : List BlockHashVector) → All IsWritable vs → All NoBreak (some_lines vs)
some_lines-NoBreak [] h = tt
some_lines-NoBreak (v ∷ vs) h =
    All-append NoBreak (vector_lines v) (some_lines vs) (vector_lines-NoBreak v h.0)
      (some_lines-NoBreak vs h.1)
