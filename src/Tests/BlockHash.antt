-- ===== src/Tests/BlockHash.antt =====
-- An example for the block hashes, over headers that are their height and hashes that are a byte.
use tos_spec.Base.{
  ℕ, ap₂, ◌+◌, ◌%◌, ◌<◌, ◌≡◌, refl, arith, List, [], ◌∷◌, ◌++◌, some, length, replicate, All, map,
}
use tos_spec.Base.{All-replicate}
use tos_spec.Base.Bytes.{AreBytes}
use tos_spec.BlockHash.{Blocks, BlocksLaws, BlockHashVector, main_vectors}
use tos_spec.BlockHash.Yaml.{file_text}
use tos_spec.BlockHash.Read.{read_file}
use tos_spec.BlockHash.Shows.{ShowsHeader}
use tos_spec.BlockHash.File.{read_file-main_vectors}
use tos_spec.Tests.WrittenHex.{written_hex, written_hex_laws, written_hex_lower}

small : (bs : List ℕ) → AreBytes (map (λ b. b % 256) bs)
small [] = tt
small (b ∷ bs) = (omega arith, small bs)

abbrev toy_blocks : Blocks
toy_blocks = record {
  Hash = ℕ;
  hash_new = length;
  hash_zero = 0;
  hash_bytes = λ h. h % 256 ∷ replicate 31 0;
  IndexSet = List ℕ;
  set_new = [];
  set_insert = λ set h. set ++ (h ∷ []);
  set_iter = λ set. set;
  Version = Unit;
  nobunaga = tt;
  version_byte = λ _. 0;
  Key = List ℕ;
  key_from_bytes = λ bytes. some bytes;
  key_bytes = λ key. map (λ b. b % 256) key;
  Header = ℕ;
  header_new = λ _ height _ tips _ _ txs. height + length tips + length txs;
  with_nonce = λ header nonce. header + nonce;
  tips_hash = λ header. header;
  txs_hash = λ header. header + 1;
  work_hash = λ header. header + 2;
  block_hash = λ header. header + 3;
}

same : (bs : List ℕ) → AreBytes bs → map (λ b. b % 256) bs ≡ bs
same [] h = refl
same (b ∷ bs) h = ap₂ ◌∷◌ (omega (arith, h.0)) (same bs h.1)

toy_blocks_laws : BlocksLaws toy_blocks
toy_blocks_laws = record {
  hash_bytes-AreBytes = λ h. (omega arith, All-replicate (λ b. b < 256) 31 0 (omega arith));
  key_bytes-AreBytes = small;
  version_byte-IsByte = λ _. omega arith;
  key_from_bytes_lem = λ bytes size h. (bytes, refl, same bytes h);
}

read_file-main_vectors_example :
    (vs : List BlockHashVector) × (main_vectors toy_blocks written_hex ≡ some vs)
    × (length vs ≡ 6)
    × (read_file (file_text vs) ≡ some vs)
    × All (ShowsHeader toy_blocks written_hex) vs
read_file-main_vectors_example =
    read_file-main_vectors toy_blocks toy_blocks_laws written_hex written_hex_laws written_hex_lower
