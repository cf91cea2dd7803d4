-- ===== src/BlockHash/RoundTrip.antt =====
-- The file of gen_block_hash_vectors.rs, read back.
use tos_spec.Base.{ℕ, zero, suc, ◌≤◌, ◌≡◌, refl, ◌∙◌, arith, List, [], ◌∷◌, ◌++◌, map}
use tos_spec.Base.{none, some, All, length, length-append}
use tos_spec.Base.{append_assoc}
use tos_spec.Base.Bytes.{codes}
use tos_spec.Base.Decimal.{decimal_value-decimal}
use tos_spec.BlockHash.{BlockHashVector}
use tos_spec.BlockHash.Yaml.{item_line, vector_lines, file_text}
use tos_spec.BlockHash.Read.{
  strip_quote, item, items, read_vector, read_vectors, read_file, lines-flatten,
}
use tos_spec.BlockHash.Breaks.{IsWritable, some_lines, some_lines-NoBreak}

quoted : (h : List ℕ) → strip_quote (h ++ (b'\'' ∷ [])) ≡ some h
quoted [] = refl
quoted (c ∷ []) = refl
quoted (c ∷ d ∷ cs) = rw (quoted (d ∷ cs))

item-item_line : (h : List ℕ) → item (item_line h) ≡ some h
item-item_line h = quoted h

items_next :
    (l : List ℕ) (ls : List (List ℕ)) (i : List ℕ)
    → item l ≡ some i
    → items (l ∷ ls) ≡ (i ∷ (items ls).0, (items ls).1)
items_next l ls i e = rw e

items-map :
    (hs : List (List ℕ)) (l : List ℕ) (ls : List (List ℕ))
    → item l ≡ none
    → items (map item_line hs ++ (l ∷ ls)) ≡ (hs, l ∷ ls)
items-map [] l ls e = rw e
items-map (h ∷ hs) l ls e =
    items_next (item_line h) _ h (item-item_line h) ∙ rw (items-map hs l ls e)

read_vector-vector_lines :
    (v : BlockHashVector) (rest : List (List ℕ))
    → IsWritable v
    → read_vector (vector_lines v ++ rest) ≡ some (v, rest)
unfolding vector_lines
read_vector-vector_lines v rest h =
    let tail : List (List ℕ) =
      (codes "  tips_hash_hex: " ++ v.tips_hash_hex)
      ∷ (codes "  txs_hash_hex: " ++ v.txs_hash_hex)
      ∷ (codes "  work_hash_hex: " ++ v.work_hash_hex)
      ∷ (codes "  block_hash_hex: " ++ v.block_hash_hex)
      ∷ [] in
    let middle : List (List ℕ) =
      codes "  txs_hashes_hex:" ∷ (map item_line v.txs_hashes_hex ++ tail) in
    rw (
      append_assoc (map item_line v.tips_hex) middle rest,
      items-map v.tips_hex (codes "  txs_hashes_hex:")
          ((map item_line v.txs_hashes_hex ++ tail) ++ rest) refl,
      append_assoc (map item_line v.txs_hashes_hex) tail rest,
      items-map v.txs_hashes_hex (codes "  tips_hash_hex: " ++ v.tips_hash_hex) _ refl,
      decimal_value-decimal v.version h.version,
      decimal_value-decimal v.height h.height,
      decimal_value-decimal v.timestamp h.timestamp,
      decimal_value-decimal v.nonce h.nonce,
    )

-- One vector at the front.
read_next :
    (fuel : ℕ) (v : BlockHashVector) (ls rest : List (List ℕ)) (vs : List BlockHashVector)
    → read_vector ls ≡ some (v, rest)
    → read_vectors fuel rest ≡ some vs
    → read_vectors (suc fuel) ls ≡ some (v ∷ vs)
read_next fuel v [] rest vs e e' = cc
read_next fuel v (l ∷ ls) rest vs e e' = rw (e, e')

read_vectors-some_lines :
    (fuel : ℕ) (vs : List BlockHashVector)
    → length vs ≤ fuel
    → All IsWritable vs
    → read_vectors fuel (some_lines vs) ≡ some vs
unfolding vector_lines
read_vectors-some_lines fuel [] enough h = refl
read_vectors-some_lines zero (v ∷ vs) enough h = absurd (omega arith)
read_vectors-some_lines (suc fuel) (v ∷ vs) enough h =
    read_next fuel v (vector_lines v ++ some_lines vs) (some_lines vs) vs
      (read_vector-vector_lines v (some_lines vs) h.0)
      (read_vectors-some_lines fuel vs (omega arith) h.1)

length-some_lines : (vs : List BlockHashVector) → length vs ≤ length (some_lines vs)
unfolding vector_lines
length-some_lines [] = omega arith
length-some_lines (v ∷ vs) =
    omega (arith, length-append (vector_lines v) (some_lines vs), length-some_lines vs)

-- The file of vectors whose texts have no line break and whose numbers are below 2 ^ 64 is read back
-- as these vectors.
pub read_file-file_text :
    (vs : List BlockHashVector) → All IsWritable vs → read_file (file_text vs) ≡ some vs
unfolding file_text
read_file-file_text vs h =
    let size = length-some_lines vs in
    rw (lines-flatten (some_lines vs) (some_lines-NoBreak vs h))
      (read_vectors-some_lines (length (some_lines vs)) vs size h)
