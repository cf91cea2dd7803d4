-- ===== src/BlockHash/Read.antt =====
-- A reader of the lines that gen_block_hash_vectors.rs writes, which the code does not have.
use tos_spec.Base.{ℕ, zero, suc, ◌≡◌, refl, ap, ◌∙◌, List, [], ◌∷◌, ◌++◌, map}
use tos_spec.Base.{Option, none, some, false, All, length, flatten, ◌==◌, if◌then◌else◌}
use tos_spec.Base.{append_assoc}
use tos_spec.Base.Options.{◌>>=◌}
use tos_spec.Base.Bytes.{codes}
use tos_spec.Base.Decimal.{decimal_value}
use tos_spec.BlockHash.{BlockHashVector}

abbrev put : ℕ → List (List ℕ) → List (List ℕ)
put c [] = (c ∷ []) ∷ []
put c (l ∷ ls) = (c ∷ l) ∷ ls

-- The lines of a text; a last line need not be ended.
abbrev pub lines : List ℕ → List (List ℕ)
lines [] = []
lines (c ∷ cs) = let rest = lines cs in if c == 10 then [] ∷ rest else put c rest

abbrev pub NoBreak : List ℕ → Type 0
NoBreak = All (λ c. (c == 10) ≡ false)

-- What follows a prefix.
abbrev pub strip : List ℕ → List ℕ → Option (List ℕ)
strip [] text = some text
strip (p ∷ ps) [] = none
strip (p ∷ ps) (c ∷ cs) = let rest = strip ps cs in if p == c then rest else none

-- A text without the quote at its end.
abbrev pub strip_quote : List ℕ → Option (List ℕ)
strip_quote [] = none
strip_quote (c ∷ []) = if c == b'\'' then some [] else none
strip_quote (c ∷ d ∷ cs) = do rest ← strip_quote (d ∷ cs); some (c ∷ rest)

abbrev pub item : List ℕ → Option (List ℕ)
item l = do quoted ← strip (codes "  - '") l; strip_quote quoted

-- The items at the front, and the lines behind them.
abbrev pub items : List (List ℕ) → List (List ℕ) × List (List ℕ)
items [] = ([], [])
items (l ∷ ls) =
    let (found, rest) = items ls in
    elim (item l) [ none ↦ ([], l ∷ ls) | some i ↦ (i ∷ found, rest) ]

-- The value behind a key, and the lines behind it.
abbrev pub field : List ℕ → List (List ℕ) → Option (List ℕ × List (List ℕ))
field key [] = none
field key (l ∷ ls) = do value ← strip key l; some (value, ls)

abbrev pub read_vector : List (List ℕ) → Option (BlockHashVector × List (List ℕ))
read_vector ls = do
  (name, ls) ← field (codes "- name: ") ls
  (description, ls) ← field (codes "  description: ") ls
  (version, ls) ← field (codes "  version: ") ls
  (height, ls) ← field (codes "  height: ") ls
  (timestamp, ls) ← field (codes "  timestamp: ") ls
  (nonce, ls) ← field (codes "  nonce: ") ls
  (extra_nonce_hex, ls) ← field (codes "  extra_nonce_hex: ") ls
  (miner_hex, ls) ← field (codes "  miner_hex: ") ls
  (_, ls) ← field (codes "  tips_hex:") ls
  let (tips_hex, ls) = items ls
  (_, ls) ← field (codes "  txs_hashes_hex:") ls
  let (txs_hashes_hex, ls) = items ls
  (tips_hash_hex, ls) ← field (codes "  tips_hash_hex: ") ls
  (txs_hash_hex, ls) ← field (codes "  txs_hash_hex: ") ls
  (work_hash_hex, ls) ← field (codes "  work_hash_hex: ") ls
  (block_hash_hex, ls) ← field (codes "  block_hash_hex: ") ls
  some (
    record {
      name = name;
      description = description;
      version = decimal_value 0 version;
      height = decimal_value 0 height;
      timestamp = decimal_value 0 timestamp;
      nonce = decimal_value 0 nonce;
      extra_nonce_hex = extra_nonce_hex;
      miner_hex = miner_hex;
      tips_hex = tips_hex;
      txs_hashes_hex = txs_hashes_hex;
      tips_hash_hex = tips_hash_hex;
      txs_hash_hex = txs_hash_hex;
      work_hash_hex = work_hash_hex;
      block_hash_hex = block_hash_hex;
    },
    ls,
  )

-- Vectors up to the end, with fuel for each.
abbrev pub read_vectors : ℕ → List (List ℕ) → Option (List BlockHashVector)
read_vectors fuel [] = some []
read_vectors zero (l ∷ ls) = none
read_vectors (suc fuel) (l ∷ ls) = do
  (v, rest) ← read_vector (l ∷ ls)
  vs ← read_vectors fuel rest
  some (v ∷ vs)

-- The lines at the top of the file are skipped.
abbrev pub read_file : List ℕ → Option (List BlockHashVector)
read_file text = elim (lines text) [
  | l1 ∷ l2 ∷ l3 ∷ l4 ∷ l5 ∷ l6 ∷ ls ↦ read_vectors (length ls) ls
  | _ ↦ none
]

put_line : (l : List ℕ) (rest : List ℕ) → NoBreak l → lines (l ++ (10 ∷ rest)) ≡ l ∷ lines rest
put_line [] rest h = refl
put_line (c ∷ cs) rest h = rw (h.0, put_line cs rest h.1)

pub lines-flatten :
    (ls : List (List ℕ)) → All NoBreak ls → lines (flatten (map (λ l. l ++ (10 ∷ [])) ls)) ≡ ls
lines-flatten [] h = refl
lines-flatten (l ∷ ls) h =
    let rest : List ℕ = flatten (map (λ l. l ++ (10 ∷ [])) ls) in
    ap lines (append_assoc l (10 ∷ []) rest)
    ∙ put_line l rest h.0
    ∙ ap (◌∷◌ l) (lines-flatten ls h.1)
