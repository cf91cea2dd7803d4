-- ===== src/RangeProofs/Table.antt =====
-- gen_rangeproofs_table.rs: the C tables that `main` prints to its standard output; and what `main`
-- of check_gens.rs prints. Texts are lists of codes.
pub mod Scan
pub mod Shows
use tos_spec.Base.{
  ℕ, ◌+◌, ◌-◌, ◌%◌, List, [], ◌∷◌, ◌++◌, Bool, ◌&&◌, ltb, ◌==◌, if◌then◌else◌, flatten,
}
use tos_spec.Base.Bytes.{codes}
use tos_spec.Base.Decimal.{decimal}
use tos_spec.Crypto.{Curve, Hex}
use tos_spec.Crypto.LowerHex.{lower_hex}
use tos_spec.RangeProofs.{Shake}
use tos_spec.RangeProofs.Chain.{generators_chain}

abbrev pub num_generators : ℕ
num_generators = 256

abbrev pub newline : List ℕ
newline = 10 ∷ []

-- `println!` of a text.
abbrev pub line : List ℕ → List ℕ
line text = text ++ newline

-- `[b'G', 0, 0, 0, 0]` and `[b'H', 0, 0, 0, 0]`.
abbrev pub label_g : List ℕ
label_g = b'G' ∷ 0 ∷ 0 ∷ 0 ∷ 0 ∷ []

abbrev pub label_h : List ℕ
label_h = b'H' ∷ 0 ∷ 0 ∷ 0 ∷ 0 ∷ []

-- `0x{:02x}` and the separator behind it.
abbrev pub byte_text : ℕ → ℕ → List ℕ
byte_text i b = codes "0x" ++ (lower_hex (b ∷ []) ++ (if ltb i 31 then codes ", " else []))

-- The loop over the bytes of a base point from the index `i`, eight in a line.
unfoldable pub key_bytes : ℕ → List ℕ → List ℕ
key_bytes i [] = []
key_bytes i (b ∷ bs) =
    byte_text i b
    ++ ((if (i + 1) % 8 == 0 && ltb i 31 then newline ++ codes "  " else [])
        ++ key_bytes (i + 1) bs)

-- The loop over the bytes of a generator from the index `j`.
unfoldable pub row_bytes : ℕ → List ℕ → List ℕ
row_bytes j [] = []
row_bytes j (b ∷ bs) = byte_text j b ++ row_bytes (j + 1) bs

module _ (c : Curve) where
  -- One base point.
  unfoldable pub key_text : List ℕ → List ℕ → c.Point → List ℕ
  key_text comment declaration p = flatten (
      line comment
      ∷ line declaration
      ∷ codes "  "
      ∷ key_bytes 0 (c.compress p)
      ∷ newline
      ∷ line (codes "};")
      ∷ newline
      ∷ [])

  -- `/* G[0] */`, with the letter of the table.
  unfoldable pub index_text : ℕ → ℕ → List ℕ
  index_text letter i = codes " /* " ++ (letter ∷ b'[' ∷ decimal i ++ line (codes "] */"))

  -- The loop over the generators from the index `i`.
  unfoldable pub rows : ℕ → ℕ → List c.Point → List ℕ
  rows letter i [] = []
  rows letter i (g ∷ gs) = flatten (
      codes "  { "
      ∷ row_bytes 0 (c.compress g)
      ∷ codes " }"
      ∷ (if ltb i (num_generators - 1) then codes "," else [])
      ∷ index_text letter i
      ∷ rows letter (i + 1) gs
      ∷ [])

module _ (c : Curve) (s : Shake c) where
  -- The four lines at the top.
  unfoldable pub table_head : List ℕ
  table_head = flatten (
      line (codes "/* Bulletproofs-compatible generator tables for Avatar rangeproofs")
      ∷ line (codes "   Generated by gen_rangeproofs_table.rs")
      ∷ line (codes "   These generators match the bulletproofs crate exactly. */")
      ∷ newline
      ∷ [])

  -- One table: its comment, its declaration, the rows and the end.
  unfoldable pub generators_text : ℕ → List c.Point → List ℕ
  generators_text letter points = flatten (
      line (codes "/* Bulletproof generators " ++ (letter ∷ codes " (compressed) */"))
      ∷ (codes "static const uchar at_rangeproofs_generators_" ++ (letter ∷ codes "_compressed["))
      ∷ (decimal num_generators ++ line (codes "][32] = {"))
      ∷ rows c letter 0 points
      ∷ line (codes "};")
      ∷ [])

  -- What `main` prints.
  unfoldable pub table_text : List ℕ
  table_text =
      let g_points = generators_chain c s label_g num_generators in
      let h_points = generators_chain c s label_h num_generators in
      flatten (
        table_head
        ∷ key_text c (codes "/* Pedersen basepoint G (ristretto255 basepoint) */")
            (codes "static const uchar at_rangeproofs_basepoint_G_compressed[32] = {") c.base
        ∷ key_text c (codes "/* Pedersen basepoint H (blinding generator) */")
            (codes "static const uchar at_rangeproofs_basepoint_H_compressed[32] = {")
            c.base_blinding
        ∷ generators_text b'G' g_points
        ∷ newline
        ∷ generators_text b'H' h_points
        ∷ [])

module _ (c : Curve) (hex : Hex) where
  -- `point_to_c_struct`, which takes a comment and leaves it out.
  unfoldable pub point_to_c_struct : c.Point → List ℕ → List ℕ
  point_to_c_struct p comment =
      codes "  // compressed: 0x" ++ (hex.encode (c.compress p) ++ newline)

  -- The loop of check_gens.rs over points.
  unfoldable pub point_lines : ℕ → ℕ → List c.Point → List ℕ
  point_lines letter i [] = []
  point_lines letter i (g ∷ gs) = flatten (
      (letter ∷ b'[' ∷ decimal i)
      ∷ line (codes "]: " ++ hex.encode (c.compress g))
      ∷ point_lines letter (i + 1) gs
      ∷ [])

  -- `main` of check_gens.rs.
  unfoldable pub check_gens_text : Shake c → List ℕ
  check_gens_text s = flatten (
      line (codes "Rust B (G):         " ++ hex.encode (c.compress c.base))
      ∷ line (codes "Rust B_blinding (H): " ++ hex.encode (c.compress c.base_blinding))
      ∷ newline
      ∷ line (codes "Avatar G: e2f2ae0a6abc4e71a884a961c500515f58e30b6aa582dd8db6a65945e08d2d76")
      ∷ line (codes "Avatar H: 8c9240b456a9e6dc65c377a1048d745f94a08cdb7f44cbcd7b46f34048871134")
      ∷ newline
      ∷ line (codes "--- BulletproofGens G[0..4] (regenerated) ---")
      ∷ point_lines b'G' 0 (generators_chain c s label_g 4)
      ∷ newline
      ∷ line (codes "--- Avatar generators_G[0..4] ---")
      ∷ line (codes "G[0]: e4d549716460013e71c032240c93ea1b1969cbc9e89c5d6b43adbf6c1df10724")
      ∷ line (codes "G[1]: d6728b558a7b439c64bc077828560391e30b589314a999648d5f8cb471725f04")
      ∷ line (codes "G[2]: 76c764f6854b782e38c65391d9cbdc5b6393b951ec450ddf75d05aab183e855c")
      ∷ line (codes "G[3]: ee2b3649b4a4b5e3a7c0cb8abd1efd953e4b568a9beec95fcd52c67ff4cc6d2e")
      ∷ newline
      ∷ line (codes "--- BulletproofGens H[0..4] (regenerated) ---")
      ∷ point_lines b'H' 0 (generators_chain c s label_h 4)
      ∷ [])
