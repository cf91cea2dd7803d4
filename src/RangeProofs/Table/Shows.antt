-- ===== src/RangeProofs/Table/Shows.antt =====
-- The tables of gen_rangeproofs_table.rs, read back.
use tos_spec.Base.{ℕ, ◌+◌, ◌-◌, ◌%◌, ◌≡◌, refl, sym, ap, ◌∙◌, List, [], ◌∷◌, ◌++◌, append-nil, map}
use tos_spec.Base.{
  Bool, true, false, Bool-cases, inl, inr, ◌&&◌, ltb, ◌==◌, if◌then◌else◌, flatten, append_assoc,
}
use tos_spec.Base.Bytes.{AreBytes, codes}
use tos_spec.Base.Decimal.{decimal}
use tos_spec.Crypto.{Curve, CurveLaws}
use tos_spec.RangeProofs.{Shake}
use tos_spec.RangeProofs.Chain.{generators_chain}
use tos_spec.RangeProofs.Table.{
  num_generators, newline, line, label_g, label_h, byte_text, key_bytes, row_bytes, key_text, rows,
  table_head, generators_text, index_text, table_text,
}
use tos_spec.RangeProofs.Table.Scan.{
  outside, scan, step_outside, Gives, append-Gives, flatten-Gives, byte_text-Gives, decimal-Gives,
}

key_bytes-Gives : (i : ℕ) (bs : List ℕ) → AreBytes bs → Gives (key_bytes i bs) bs
unfolding key_bytes
key_bytes-Gives i [] h = λ rest. refl
key_bytes-Gives i (b ∷ bs) h =
    let test : Bool = (i + 1) % 8 == 0 && ltb i 31 in
    let gap : List ℕ = if test then newline ++ codes "  " else [] in
    append-Gives (byte_text i b) (gap ++ key_bytes (i + 1) bs) (b ∷ []) bs (byte_text-Gives i b h.0)
      (append-Gives gap (key_bytes (i + 1) bs) [] bs (gap-Gives test)
        (key_bytes-Gives (i + 1) bs h.1))
  where
    gap-Gives : (test : Bool) → Gives (if test then newline ++ codes "  " else []) []
    gap-Gives true = λ rest. refl
    gap-Gives false = λ rest. refl

row_bytes-Gives : (j : ℕ) (bs : List ℕ) → AreBytes bs → Gives (row_bytes j bs) bs
unfolding row_bytes
row_bytes-Gives j [] h = λ rest. refl
row_bytes-Gives j (b ∷ bs) h =
    append-Gives (byte_text j b) _ (b ∷ []) bs (byte_text-Gives j b h.0)
      (row_bytes-Gives (j + 1) bs h.1)

-- The two letters of the tables.
abbrev IsLetter : ℕ → Type 0
IsLetter c = (c == b'0') ≡ false

module _ (c : Curve) (laws : CurveLaws c) where
  key_text-Gives :
      (comment declaration : List ℕ) (p : c.Point)
      → Gives comment []
      → Gives declaration []
      → Gives (key_text c comment declaration p) (c.compress p)
  unfolding key_text
  key_text-Gives comment declaration p hc hd rest =
      flatten-Gives
        ((line comment, [])
          ∷ (line declaration, [])
          ∷ (codes "  ", [])
          ∷ (key_bytes 0 (c.compress p), c.compress p)
          ∷ (newline, [])
          ∷ (line (codes "};"), [])
          ∷ (newline, [])
          ∷ [])
        (
          append-Gives comment newline [] [] hc (λ rest. refl),
          (
            append-Gives declaration newline [] [] hd (λ rest. refl),
            (
              λ rest. refl,
              (
                key_bytes-Gives 0 (c.compress p) (laws.compress-AreBytes p),
                (λ rest. refl, (λ rest. refl, (λ rest. refl, tt))),
              ),
            ),
          ),
        )
        rest
      ∙ ap (λ bytes. bytes ++ scan outside rest) (append-nil (c.compress p))

  index_text-Gives : (letter i : ℕ) → IsLetter letter → Gives (index_text c letter i) []
  unfolding index_text
  index_text-Gives letter i h rest =
      ap (λ p. scan p (b'[' ∷ ((decimal i ++ line (codes "] */")) ++ rest))) (step_outside letter h)
      ∙ ap (scan outside) (append_assoc (decimal i) (line (codes "] */")) rest)
      ∙ decimal-Gives i _

  comma-Gives : (i : ℕ) → Gives (if ltb i (num_generators - 1) then codes "," else []) []
  comma-Gives i rest = elim (Bool-cases (ltb i (num_generators - 1))) [
    | inl e ↦ rw e
    | inr e ↦ rw e
  ]

  rows-Gives :
      (letter i : ℕ) (gs : List c.Point)
      → IsLetter letter
      → Gives (rows c letter i gs) (flatten (map c.compress gs))
  unfolding rows
  rows-Gives letter i [] h rest = refl
  rows-Gives letter i (g ∷ gs) h rest =
      flatten-Gives
        ((codes "  { ", [])
          ∷ (row_bytes 0 (c.compress g), c.compress g)
          ∷ (codes " }", [])
          ∷ ((if ltb i (num_generators - 1) then codes "," else []), [])
          ∷ (index_text c letter i, [])
          ∷ (rows c letter (i + 1) gs, flatten (map c.compress gs))
          ∷ [])
        (
          λ rest. refl,
          (
            row_bytes-Gives 0 (c.compress g) (laws.compress-AreBytes g),
            (
              λ rest. refl,
              (comma-Gives i, (index_text-Gives letter i h, (rows-Gives letter (i + 1) gs h, tt))),
            ),
          ),
        )
        rest
      ∙ ap (λ bytes. (c.compress g ++ bytes) ++ scan outside rest)
          (append-nil (flatten (map c.compress gs)))

  generators_text-Gives :
      (s : Shake c) (letter : ℕ) (points : List c.Point)
      → IsLetter letter
      → Gives (line (codes "/* Bulletproof generators " ++ (letter ∷ codes " (compressed) */"))) []
      → Gives
          (codes "static const uchar at_rangeproofs_generators_" ++ (letter ∷ codes "_compressed["))
          []
      → Gives (generators_text c s letter points) (flatten (map c.compress points))
  unfolding generators_text
  generators_text-Gives s letter points h head declared rest =
      flatten-Gives
        ((line (codes "/* Bulletproof generators " ++ (letter ∷ codes " (compressed) */")), [])
          ∷ (
            codes "static const uchar at_rangeproofs_generators_"
                ++ (letter ∷ codes "_compressed["),
            [],
          )
          ∷ (decimal num_generators ++ line (codes "][32] = {"), [])
          ∷ (rows c letter 0 points, flatten (map c.compress points))
          ∷ (line (codes "};"), [])
          ∷ [])
        (head, (declared, (λ rest. size rest, (rows-Gives letter 0 points h, (λ rest. refl, tt)))))
        rest
      ∙ ap (λ bytes. bytes ++ scan outside rest) (append-nil (flatten (map c.compress points)))
    where
      size : Gives (decimal num_generators ++ line (codes "][32] = {")) []
      size rest =
          ap (scan outside) (append_assoc (decimal num_generators) (line (codes "][32] = {")) rest)
          ∙ decimal-Gives num_generators _

  -- Over a curve with the laws of `CurveLaws`, the bytes that the printed tables hold as `0x` and two
  -- digits are, in this order, the two base points and the 256 points of the chain of each letter.
  pub scan-table_text :
      (s : Shake c)
      → scan outside (table_text c s)
        ≡ flatten (
            c.compress c.base
            ∷ c.compress c.base_blinding
            ∷ flatten (map c.compress (generators_chain c s label_g 256))
            ∷ flatten (map c.compress (generators_chain c s label_h 256))
            ∷ [])
  unfolding table_text table_head
  scan-table_text s =
      let g_points : List c.Point = generators_chain c s label_g num_generators in
      let h_points : List c.Point = generators_chain c s label_h num_generators in
      let g_text = generators_text-Gives s b'G' g_points refl (λ rest. refl) (λ rest. refl) in
      let h_text = generators_text-Gives s b'H' h_points refl (λ rest. refl) (λ rest. refl) in
      let base_text =
        key_text-Gives (codes "/* Pedersen basepoint G (ristretto255 basepoint) */")
          (codes "static const uchar at_rangeproofs_basepoint_G_compressed[32] = {") c.base
          (λ rest. refl) (λ rest. refl) in
      let blinding_text =
        key_text-Gives (codes "/* Pedersen basepoint H (blinding generator) */")
          (codes "static const uchar at_rangeproofs_basepoint_H_compressed[32] = {") c.base_blinding
          (λ rest. refl) (λ rest. refl) in
      sym (ap (scan outside) (append-nil (table_text c s)))
      ∙ flatten-Gives
          ((table_head c s, [])
            ∷ (
              key_text c (codes "/* Pedersen basepoint G (ristretto255 basepoint) */")
                  (codes "static const uchar at_rangeproofs_basepoint_G_compressed[32] = {") c.base,
              c.compress c.base,
            )
            ∷ (
              key_text c (codes "/* Pedersen basepoint H (blinding generator) */")
                  (codes "static const uchar at_rangeproofs_basepoint_H_compressed[32] = {")
                  c.base_blinding,
              c.compress c.base_blinding,
            )
            ∷ (generators_text c s b'G' g_points, flatten (map c.compress g_points))
            ∷ (newline, [])
            ∷ (generators_text c s b'H' h_points, flatten (map c.compress h_points))
            ∷ [])
          (λ rest. refl, (base_text, (blinding_text, (g_text, (λ rest. refl, (h_text, tt)))))) []
      ∙ append-nil _
