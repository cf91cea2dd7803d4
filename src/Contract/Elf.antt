-- ===== src/Contract/Elf.antt =====
-- gen_contract_vectors.rs: the bytecode of the deployments.
use tos_spec.Base.{
  ℕ, ◌+◌, ◌<◌, ◌≡◌, refl, arith, List, [], ◌∷◌, ◌++◌, length, take, replicate, All-append,
  All-replicate,
}
use tos_spec.Base.{length-replicate}
use tos_spec.Base.Bytes.{AreBytes}

unfoldable pub make_minimal_elf : ℕ → List ℕ
make_minimal_elf extra_size =
    (0x7f ∷ b'E' ∷ b'L' ∷ b'F' ∷ [])
    ++ (replicate 12 0x00
        ++ ((0x02 ∷ 0x00 ∷ [])
            ++ ((0xf3 ∷ 0x00 ∷ [])
                ++ ((0x01 ∷ 0x00 ∷ 0x00 ∷ 0x00 ∷ []) ++ replicate extra_size 0x00))))

-- The magic number, 24 bytes in front of the padding, and bytes only.
pub make_minimal_elf_lem :
    (n : ℕ)
    → (take 4 (make_minimal_elf n) ≡ 0x7f ∷ b'E' ∷ b'L' ∷ b'F' ∷ [])
      × (length (make_minimal_elf n) ≡ 24 + n)
      × AreBytes (make_minimal_elf n)
unfolding make_minimal_elf
make_minimal_elf_lem n =
    let zeros : List ℕ = replicate n 0 in
    let padding : AreBytes zeros = All-replicate (λ b. b < 256) n 0 (omega arith) in
    let head : List ℕ =
      0x7f
      ∷ b'E'
      ∷ b'L'
      ∷ b'F'
      ∷ (replicate 12 0 ++ (0x02 ∷ 0x00 ∷ 0xf3 ∷ 0x00 ∷ 0x01 ∷ 0x00 ∷ 0x00 ∷ 0x00 ∷ [])) in
    (
      refl,
      omega (arith, length-replicate {A = ℕ} n 0),
      All-append (λ b. b < 256) head zeros (omega arith) padding,
    )
