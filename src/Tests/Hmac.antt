-- ===== src/Tests/Hmac.antt =====
-- An example for HMAC, with codes that show the parity of the two lengths.
use tos_spec.Base.{ℕ, ◌+◌, ◌%◌, ◌<◌, ◌≡◌, refl, arith, List, ◌∷◌, some, length, replicate, All}
use tos_spec.Base.{All-replicate}
use tos_spec.Hmac.{HmacTestFile, generate_hmac_sha256_vectors, generate_hmac_sha512_vectors}
use tos_spec.Hmac.Agrees.{HmacAgrees, hmac_test_files-HmacAgrees}
use tos_spec.Tests.WrittenHex.{written_hex, written_hex_laws, written_hex_lower}

-- A code of `n` bytes and one more.
abbrev parity_mac : ℕ → List ℕ → List ℕ → List ℕ
parity_mac n key message = (length key + length message) % 2 ∷ replicate n 0

hmac_test_files-HmacAgrees_example :
    ((file : HmacTestFile) × (generate_hmac_sha256_vectors written_hex (parity_mac 31) ≡ some file)
      × All (HmacAgrees written_hex (parity_mac 31) file.output_size) file.test_vectors)
    × ((file : HmacTestFile) × (generate_hmac_sha512_vectors written_hex (parity_mac 63)
          ≡ some file)
        × All (HmacAgrees written_hex (parity_mac 63) file.output_size) file.test_vectors)
hmac_test_files-HmacAgrees_example =
    hmac_test_files-HmacAgrees written_hex written_hex_laws written_hex_lower (parity_mac 31)
      (parity_mac 63)
      (λ key message. ((omega arith, All-replicate (λ b. b < 256) 31 0 (omega arith)), refl))
      (λ key message. ((omega arith, All-replicate (λ b. b < 256) 63 0 (omega arith)), refl))
