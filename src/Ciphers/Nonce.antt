-- ===== src/Ciphers/Nonce.antt =====
-- gen_chacha20_poly1305_vectors.rs: the nonce of a message counter.
use tos_spec.Base.{ℕ, ◌/◌, ◌%◌, ◌^◌, ◌<◌, ◌≡◌, refl, ap, sym, ◌∙◌, arith, List, ◌∷◌}
use tos_spec.Base.{◌++◌, Option, none, some, length, replicate, ap₂}
use tos_spec.Base.Bytes.{AreBytes, to_be_bytes, read_be?, read_be?-append}

-- `(counter >> k) as u8` is the byte at the place of `k`.
unfoldable pub build_tos_nonce : ℕ → List ℕ
build_tos_nonce counter =
    counter / 2 ^ 56 % 256
    ∷ counter / 2 ^ 48 % 256
    ∷ counter / 2 ^ 40 % 256
    ∷ counter / 2 ^ 32 % 256
    ∷ counter / 2 ^ 24 % 256
    ∷ counter / 2 ^ 16 % 256
    ∷ counter / 2 ^ 8 % 256
    ∷ counter % 256
    ∷ replicate 4 0

bytes_of_nonce : (counter : ℕ) → build_tos_nonce counter ≡ to_be_bytes 8 counter ++ replicate 4 0
unfolding build_tos_nonce to_be_bytes
bytes_of_nonce counter = ap₂ ◌∷◌ (omega arith) (
    ap₂ ◌∷◌ (omega arith) (
      ap₂ ◌∷◌ (omega arith) (
        ap₂ ◌∷◌ (omega arith)
          (ap₂ ◌∷◌ (omega arith) (ap₂ ◌∷◌ (omega arith) (ap₂ ◌∷◌ (omega arith) refl))))))

pub read_be?-build_tos_nonce :
    (counter : ℕ)
    → counter < 2 ^ 64
    → read_be? 8 (build_tos_nonce counter) ≡ some (counter, replicate 4 0)
read_be?-build_tos_nonce counter h =
    ap (read_be? 8) (bytes_of_nonce counter)
    ∙ read_be?-append 8 counter (replicate 4 0) (omega arith)

pub build_tos_nonce_size : (counter : ℕ) → length (build_tos_nonce counter) ≡ 12
unfolding build_tos_nonce
build_tos_nonce_size counter = refl

pub build_tos_nonce-AreBytes : (counter : ℕ) → AreBytes (build_tos_nonce counter)
unfolding build_tos_nonce
build_tos_nonce-AreBytes counter = omega arith

-- For counters below 2 ^ 64, the nonce has 12 bytes; the first eight are the counter in big-endian
-- order and the others are zeros; two counters have the same nonce only where they are the same.
pub build_tos_nonce_lem :
    (counter other : ℕ)
    → counter < 2 ^ 64
    → other < 2 ^ 64
    → (length (build_tos_nonce counter) ≡ 12)
      × (read_be? 8 (build_tos_nonce counter) ≡ some (counter, replicate 4 0))
      × (build_tos_nonce counter ≡ build_tos_nonce other → counter ≡ other)
build_tos_nonce_lem counter other h h' = (
  build_tos_nonce_size counter,
  read_be?-build_tos_nonce counter h,
  λ e. same (
      sym (read_be?-build_tos_nonce counter h)
      ∙ ap (read_be? 8) e
      ∙ read_be?-build_tos_nonce other h'),
)
  where
    same :
        Path (Option (ℕ × List ℕ)) (some (counter, replicate 4 0)) (some (other, replicate 4 0))
        → counter ≡ other
    same e = ap (λ o. elim o [ none ↦ 0 | some p ↦ p.0 ]) e
