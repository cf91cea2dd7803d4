-- ===== src/Ciphers.antt =====
-- rust_generators/crypto/gen_chacha20_poly1305_vectors.rs, gen_aes_gcm_vectors.rs and
-- gen_chacha20_vectors.rs. The ciphers of the crates `chacha20poly1305`, `aes_gcm` and `chacha20` are
-- parameters. `none` is a panic.
pub mod Nonce
pub mod Poly1305
pub mod AesGcm
pub mod ChaCha20
pub mod Agrees
use tos_spec.Base.{ℕ, ◌+◌, ◌-◌, ◌^◌, ◌<◌, ◌≡◌, arith, List, [], ◌++◌, Option, none, some}
use tos_spec.Base.{length, take, drop, ltb, ◌==◌, if◌then◌else◌, length-append}
use tos_spec.Base.{
  take-append_length, drop-append_length, take-append-drop, length-take, length-drop,
}
use tos_spec.Base.Bytes.{AreBytes}
use tos_spec.Base.Options.{◌>>=◌}
use tos_spec.Crypto.{Hex}

-- `new_from_slice`, then `encrypt` and `decrypt` with a nonce, additional data and a text.
pub record Aead : Type 1 where
  pub Cipher : Type 0
  pub new_from_slice : List ℕ → Option Cipher
  pub encrypt : Cipher → List ℕ → List ℕ → List ℕ → Option (List ℕ)
  pub decrypt : Cipher → List ℕ → List ℕ → List ℕ → Option (List ℕ)

-- What `encrypt` gives is 16 bytes longer than the text, and is decrypted to it.
pub record Encrypts (a : Aead) (cipher : a.Cipher) (nonce aad text out : List ℕ) : Type 0 where
  pub encrypted : a.encrypt cipher nonce aad text ≡ some out
  pub bytes : AreBytes out
  pub size : length out ≡ length text + 16
  pub decrypted : a.decrypt cipher nonce aad out ≡ some text

-- Keys of the given size make a cipher, and nonces of 12 bytes encrypt texts of less than 4 GiB.
pub record AeadLaws (a : Aead) (key_size : ℕ) : Type 0 where
  pub new_from_slice_lem :
      (key : List ℕ)
      → length key ≡ key_size
      → (cipher : a.Cipher) × (a.new_from_slice key ≡ some cipher)
  pub encrypt_lem :
      (cipher : a.Cipher) (nonce aad text : List ℕ)
      → length nonce ≡ 12
      → AreBytes text
      → length text < 2 ^ 32
      → (out : List ℕ) × Encrypts a cipher nonce aad text out

-- `&c[..c.len() - 16]` and `&c[c.len() - 16..]`.
unfoldable pub split_tag : List ℕ → Option (List ℕ × List ℕ)
split_tag c = if ltb (length c) 16 then none else let n = length c - 16 in some (take n c, drop n c)

-- `hex::decode(text).unwrap()` as an array of `n` bytes by `try_into().unwrap()`.
unfoldable pub decode_array : Hex → List ℕ → ℕ → Option (List ℕ)
decode_array hex text n = do bytes ← hex.decode text; if length bytes == n then some bytes else none

pub split_tag_lem :
    (c : List ℕ) (n : ℕ)
    → length c ≡ n + 16
    → (split_tag c ≡ some (take n c, drop n c))
      × (length (take n c) ≡ n)
      × (length (drop n c) ≡ 16)
      × (take n c ++ drop n c ≡ c)
unfolding split_tag
split_tag_lem c n h =
    let e : length c - 16 ≡ n = omega arith in
    (
      rw e (ground arith),
      omega (arith, length-take n c),
      omega (arith, length-drop n c),
      take-append-drop n c,
    )
