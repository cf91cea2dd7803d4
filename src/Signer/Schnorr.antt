-- ===== src/Signer/Schnorr.antt =====
-- rust_py/tos_signer/src/lib.rs: key derivation, `hash_and_point_to_scalar`, `sign`, `chacha_seed`,
-- and the functions exposed to Python that return a public key or a signature of given bytes.
-- A hasher is the bytes that it was fed; `sha3_512` is the digest of them. The Python values are
-- read by PyO3; `E` is the type of the errors that PyO3 raises.
pub mod Verify
use tos_spec.Base.{ℕ, List, [], ◌∷◌, ◌++◌, length, take, replicate, if◌then◌else◌, ◌==◌}
use tos_spec.Base.Bytes.{codes, to_be_bytes}
use tos_spec.Crypto.{Curve}
use tos_spec.Signer.Result.{PyResult, ok, value_error, private_key_length}

abbrev pub nonce_label : List ℕ
nonce_label = codes "tos-signer/deterministic-nonce/v1"

abbrev pub seed_label : List ℕ
seed_label = codes "tos-signer/chacha-seed/v1"

module _ (c : Curve) where
  unfoldable pub keypair_from_private_key_bytes : List ℕ → c.Scalar × c.Point
  keypair_from_private_key_bytes key =
      let private = c.from_bytes_mod_order key in
      (private, c.smul (c.invert private) c.base_blinding)

  -- `[0u8; 32]` with the seed in front.
  unfoldable pub keypair_from_byte : ℕ → c.Scalar × c.Point
  keypair_from_byte byte =
      let private = c.from_bytes_mod_order (byte ∷ replicate 31 0) in
      (private, c.smul (c.invert private) c.base_blinding)

  unfoldable pub get_public_key : {E : Type 0} → ℕ → PyResult E (List ℕ)
  get_public_key seed_byte = ok (c.compress (keypair_from_byte seed_byte).1)

  unfoldable pub get_public_key_from_private : {E : Type 0} → List ℕ → PyResult E (List ℕ)
  get_public_key_from_private private_key =
      if length private_key == 32
      then ok (c.compress (keypair_from_private_key_bytes private_key).1)
      else value_error (private_key_length (length private_key))

module _ (c : Curve) (sha3_512 : List ℕ → List ℕ) where
  unfoldable pub hash_and_point_to_scalar : List ℕ → List ℕ → c.Point → c.Scalar
  hash_and_point_to_scalar compressed_pub message point =
      c.from_bytes_mod_order_wide (sha3_512 (compressed_pub ++ (message ++ c.compress point)))

  -- The deterministic nonce of `sign`; zero is replaced by one.
  unfoldable pub nonce : c.Scalar → List ℕ → List ℕ → c.Scalar
  nonce private_key compressed_pub message =
      let k =
        c.from_bytes_mod_order_wide
          (sha3_512 (nonce_label ++ (c.as_bytes private_key ++ (compressed_pub ++ message)))) in
      if c.scalar_eq k (c.from_u64 0) then c.from_u64 1 else k

  unfoldable pub sign : c.Scalar → List ℕ → List ℕ → List ℕ
  sign private_key compressed_pub message =
      let k = nonce private_key compressed_pub message in
      let r = c.smul k c.base_blinding in
      let e = hash_and_point_to_scalar compressed_pub message r in
      let s = c.add (c.mul (c.invert private_key) e) k in c.as_bytes s ++ c.as_bytes e

  unfoldable pub sign_data : {E : Type 0} → List ℕ → ℕ → PyResult E (List ℕ)
  sign_data message seed_byte =
      let (private, public) = keypair_from_byte c seed_byte in
      ok (sign private (c.compress public) message)

  unfoldable pub sign_with_key : {E : Type 0} → List ℕ → List ℕ → PyResult E (List ℕ)
  sign_with_key message private_key =
      let (private, public) = keypair_from_private_key_bytes c private_key in
      if length private_key == 32
      then ok (sign private (c.compress public) message)
      else value_error (private_key_length (length private_key))

-- The first half of a 64-byte digest.
unfoldable pub chacha_seed : (List ℕ → List ℕ) → List ℕ → ℕ → ℕ → List ℕ
chacha_seed sha3_512 label a b =
    take 32 (sha3_512 (seed_label ++ (label ++ ((a ∷ []) ++ to_be_bytes 8 b))))
