-- ===== src/Discv6/Identity.antt =====
-- rust_generators/crypto/gen_discv6_vectors.rs: `keypair_from_secret_bytes` and `compute_node_id`.
use tos_spec.Base.{ℕ, List, Option, none, some, if◌then◌else◌}
use tos_spec.Crypto.{Curve}

module _ (c : Curve) where
  -- `none` on a secret that is zero as a scalar.
  unfoldable pub keypair_from_secret_bytes : List ℕ → Option (c.Scalar × List ℕ)
  keypair_from_secret_bytes bytes =
      let scalar = c.from_bytes_mod_order bytes in
      if c.scalar_eq scalar c.scalar_zero
      then none
      else some (scalar, c.compress (c.smul (c.invert scalar) c.base_blinding))

unfoldable pub compute_node_id : (List ℕ → List ℕ) → List ℕ → List ℕ
compute_node_id sha3_256 compressed_pubkey = sha3_256 compressed_pubkey
