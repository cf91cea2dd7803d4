-- ===== src/Signer/Schnorr/Verify.antt =====
-- The signatures of rust_py/tos_signer/src/lib.rs and the check of a Schnorr signature.
use tos_spec.Base.{ℕ, List, ◌⊎◌, ◌≡◌, refl, ap, ◌∙◌, length, take, drop, ◌++◌, arith}
use tos_spec.Base.{length-append, take-append_length, drop-append_length}
use tos_spec.Base.{All-append, eq_cases, inl, inr}
use tos_spec.Base.Bytes.{AreBytes, IsByte}
use tos_spec.Crypto.{Curve, CurveLaws}
use tos_spec.Signer.Result.{ok, value_error, private_key_length}
use tos_spec.Signer.Schnorr.{
  keypair_from_private_key_bytes, keypair_from_byte, get_public_key, nonce_label,
  get_public_key_from_private, hash_and_point_to_scalar, nonce, sign, sign_data, sign_with_key,
}

module _ (c : Curve) (sha3_512 : List ℕ → List ℕ) where
  -- The check of a Schnorr signature `s ‖ e` under the key `public`: the commitment is rebuilt as
  -- `s * H - e * public` and must hash to `e`.
  pub record Verifies (public : c.Point) (message signature : List ℕ) : Type 0 where
    pub size : length signature ≡ 64
    pub bytes : AreBytes signature
    pub challenge :
        hash_and_point_to_scalar c sha3_512 (c.compress public) message (
          c.psub
            (c.smul (c.from_bytes_mod_order (take 32 signature)) c.base_blinding)
            (c.smul (c.from_bytes_mod_order (drop 32 signature)) public))
        ≡ c.from_bytes_mod_order (drop 32 signature)

module _ (c : Curve) (laws : CurveLaws c) (sha3_512 : List ℕ → List ℕ) where
  -- `s * H - e * P` is the commitment `k * H`, for `P = x⁻¹ * H` and `s = x⁻¹ * e + k`.
  pub commitment :
      (i e k : c.Scalar)
      → let h = c.base_blinding in
        c.psub (c.smul (c.add (c.mul i e) k) h) (c.smul e (c.smul i h)) ≡ c.smul k h
  commitment i e k =
      rw
        (
          laws.add-smul (c.mul i e) k c.base_blinding,
          laws.mul_comm i e,
          laws.mul-smul e i c.base_blinding,
          laws.padd_comm (c.smul e (c.smul i c.base_blinding)) (c.smul k c.base_blinding),
        )
        (laws.psub-padd (c.smul k c.base_blinding) (c.smul e (c.smul i c.base_blinding)))

  -- Two encoded scalars side by side are read back.
  halves :
      (s e : c.Scalar)
      → let signature = c.as_bytes s ++ c.as_bytes e in
        (length signature ≡ 64)
        × AreBytes signature
        × (c.from_bytes_mod_order (take 32 signature) ≡ s)
        × (c.from_bytes_mod_order (drop 32 signature) ≡ e)
  halves s e = (
    omega (
      arith,
      length-append (c.as_bytes s) (c.as_bytes e),
      laws.length-as_bytes s,
      laws.length-as_bytes e,
    ),
    All-append IsByte (c.as_bytes s) (c.as_bytes e) (laws.as_bytes-AreBytes s)
        (laws.as_bytes-AreBytes e),
    ap c.from_bytes_mod_order
          (take-append_length 32 (c.as_bytes s) (c.as_bytes e) (laws.length-as_bytes s))
        ∙ laws.from_bytes_mod_order-as_bytes s,
    ap c.from_bytes_mod_order
          (drop-append_length 32 (c.as_bytes s) (c.as_bytes e) (laws.length-as_bytes s))
        ∙ laws.from_bytes_mod_order-as_bytes e,
  )

  -- A signature made of any commitment `k * H`, its challenge and its response verifies.
  response-Verifies :
      (private k : c.Scalar) (message : List ℕ)
      → let h = c.base_blinding in
        let public = c.smul (c.invert private) h in
        let e = hash_and_point_to_scalar c sha3_512 (c.compress public) message (c.smul k h) in
        Verifies c sha3_512 public message
          (c.as_bytes (c.add (c.mul (c.invert private) e) k) ++ c.as_bytes e)
  response-Verifies private k message =
      let h = c.base_blinding in
      let i = c.invert private in
      let public = c.smul i h in
      let e = hash_and_point_to_scalar c sha3_512 (c.compress public) message (c.smul k h) in
      let parts = halves (c.add (c.mul i e) k) e in
      record {
        size = parts.0;
        bytes = parts.1;
        challenge = rw (parts.2, parts.3, commitment i e k);
      }

  pub sign-Verifies :
      (private : c.Scalar) (message : List ℕ)
      → let public = c.smul (c.invert private) c.base_blinding in
        Verifies c sha3_512 public message (sign c sha3_512 private (c.compress public) message)
  unfolding sign
  sign-Verifies private message = response-Verifies private _ message

  -- The same with the keys of a seed byte.
  pub sign-keypair_from_byte-Verifies :
      (seed_byte : ℕ) (message : List ℕ)
      → let keys = keypair_from_byte c seed_byte in
        Verifies c sha3_512 keys.1 message (sign c sha3_512 keys.0 (c.compress keys.1) message)
  unfolding keypair_from_byte
  sign-keypair_from_byte-Verifies seed_byte message = sign-Verifies _ message

  -- Over a curve with the laws of `CurveLaws`, if the scalars 1 and 0 differ, the nonce of a
  -- signature is not zero.
  pub nonce-ne-zero :
      ¬ (c.from_u64 1 ≡ c.from_u64 0)
      → (private : c.Scalar) (compressed_pub message : List ℕ)
      → ¬ (nonce c sha3_512 private compressed_pub message ≡ c.from_u64 0)
  unfolding nonce
  nonce-ne-zero ne private compressed_pub message = ground (
    arith,
    laws.scalar_eq_iff
        (c.from_bytes_mod_order_wide
          (sha3_512 (nonce_label ++ (c.as_bytes private ++ (compressed_pub ++ message)))))
        (c.from_u64 0),
  )

  -- Over a curve with the laws of `CurveLaws`, for every message and seed byte `sign_data` returns a
  -- signature of 64 bytes that verifies over the message, under the key whose encoding
  -- `get_public_key` returns for the same seed byte.
  pub sign_data-Verifies :
      {E : Type 0} (message : List ℕ) (seed_byte : ℕ)
      → (public : c.Point) × (get_public_key c {E = E} seed_byte ≡ ok (c.compress public))
        × (signature : List ℕ) × (sign_data c sha3_512 {E = E} message seed_byte ≡ ok signature)
        × Verifies c sha3_512 public message signature
  unfolding sign_data get_public_key keypair_from_byte
  sign_data-Verifies message seed_byte =
      let keys = keypair_from_byte c seed_byte in
      (
        keys.1,
        refl,
        sign c sha3_512 keys.0 (c.compress keys.1) message,
        refl,
        sign-Verifies keys.0 message,
      )

  -- Over a curve with the laws of `CurveLaws`: on a private key of 32 bytes `sign_with_key` and
  -- `get_public_key_from_private` both succeed, with a signature that verifies under the key
  -- returned; on any other both return the error of its length.
  pub sign_with_key-Verifies :
      {E : Type 0} (message private_key : List ℕ)
      → ((length private_key ≡ 32)
          × (public : c.Point) × (get_public_key_from_private c {E = E} private_key
              ≡ ok (c.compress public))
          × (signature : List ℕ) × (sign_with_key c sha3_512 {E = E} message private_key
              ≡ ok signature)
          × Verifies c sha3_512 public message signature)
        ⊎ (¬ (length private_key ≡ 32)
            × (get_public_key_from_private c {E = E} private_key
                ≡ value_error (private_key_length (length private_key)))
            × (sign_with_key c sha3_512 {E = E} message private_key
                ≡ value_error (private_key_length (length private_key))))
  unfolding sign_with_key get_public_key_from_private keypair_from_private_key_bytes
  sign_with_key-Verifies message private_key = elim (eq_cases (length private_key) 32) [
    | inl (test, e) ↦
        let keys = keypair_from_private_key_bytes c private_key in
        inl (
          e,
          keys.1,
          rw test,
          sign c sha3_512 keys.0 (c.compress keys.1) message,
          rw test,
          sign-Verifies keys.0 message,
        )
    | inr (test, ne) ↦ inr (ne, rw test, rw test)
  ]
