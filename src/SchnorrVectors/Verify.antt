-- ===== src/SchnorrVectors/Verify.antt =====
-- The vectors of gen_schnorr_vectors.rs and the check of a Schnorr signature.
use tos_spec.Base.{ℕ, List, [], ◌++◌, ◌≡◌, refl, String, Option, some, All, replicate, arith}
use tos_spec.Base.Bytes.{codes}
use tos_spec.Crypto.{Curve, CurveLaws, Hex, HexLaws}
use tos_spec.Signer
use tos_spec.Signer.Schnorr.Verify.{commitment}
use tos_spec.SchnorrVectors.{
  TestVector, hello_key, hello_k, filled, hash_and_point_to_scalar, sign_deterministic, test_vector,
  hello_world, empty_message, sixty_four_bytes, thirty_two_zeros, schnorr_test_file,
}

module _ (c : Curve) (hex : Hex) (sha3_512 : List ℕ → List ℕ) where
  -- The vector shows a public key, a message and two scalars that satisfy the check of a signature:
  -- the commitment rebuilt from the scalars hashes to the challenge. It also shows the private key
  -- of the public key and the nonce of the commitment.
  pub record VectorVerifies (v : TestVector) : Type 0 where
    pub private_key : c.Scalar
    pub k : c.Scalar
    pub s : c.Scalar
    pub e : c.Scalar
    pub message : List ℕ
    pub private_shown : hex.decode v.private_key_hex ≡ some (c.as_bytes private_key)
    pub public_shown :
        hex.decode v.public_key_hex
        ≡ some (c.compress (c.smul (c.invert private_key) c.base_blinding))
    pub message_shown : hex.decode v.message_hex ≡ some message
    pub k_shown : hex.decode v.k_hex ≡ some (c.as_bytes k)
    pub s_shown : hex.decode v.signature_s_hex ≡ some (c.as_bytes s)
    pub e_shown : hex.decode v.signature_e_hex ≡ some (c.as_bytes e)
    pub commitment :
        c.psub (c.smul s c.base_blinding) (c.smul e (c.smul (c.invert private_key) c.base_blinding))
        ≡ c.smul k c.base_blinding
    pub challenge :
        hash_and_point_to_scalar c sha3_512
          (c.compress (c.smul (c.invert private_key) c.base_blinding))
          message
          (c.compress (
            c.psub
              (c.smul s c.base_blinding)
              (c.smul e (c.smul (c.invert private_key) c.base_blinding))))
        ≡ e

module _ (c : Curve) (laws : CurveLaws c) (sha3_512 : List ℕ → List ℕ) where
  -- Over a curve with the laws of `CurveLaws`, for the public key of a private key, the commitment
  -- rebuilt from what `sign_deterministic` returns is that of the nonce, and its hash with key and
  -- message is the challenge returned.
  pub sign_deterministic_lem :
      (private_key k : c.Scalar) (message : List ℕ)
      → let h = c.base_blinding in
        let public = c.smul (c.invert private_key) h in
        let signed = sign_deterministic c sha3_512 private_key public message k h in
        let rebuilt = c.psub (c.smul signed.0 h) (c.smul signed.1 public) in
        (rebuilt ≡ c.smul k h)
        × (hash_and_point_to_scalar c sha3_512 (c.compress public) message (c.compress rebuilt)
            ≡ signed.1)
  unfolding sign_deterministic
  sign_deterministic_lem private_key k message =
      let h = c.base_blinding in
      let i = c.invert private_key in
      let e =
        hash_and_point_to_scalar c sha3_512 (c.compress (c.smul i h)) message
          (c.compress (c.smul k h)) in
      let back : c.psub (c.smul (c.add (c.mul i e) k) h) (c.smul e (c.smul i h)) ≡ c.smul k h =
        commitment c laws sha3_512 i e k in
      (back, rw back)

module _ (c : Curve) (sha3_512 : List ℕ → List ℕ) where
  -- With the nonce of the signer, `sign_deterministic` of the generator returns the two scalars
  -- whose bytes `sign` of the signer returns one after the other.
  pub sign-sign_deterministic :
      (private_key : c.Scalar) (message : List ℕ)
      → let public = c.smul (c.invert private_key) c.base_blinding in
        let k = Signer.Schnorr.nonce c sha3_512 private_key (c.compress public) message in
        let signed = sign_deterministic c sha3_512 private_key public message k c.base_blinding in
        Signer.Schnorr.sign c sha3_512 private_key (c.compress public) message
        ≡ c.as_bytes signed.0 ++ c.as_bytes signed.1
  unfolding sign_deterministic hash_and_point_to_scalar Signer.Schnorr.sign
      Signer.Schnorr.hash_and_point_to_scalar
  sign-sign_deterministic private_key message = refl

module _ (c : Curve) (laws : CurveLaws c) (hex : Hex) (hex_laws : HexLaws hex)
    (sha3_512 : List ℕ → List ℕ) where
  test_vector-VectorVerifies :
      (name description : String) (priv_bytes k_bytes message message_hex : List ℕ)
      (message_ascii : Option String)
      → hex.decode message_hex ≡ some message
      → VectorVerifies c hex sha3_512 (
          test_vector c hex sha3_512 name description priv_bytes k_bytes message message_hex
            message_ascii)
  unfolding test_vector
  test_vector-VectorVerifies name description priv_bytes k_bytes message message_hex message_ascii
        shown =
      let private_key = c.from_bytes_mod_order priv_bytes in
      let public = c.smul (c.invert private_key) c.base_blinding in
      let k = c.from_bytes_mod_order k_bytes in
      let signed = sign_deterministic c sha3_512 private_key public message k c.base_blinding in
      let lem = sign_deterministic_lem c laws sha3_512 private_key k message in
      record {
        private_key = private_key;
        k = k;
        s = signed.0;
        e = signed.1;
        message = message;
        private_shown = hex_laws.decode-encode _ (laws.as_bytes-AreBytes private_key);
        public_shown = hex_laws.decode-encode _ (laws.compress-AreBytes public);
        message_shown = shown;
        k_shown = hex_laws.decode-encode _ (laws.as_bytes-AreBytes k);
        s_shown = hex_laws.decode-encode _ (laws.as_bytes-AreBytes signed.0);
        e_shown = hex_laws.decode-encode _ (laws.as_bytes-AreBytes signed.1);
        commitment = lem.0;
        challenge = lem.1;
      }

  -- With the laws of `CurveLaws` and `HexLaws`, each vector of the file shows a key pair, a message,
  -- a nonce and a signature: the commitment rebuilt from the signature is the nonce's, and hashes
  -- with key and message to the challenge.
  pub schnorr_test_file-VectorVerifies :
      All (VectorVerifies c hex sha3_512) (schnorr_test_file c hex sha3_512).test_vectors
  unfolding schnorr_test_file hello_world empty_message sixty_four_bytes thirty_two_zeros
  schnorr_test_file-VectorVerifies = (
    test_vector-VectorVerifies _ _ hello_key hello_k (codes "Hello, world!") _ _
        (hex_laws.decode-encode _ (omega arith)),
    (
      test_vector-VectorVerifies _ _ (filled 0x11 0x01) (filled 0x22 0x02) [] [] _
          hex_laws.decode_nil,
      (
        test_vector-VectorVerifies _ _ (filled 0x33 0x03) (filled 0x44 0x04) (replicate 64 0x55) _ _
            (hex_laws.decode-encode _ (omega arith)),
        (
          test_vector-VectorVerifies _ _ (filled 0x77 0x07) (filled 0x88 0x08) (replicate 32 0) _ _
              (hex_laws.decode-encode _ (omega arith)),
          tt,
        ),
      ),
    ),
  )
