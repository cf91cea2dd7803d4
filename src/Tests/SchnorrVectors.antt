-- ===== src/Tests/SchnorrVectors.antt =====
-- Examples for the Schnorr vectors, over the small parameters.
use tos_spec.Base.{ℕ, List, [], ◌∷◌, ◌++◌, ◌≡◌, All, true}
use tos_spec.Signer.Schnorr.{nonce, sign}
use tos_spec.SchnorrVectors.{sign_deterministic, schnorr_test_file}
use tos_spec.SchnorrVectors.Verify.{
  VectorVerifies, sign-sign_deterministic, schnorr_test_file-VectorVerifies,
}
use tos_spec.Tests.Toy.{toy_curve, toy_laws, toy_digest, toy_hex, toy_hex_laws}

abbrev message : List ℕ
message = 1 ∷ 2 ∷ 3 ∷ []

sign-sign_deterministic_example :
    let public = toy_curve.smul (toy_curve.invert true) toy_curve.base_blinding in
    let k = nonce toy_curve toy_digest true (toy_curve.compress public) message in
    let signed =
      sign_deterministic toy_curve toy_digest true public message k toy_curve.base_blinding in
    sign toy_curve toy_digest true (toy_curve.compress public) message
    ≡ toy_curve.as_bytes signed.0 ++ toy_curve.as_bytes signed.1
sign-sign_deterministic_example = sign-sign_deterministic toy_curve toy_digest true message

schnorr_test_file-VectorVerifies_example :
    All
      (VectorVerifies toy_curve toy_hex toy_digest)
      (schnorr_test_file toy_curve toy_hex toy_digest).test_vectors
schnorr_test_file-VectorVerifies_example =
    schnorr_test_file-VectorVerifies toy_curve toy_laws toy_hex toy_hex_laws toy_digest
