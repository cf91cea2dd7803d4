-- ===== src/Signer/Shield.antt =====
-- rust_py/tos_signer/src/lib.rs: the privacy helpers `make_shield_crypto`, `random_valid_point` and
-- `make_dummy_ct_validity_proof`. The random generator and the transcript are passed along.
pub mod Verify
use tos_spec.Base.{ℕ, List, ◌++◌, [], ◌∷◌}
use tos_spec.Base.Bytes.{codes}
use tos_spec.Crypto.{Curve, Rng, Merlin}
use tos_spec.Signer.Result.{PyResult, ok}
use tos_spec.Signer.Schnorr.{keypair_from_byte, chacha_seed}

-- The texts of the code: labels of seeds, of the transcript and of its messages.
abbrev pub shield_label : List ℕ
shield_label = codes "shield-crypto"

abbrev pub transcript_label : List ℕ
transcript_label = codes "shield_commitment_proof"

abbrev pub domain_separator : List ℕ
domain_separator = codes "shield-commitment-proof"

abbrev pub dummy_label : List ℕ
dummy_label = codes "dummy-ct-validity-proof"

-- What the three byte strings returned are.
pub record ShieldCrypto : Type 0 where
  pub commitment : List ℕ
  pub receiver_handle : List ℕ
  pub proof : List ℕ

module _ (c : Curve) (m : Merlin) where
  -- The transcript from its start to the first challenge, given the two commitments of the proof.
  unfoldable pub proof_transcript : List ℕ → List ℕ → m.Transcript
  proof_transcript y_h y_p =
      let t = m.start transcript_label in
      let t1 = m.append_message t (codes "dom-sep") domain_separator in
      let t2 = m.append_message t1 (codes "Y_H") y_h in m.append_message t2 (codes "Y_P") y_p

  -- The challenge `c`, 64 bytes of the transcript as a scalar.
  unfoldable pub proof_challenge : m.Transcript → c.Scalar × m.Transcript
  proof_challenge t =
      let (bytes, t') = m.challenge_bytes t (codes "c") 64 in
      (c.from_bytes_mod_order_wide bytes, t')

module _ (c : Curve) (m : Merlin) (g : Rng c) (sha3_512 : List ℕ → List ℕ) where
  unfoldable pub make_shield_crypto : {E : Type 0} → ℕ → ℕ → PyResult E ShieldCrypto
  make_shield_crypto dest_seed amount =
      let dest_pub = (keypair_from_byte c dest_seed).1 in
      let rng = g.from_seed (chacha_seed sha3_512 shield_label dest_seed amount) in
      let (r, rng1) = g.random_scalar rng in
      let x = c.from_u64 amount in
      let commitment = c.padd (c.smul x c.base) (c.smul r c.base_blinding) in
      let receiver_handle = c.smul r dest_pub in
      let (k, rng2) = g.random_scalar rng1 in
      let y_h = c.compress (c.smul k c.base_blinding) in
      let y_p = c.compress (c.smul k dest_pub) in
      let (challenge, t) = proof_challenge c m (proof_transcript c m y_h y_p) in
      let z = c.add (c.mul challenge r) k in
      let (w, t') = m.challenge_bytes t (codes "w") 64 in
      ok (record {
        commitment = c.compress commitment;
        receiver_handle = c.compress receiver_handle;
        proof = y_h ++ (y_p ++ c.as_bytes z);
      })

module _ (c : Curve) (g : Rng c) (sha3_512 : List ℕ → List ℕ) where
  unfoldable pub random_valid_point : {E : Type 0} → PyResult E (List ℕ)
  random_valid_point =
      let rng = g.from_seed (chacha_seed sha3_512 (codes "random-valid-point") 0 0) in
      let (point, _) = g.random_point rng in ok (c.compress point)

  -- Three points and two scalars, drawn in this order.
  unfoldable pub make_dummy_ct_validity_proof : {E : Type 0} → PyResult E (List ℕ)
  make_dummy_ct_validity_proof =
      let rng = g.from_seed (chacha_seed sha3_512 dummy_label 0 0) in
      let (y0, rng1) = g.random_point rng in
      let (y1, rng2) = g.random_point rng1 in
      let (y2, rng3) = g.random_point rng2 in
      let (z_r, rng4) = g.random_scalar rng3 in
      let (z_x, rng5) = g.random_scalar rng4 in
      ok (c.compress y0 ++ (c.compress y1 ++ (c.compress y2 ++ (c.as_bytes z_r ++ c.as_bytes z_x))))
