-- ===== src/Signer/Shield/Verify.antt =====
-- The shield helpers of rust_py/tos_signer/src/lib.rs and the check of a shield proof.
use tos_spec.Base.{
  ℕ, zero, suc, List, ◌++◌, ◌≡◌, refl, sym, ap, ◌∙◌, length, take, drop, length-append,
}
use tos_spec.Base.{take-append_length, drop-append_length, append-nil, []}
use tos_spec.Crypto.{Curve, CurveLaws, Rng, Merlin}
use tos_spec.Signer.Result.{ok}
use tos_spec.Signer.Schnorr.{keypair_from_byte, chacha_seed}
use tos_spec.Signer.Shield.{
  ShieldCrypto, proof_transcript, proof_challenge, make_shield_crypto, make_dummy_ct_validity_proof,
  shield_label, dummy_label,
}

module _ (c : Curve) (m : Merlin) where
  -- The check of a shield transfer of `amount` to the key `dest`: with the points that the bytes
  -- stand for, and the challenge of a transcript over the proof's first 64 bytes,
  -- `z * H = c * (C - amount * G) + Y_H` and `z * dest = c * D + Y_P`.
  pub record ShieldVerifies (amount : ℕ) (dest : c.Point) (s : ShieldCrypto) : Type 0 where
    pub handle : c.Point
    pub committed : c.Point
    pub y_h : c.Point
    pub y_p : c.Point
    pub commitment_bytes : s.commitment ≡ c.compress committed
    pub handle_bytes : s.receiver_handle ≡ c.compress handle
    pub proof_size : length s.proof ≡ 96
    pub y_h_bytes : take 32 s.proof ≡ c.compress y_h
    pub y_p_bytes : take 32 (drop 32 s.proof) ≡ c.compress y_p
    pub opens :
        let z = c.from_bytes_mod_order (drop 32 (drop 32 s.proof)) in
        let e =
          (proof_challenge c m
            (proof_transcript c m (take 32 s.proof) (take 32 (drop 32 s.proof)))).0 in
        c.smul z c.base_blinding
        ≡ c.padd (c.smul e (c.psub committed (c.smul (c.from_u64 amount) c.base))) y_h
    pub matches :
        let z = c.from_bytes_mod_order (drop 32 (drop 32 s.proof)) in
        let e =
          (proof_challenge c m
            (proof_transcript c m (take 32 s.proof) (take 32 (drop 32 s.proof)))).0 in
        c.smul z dest ≡ c.padd (c.smul e handle) y_p

module _ (c : Curve) (laws : CurveLaws c) where
  -- `(e * r + k) * P = e * (r * P) + k * P`
  response :
      (e r k : c.Scalar) (p : c.Point)
      → c.smul (c.add (c.mul e r) k) p ≡ c.padd (c.smul e (c.smul r p)) (c.smul k p)
  response e r k p = rw (laws.add-smul (c.mul e r) k p, laws.mul-smul e r p)

  -- `(p + q) - p = q`
  padd-psub_left : (p q : c.Point) → c.psub (c.padd p q) p ≡ q
  padd-psub_left p q = rw (laws.padd_comm p q) (laws.psub-padd q p)

  -- Two points and a scalar in a row are cut apart again.
  thirds :
      (p q : c.Point) (z : c.Scalar)
      → let proof = c.compress p ++ (c.compress q ++ c.as_bytes z) in
        (length proof ≡ 96)
        × (take 32 proof ≡ c.compress p)
        × (take 32 (drop 32 proof) ≡ c.compress q)
        × (drop 32 (drop 32 proof) ≡ c.as_bytes z)
  thirds p q z =
      let tail = c.compress q ++ c.as_bytes z in
      let behind = drop-append_length 32 (c.compress p) tail (laws.length-compress p) in
      (
        simp (length-append, laws.length-compress, laws.length-as_bytes) refl,
        take-append_length 32 (c.compress p) tail (laws.length-compress p),
        rw behind (take-append_length 32 (c.compress q) (c.as_bytes z) (laws.length-compress q)),
        rw behind (drop-append_length 32 (c.compress q) (c.as_bytes z) (laws.length-compress q)),
      )

module _ (c : Curve) (laws : CurveLaws c) (m : Merlin) (g : Rng c)
    (sha3_512 : List ℕ → List ℕ) where
  -- Over a curve with the laws of `CurveLaws`, for every seed and amount, `make_shield_crypto`
  -- returns bytes that pass the check of a shield proof, for the amount and the public key of the
  -- seed.
  pub make_shield_crypto-ShieldVerifies :
      {E : Type 0} (dest_seed amount : ℕ)
      → (s : ShieldCrypto) × (make_shield_crypto c m g sha3_512 {E = E} dest_seed amount ≡ ok s)
        × ShieldVerifies c m amount (keypair_from_byte c dest_seed).1 s
  unfolding make_shield_crypto
  make_shield_crypto-ShieldVerifies dest_seed amount =
      let dest = (keypair_from_byte c dest_seed).1 in
      let rng = g.from_seed (chacha_seed sha3_512 shield_label dest_seed amount) in
      let r = (g.random_scalar rng).0 in
      let k = (g.random_scalar (g.random_scalar rng).1).0 in
      let y_h = c.smul k c.base_blinding in
      let y_p = c.smul k dest in
      let e = (proof_challenge c m (proof_transcript c m (c.compress y_h) (c.compress y_p))).0 in
      let z = c.add (c.mul e r) k in
      let parts = thirds c laws y_h y_p z in
      (
        _,
        refl,
        record {
          handle = c.smul r dest;
          committed = c.padd (c.smul (c.from_u64 amount) c.base) (c.smul r c.base_blinding);
          y_h = y_h;
          y_p = y_p;
          commitment_bytes = refl;
          handle_bytes = refl;
          proof_size = parts.0;
          y_h_bytes = parts.1;
          y_p_bytes = parts.2;
          opens =
              rw
                (
                  parts.3,
                  laws.from_bytes_mod_order-as_bytes z,
                  parts.1,
                  parts.2,
                  padd-psub_left c laws (c.smul (c.from_u64 amount) c.base)
                      (c.smul r c.base_blinding),
                )
                (response c laws e r k c.base_blinding);
          matches =
              rw (parts.3, laws.from_bytes_mod_order-as_bytes z, parts.1, parts.2)
                (response c laws e r k dest);
        },
      )

take_all : (bytes : List ℕ) → length bytes ≡ 32 → take 32 bytes ≡ bytes
take_all bytes e = rw (ap (take 32) (sym (append-nil bytes)) ∙ take-append_length 32 bytes [] e)

-- The bytes of the chunk of 32 at place `i`.
abbrev pub chunk : ℕ → List ℕ → List ℕ
chunk zero bytes = take 32 bytes
chunk (suc i) bytes = chunk i (drop 32 bytes)

module _ (c : Curve) (laws : CurveLaws c) (g : Rng c) (sha3_512 : List ℕ → List ℕ) where
  -- Over a curve with the laws of `CurveLaws`, `make_dummy_ct_validity_proof` returns 160 bytes that
  -- are three compressed points and then two scalars in their canonical form: decoding each scalar
  -- and encoding it again changes nothing.
  pub make_dummy_ct_validity_proof_lem :
      {E : Type 0}
      → (bytes : List ℕ) × (make_dummy_ct_validity_proof c g sha3_512 {E = E} ≡ ok bytes)
        × (length bytes ≡ 160)
        × (y0 : c.Point) × (y1 : c.Point) × (y2 : c.Point) × (chunk 0 bytes ≡ c.compress y0)
        × (chunk 1 bytes ≡ c.compress y1)
        × (chunk 2 bytes ≡ c.compress y2)
        × (c.as_bytes (c.from_bytes_mod_order (chunk 3 bytes)) ≡ chunk 3 bytes)
        × (c.as_bytes (c.from_bytes_mod_order (chunk 4 bytes)) ≡ chunk 4 bytes)
  unfolding make_dummy_ct_validity_proof
  make_dummy_ct_validity_proof_lem =
      let rng0 = g.from_seed (chacha_seed sha3_512 dummy_label 0 0) in
      let rng1 = (g.random_point rng0).1 in
      let rng2 = (g.random_point rng1).1 in
      let y0 = (g.random_point rng0).0 in
      let y1 = (g.random_point rng1).0 in
      let y2 = (g.random_point rng2).0 in
      let rng3 = (g.random_point rng2).1 in
      let z_r = (g.random_scalar rng3).0 in
      let z_x = (g.random_scalar (g.random_scalar rng3).1).0 in
      let tail2 = c.compress y2 ++ (c.as_bytes z_r ++ c.as_bytes z_x) in
      let tail1 = c.compress y1 ++ tail2 in
      let cut0 = drop-append_length 32 (c.compress y0) tail1 (laws.length-compress y0) in
      let cut1 = drop-append_length 32 (c.compress y1) tail2 (laws.length-compress y1) in
      let cut2 =
        drop-append_length 32 (c.compress y2) (c.as_bytes z_r ++ c.as_bytes z_x)
          (laws.length-compress y2) in
      let cut3 =
        drop-append_length 32 (c.as_bytes z_r) (c.as_bytes z_x) (laws.length-as_bytes z_r) in
      (
        c.compress y0 ++ tail1,
        refl,
        simp (length-append, laws.length-compress, laws.length-as_bytes) refl,
        y0,
        y1,
        y2,
        take-append_length 32 (c.compress y0) tail1 (laws.length-compress y0),
        rw cut0 (take-append_length 32 (c.compress y1) tail2 (laws.length-compress y1)),
        rw (cut0, cut1) (take-append_length 32 (c.compress y2) _ (laws.length-compress y2)),
        rw (
          cut0,
          cut1,
          cut2,
          take-append_length 32 (c.as_bytes z_r) (c.as_bytes z_x) (laws.length-as_bytes z_r),
          laws.from_bytes_mod_order-as_bytes z_r,
        ),
        rw (
          cut0,
          cut1,
          cut2,
          cut3,
          take_all (c.as_bytes z_x) (laws.length-as_bytes z_x),
          laws.from_bytes_mod_order-as_bytes z_x,
        ),
      )
