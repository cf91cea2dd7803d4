-- ===== src/Discv6/Vectors/Consistent.antt =====
-- The vectors of gen_discv6_vectors.rs against what they are about: identities, distances, buckets.
use tos_spec.Base.{ℕ, ◌+◌, ◌≤◌, ◌<◌, ◌≡◌, ◌↔◌, refl, ap, arith, bit_xor}
use tos_spec.Base.{List, [], String, none, some, length, length-append, replicate, All, All-append}
use tos_spec.Base.{true, Bool-cases, inl, inr}
use tos_spec.Base.Bytes.{AreBytes, sequence}
use tos_spec.Crypto.{Curve, CurveLaws, Hex, HexLaws}
use tos_spec.Discv6.Distance.{xor_distance}
use tos_spec.Discv6.Distance.Metric.{IsNodeId, number, number-xor_distance, xor_distance-AreBytes}
use tos_spec.Discv6.Distance.Bucket.{IsTopBit, log2_distance_lem}
use tos_spec.Discv6.Identity.{keypair_from_secret_bytes, compute_node_id}
use tos_spec.Discv6.Vectors.{
  IdentityVector, XorDistanceVector, Log2DistanceVector, push_identity, generate_identity_vectors,
  xor_vector, generate_xor_distance_vectors, log2_vector, generate_log2_distance_vectors, pattern_e,
  pattern_f, seed_secret, pattern_secret,
}

-- The vector shows two identifiers and a distance whose numbers are in the relation that it claims.
pub record XorAgrees (hex : Hex) (v : XorDistanceVector) : Type 0 where
  pub a : List ℕ
  pub b : List ℕ
  pub distance : List ℕ
  pub a_shown : hex.decode v.node_id_a_hex ≡ some a
  pub b_shown : hex.decode v.node_id_b_hex ≡ some b
  pub distance_shown : hex.decode v.xor_distance_hex ≡ some distance
  pub agrees : number distance ≡ bit_xor (number a) (number b)

pub record Log2Agrees (hex : Hex) (v : Log2DistanceVector) : Type 0 where
  pub a : List ℕ
  pub b : List ℕ
  pub a_shown : hex.decode v.node_id_a_hex ≡ some a
  pub b_shown : hex.decode v.node_id_b_hex ≡ some b
  pub same : (v.bucket_index ≡ none) ↔ (a ≡ b)
  pub top : (k : ℕ) → v.bucket_index ≡ some k → (k < 256) × IsTopBit k (number (xor_distance a b))

module _ (hex : Hex) (laws : HexLaws hex) where
  xor_vector-XorAgrees :
      (name description : String) (a b : List ℕ)
      → IsNodeId a
      → IsNodeId b
      → XorAgrees hex (xor_vector hex name description a b)
  unfolding xor_vector
  xor_vector-XorAgrees name description a b ha hb = record {
    a = a;
    b = b;
    distance = xor_distance a b;
    a_shown = laws.decode-encode a ha.bytes;
    b_shown = laws.decode-encode b hb.bytes;
    distance_shown =
        laws.decode-encode (xor_distance a b) (xor_distance-AreBytes a b ha.bytes hb.bytes);
    agrees = number-xor_distance a b (omega arith) ha.bytes hb.bytes;
  }

  log2_vector-Log2Agrees :
      (name description : String) (a b : List ℕ)
      → IsNodeId a
      → IsNodeId b
      → Log2Agrees hex (log2_vector hex name description a b)
  unfolding log2_vector
  log2_vector-Log2Agrees name description a b ha hb =
      let lem = log2_distance_lem a b ha hb in
      record {
        a = a;
        b = b;
        a_shown = laws.decode-encode a ha.bytes;
        b_shown = laws.decode-encode b hb.bytes;
        same = lem.0;
        top = lem.1;
      }

  id : (a : List ℕ) → length a ≡ 32 → AreBytes a → IsNodeId a
  id a size bytes = record { size = size; bytes = bytes }

  -- With the laws of `HexLaws`, each vector of a distance shows two identifiers and, as the
  -- distance, the exclusive or of their numbers.
  pub generate_xor_distance_vectors-XorAgrees :
      All (XorAgrees hex) (generate_xor_distance_vectors hex)
  unfolding generate_xor_distance_vectors xor_distance
  generate_xor_distance_vectors-XorAgrees =
      let node = id (replicate 32 0x12) refl (omega arith) in
      let same : XorDistanceVector =
        xor_vector hex "same_ids" "XOR distance between identical IDs is zero" (replicate 32 0x12)
          (replicate 32 0x12) in
      let first : XorAgrees hex same = xor_vector-XorAgrees _ _ _ _ node node in
      (
        unfold xor_vector in first,
        (
          xor_vector-XorAgrees _ _ _ _ (id _ refl (omega arith)) (id _ refl (omega arith)),
          (
            xor_vector-XorAgrees _ _ _ _ (id _ refl (omega arith)) (id _ refl (omega arith)),
            (
              xor_vector-XorAgrees _ _ _ _ (id _ refl (omega arith)) (id _ refl (omega arith)),
              (
                xor_vector-XorAgrees _ _ pattern_e pattern_f (id _ refl (omega arith))
                    (id _ refl (omega arith)),
                tt,
              ),
            ),
          ),
        ),
      )

  -- With the laws of `HexLaws`, each vector of a bucket shows two identifiers, no bucket exactly if
  -- they are equal, and otherwise a bucket below 256, the place of the highest bit of their
  -- distance.
  pub generate_log2_distance_vectors-Log2Agrees :
      All (Log2Agrees hex) (generate_log2_distance_vectors hex)
  unfolding generate_log2_distance_vectors
  generate_log2_distance_vectors-Log2Agrees =
      let node = id (replicate 32 0x12) refl (omega arith) in
      (
        record {
          a = replicate 32 0x12;
          b = replicate 32 0x12;
          a_shown = laws.decode-encode _ node.bytes;
          b_shown = laws.decode-encode _ node.bytes;
          same = (λ _. refl, λ _. refl);
          top = λ k e. cc;
        },
        (
          log2_vector-Log2Agrees _ _ _ _ (id _ refl (omega arith)) (id _ refl (omega arith)),
          (
            log2_vector-Log2Agrees _ _ _ _ (id _ refl (omega arith)) (id _ refl (omega arith)),
            (
              log2_vector-Log2Agrees _ _ _ _ (id _ refl (omega arith)) (id _ refl (omega arith)),
              (
                log2_vector-Log2Agrees _ _ _ _ (id _ refl (omega arith)) (id _ refl (omega arith)),
                (
                  log2_vector-Log2Agrees _ _ _ _ (id _ refl (omega arith))
                      (id _ refl (omega arith)),
                  (
                    log2_vector-Log2Agrees _ _ _ _ (id _ refl (omega arith))
                        (id _ refl (omega arith)),
                    tt,
                  ),
                ),
              ),
            ),
          ),
        ),
      )

-- The vector shows a secret scalar other than zero, the public key made of it, and as the node's
-- identifier the digest of that key.
pub record IdentityAgrees (c : Curve) (hex : Hex) (sha3_256 : List ℕ → List ℕ) (v : IdentityVector)
    : Type 0 where
  pub secret : c.Scalar
  pub nonzero : ¬ (secret ≡ c.scalar_zero)
  pub secret_shown : hex.decode v.secret_key_hex ≡ some (c.as_bytes secret)
  pub key_shown :
      hex.decode v.public_key_hex ≡ some (c.compress (c.smul (c.invert secret) c.base_blinding))
  pub node_id_shown :
      hex.decode v.node_id_hex
      ≡ some (sha3_256 (c.compress (c.smul (c.invert secret) c.base_blinding)))

module _ (c : Curve) (laws : CurveLaws c) (hex : Hex) (hex_laws : HexLaws hex)
    (sha3_256 : List ℕ → List ℕ) (digest_bytes : (m : List ℕ) → AreBytes (sha3_256 m)) where
  push_identity-IdentityAgrees :
      (name description : String) (secret : List ℕ) (vectors : List IdentityVector)
      → All (IdentityAgrees c hex sha3_256) vectors
      → All
          (IdentityAgrees c hex sha3_256)
          (push_identity c hex sha3_256 name description secret vectors)
        × (length (push_identity c hex sha3_256 name description secret vectors)
            ≤ length vectors + 1)
  unfolding push_identity keypair_from_secret_bytes compute_node_id
  push_identity-IdentityAgrees name description secret vectors h =
      let scalar = c.from_bytes_mod_order secret in
      let key = c.compress (c.smul (c.invert scalar) c.base_blinding) in
      elim (Bool-cases (c.scalar_eq scalar c.scalar_zero)) [
        | inl zero_there ↦ rw (zero_there, push_identity) (h, omega arith)
        | inr nonzero ↦
            rw (nonzero, push_identity)
              (
                All-append (IdentityAgrees c hex sha3_256) vectors _ h (
                  record {
                    secret = scalar;
                    nonzero =
                        λ e. ground (arith, nonzero, (laws.scalar_eq_iff scalar c.scalar_zero).1 e);
                    secret_shown = hex_laws.decode-encode _ (laws.as_bytes-AreBytes scalar);
                    key_shown = hex_laws.decode-encode _ (laws.compress-AreBytes _);
                    node_id_shown = hex_laws.decode-encode _ (digest_bytes key);
                  },
                  tt,
                ),
                omega (arith, length-append vectors _),
              )
      ]

  push_identity-zero :
      (name description : String) (secret : List ℕ) (vectors : List IdentityVector)
      → c.from_bytes_mod_order secret ≡ c.scalar_zero
      → push_identity c hex sha3_256 name description secret vectors ≡ vectors
  unfolding push_identity keypair_from_secret_bytes
  push_identity-zero name description secret vectors e =
      let test : c.scalar_eq (c.from_bytes_mod_order secret) c.scalar_zero ≡ true =
        (laws.scalar_eq_iff _ _).1 e in
      rw (test, push_identity)

  -- With the laws of `CurveLaws` and `HexLaws` and a digest that is bytes, each vector of an
  -- identity shows a secret other than zero, its public key and the digest of that key; where 32
  -- bytes 0 stand for the scalar zero, there are at most four vectors.
  pub generate_identity_vectors-IdentityAgrees :
      All (IdentityAgrees c hex sha3_256) (generate_identity_vectors c hex sha3_256)
      × (c.from_bytes_mod_order (replicate 32 0) ≡ c.scalar_zero
          → length (generate_identity_vectors c hex sha3_256) ≤ 4)
  unfolding generate_identity_vectors
  generate_identity_vectors-IdentityAgrees =
      let push = push_identity c hex sha3_256 in
      let h1 =
        push_identity-IdentityAgrees "zero_secret" "Secret key of all zeros" (replicate 32 0) []
          tt in
      let h2 =
        push_identity-IdentityAgrees "ones_secret" "Secret key of all 0xff bytes"
          (replicate 32 0xff) _ h1.0 in
      let h3 =
        push_identity-IdentityAgrees "sequential_secret" "Secret key of sequential bytes 0x00..0x1f"
          (sequence 32 0) _ h2.0 in
      let h4 =
        push_identity-IdentityAgrees "seed_based_secret" "Secret key from ASCII seed" seed_secret _
          h3.0 in
      let h5 =
        push_identity-IdentityAgrees "random_pattern_secret" "Deterministic random-looking pattern"
          pattern_secret _ h4.0 in
      (
        h5.0,
        λ zero_there.
            let skipped =
              push_identity-zero "zero_secret" "Secret key of all zeros" (replicate 32 0) []
                zero_there in
            omega (arith, ap length skipped, h2.1, h3.1, h4.1, h5.1),
      )
