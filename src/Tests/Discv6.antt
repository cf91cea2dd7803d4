-- ===== src/Tests/Discv6.antt =====
-- Examples for the distance of node identifiers.
use tos_spec.Base.{
  ℕ, ◌+◌, ◌≤◌, ◌<◌, ◌≡◌, ◌↔◌, refl, List, [], ◌∷◌, ◌++◌, replicate, none, some, arith,
}
use tos_spec.Discv6.Distance.{
  xor_distance, leading_zeros, bucket_of_byte, first_bucket, log2_distance,
}
use tos_spec.Discv6.Distance.Metric.{IsNodeId, number, xor_distance_metric}
use tos_spec.Base.{All, length}
use tos_spec.Discv6.Vectors.{generate_identity_vectors}
use tos_spec.Discv6.Vectors.Consistent.{
  IdentityAgrees, XorAgrees, Log2Agrees, generate_identity_vectors-IdentityAgrees,
}
use tos_spec.Discv6.Urls.{discv6_test_file}
use tos_spec.Discv6.Urls.Parse.{UrlAgrees, discv6_test_file-Agrees}
use tos_spec.Tests.Toy.{toy_curve, toy_laws, toy_digest, toy_digest-AreBytes, toy_hex, toy_hex_laws}
use tos_spec.Discv6.Distance.Bucket.{IsTopBit, log2_distance_lem, log2_distance_bucket}

abbrev id_a : List ℕ
id_a = 0x80 ∷ replicate 31 0

abbrev id_b : List ℕ
id_b = replicate 31 0 ++ (0x01 ∷ [])

abbrev id_c : List ℕ
id_c = replicate 31 0 ++ (0x03 ∷ [])

id_a-IsNodeId : IsNodeId id_a
id_a-IsNodeId = record { size = refl; bytes = omega arith }

id_b-IsNodeId : IsNodeId id_b
id_b-IsNodeId = record { size = refl; bytes = omega arith }

id_c-IsNodeId : IsNodeId id_c
id_c-IsNodeId = record { size = refl; bytes = omega arith }

xor_distance_metric_example :
    ((number (xor_distance id_a id_b) ≡ 0) ↔ (id_a ≡ id_b))
    × (xor_distance id_a id_b ≡ xor_distance id_b id_a)
    × (number (xor_distance id_a id_c)
        ≤ number (xor_distance id_a id_b) + number (xor_distance id_b id_c))
    × (xor_distance id_a (xor_distance id_a id_b) ≡ id_b)
xor_distance_metric_example =
    xor_distance_metric id_a id_b id_c id_a-IsNodeId id_b-IsNodeId id_c-IsNodeId

log2_distance_lem_example :
    ((log2_distance id_a id_b ≡ none) ↔ (id_a ≡ id_b))
    × ((k : ℕ)
        → log2_distance id_a id_b ≡ some k
        → (k < 256) × IsTopBit k (number (xor_distance id_a id_b)))
    × (log2_distance id_a id_b ≡ log2_distance id_b id_a)
log2_distance_lem_example = log2_distance_lem id_a id_b id_a-IsNodeId id_b-IsNodeId

-- Two identifiers in bucket 255 of the first, 1 apart from one another.
log2_distance_bucket_example : 1 < 255
unfolding log2_distance first_bucket bucket_of_byte leading_zeros xor_distance
log2_distance_bucket_example =
    log2_distance_bucket id_a id_b id_c 255 1 id_a-IsNodeId id_b-IsNodeId id_c-IsNodeId refl refl
      refl

generate_identity_vectors-IdentityAgrees_example :
    All
      (IdentityAgrees toy_curve toy_hex toy_digest)
      (generate_identity_vectors toy_curve toy_hex toy_digest)
    × (toy_curve.from_bytes_mod_order (replicate 32 0) ≡ toy_curve.scalar_zero
        → length (generate_identity_vectors toy_curve toy_hex toy_digest) ≤ 4)
generate_identity_vectors-IdentityAgrees_example =
    generate_identity_vectors-IdentityAgrees toy_curve toy_laws toy_hex toy_hex_laws toy_digest
      toy_digest-AreBytes

discv6_test_file-Agrees_example :
    let file = discv6_test_file toy_curve toy_hex toy_digest in
    All (IdentityAgrees toy_curve toy_hex toy_digest) file.identity_vectors
    × All (XorAgrees toy_hex) file.xor_distance_vectors
    × All (Log2Agrees toy_hex) file.log2_distance_vectors
    × All UrlAgrees file.url_vectors
discv6_test_file-Agrees_example =
    discv6_test_file-Agrees toy_curve toy_laws toy_hex toy_hex_laws toy_digest toy_digest-AreBytes
