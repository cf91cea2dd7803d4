-- ===== src/Tests/HashVectors.antt =====
-- An example for the hash vectors, with digests that show the length of their input.
use tos_spec.Base.{ℕ, ◌%◌, ◌<◌, refl, arith, List, ◌∷◌, length, replicate, All, All-replicate}
use tos_spec.HashVectors.{sha256_test_file, sha512_test_file}
use tos_spec.HashVectors.Agrees.{HashAgrees}
use tos_spec.HashVectors.Others.{sha3_test_file, keccak256_test_file, blake3_test_file}
use tos_spec.HashVectors.Others.Agrees.{five_hash_files-HashAgrees}
use tos_spec.Tests.Toy.{toy_digest, toy_digest-AreBytes, toy_hex, toy_hex_laws}

abbrev short_digest : List ℕ → List ℕ
short_digest m = length m % 2 ∷ replicate 31 0

five_hash_files-HashAgrees_example :
    let file_256 = sha256_test_file toy_hex short_digest in
    let file_512 = sha512_test_file toy_hex toy_digest in
    let file_3 = sha3_test_file toy_hex toy_digest in
    let file_keccak = keccak256_test_file toy_hex short_digest in
    let file_blake = blake3_test_file toy_hex short_digest in
    All (HashAgrees toy_hex short_digest file_256.output_size) file_256.test_vectors
    × All (HashAgrees toy_hex toy_digest file_512.output_size) file_512.test_vectors
    × All (HashAgrees toy_hex toy_digest file_3.output_size) file_3.test_vectors
    × All (HashAgrees toy_hex short_digest file_keccak.output_size) file_keccak.test_vectors
    × All (HashAgrees toy_hex short_digest file_blake.output_size) file_blake.test_vectors
five_hash_files-HashAgrees_example =
    five_hash_files-HashAgrees toy_hex toy_hex_laws short_digest toy_digest toy_digest short_digest
      short_digest (λ m. ((omega arith, All-replicate (λ b. b < 256) 31 0 (omega arith)), refl))
      (λ m. (toy_digest-AreBytes m, refl)) (λ m. (toy_digest-AreBytes m, refl))
      (λ m. ((omega arith, All-replicate (λ b. b < 256) 31 0 (omega arith)), refl))
      (λ m. ((omega arith, All-replicate (λ b. b < 256) 31 0 (omega arith)), refl))
