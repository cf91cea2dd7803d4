-- ===== src/Lib.antt =====
-- Verification of the Rust code of the TOS specification: the signer that Python calls, and the
-- generators of the cryptographic test vectors.
--
-- Parts and files
--   Base            native numbers, lists, options, bytes, and the laws of bits and powers
--   Crypto          the third-party parameters: the curve with its Pedersen generators, the ChaCha20
--                   generator, the Merlin transcript, the `hex` crate; with them records of laws
--   Signer          rust_py/tos_signer/src/lib.rs. Result: `PyResult` and the messages. Writer: the
--                   `Writer`. Schnorr: keys, `sign`, `sign_data`, `sign_with_key`. Frame:
--                   `build_signing_bytes`. Transfer: the payloads. Transaction: `sign_transfer`.
--                   Shield: `make_shield_crypto`, `random_valid_point`,
--                   `make_dummy_ct_validity_proof`
--   Discv6          rust_generators/crypto/gen_discv6_vectors.rs. Distance: `xor_distance`,
--                   `log2_distance`. Identity: `keypair_from_secret_bytes`, `compute_node_id`.
--                   Vectors and Urls: the functions that make the vectors, and the file of `main`.
--                   Urls.Parse has a reader of `tosnode` URLs, which the code does not have
--   BigInt          rust_generators/crypto/gen_bigint_vectors.rs: `to_hex_32` and what `main` makes,
--                   with `num_bigint` as a parameter
--   Bech32          rust_generators/crypto/gen_bech32_vectors.rs: the encoder; ConvertBits; Vectors:
--                   what `main` makes. Decode is a decoder after BIP 173, which the code does not
--                   have, for the round trip
--   SchnorrVectors  rust_generators/crypto/gen_schnorr_vectors.rs
--   HashVectors     rust_generators/crypto/gen_sha256_vectors.rs and gen_sha512_vectors.rs, with the
--                   digests of the `sha2` crate as parameters. Others: gen_sha3_vectors.rs,
--                   gen_keccak256_vectors.rs and gen_blake3_vectors.rs
--   Hmac            rust_generators/crypto/gen_hmac_vectors.rs
--   Ciphers         gen_chacha20_poly1305_vectors.rs with `build_tos_nonce` (Nonce, Poly1305),
--                   gen_aes_gcm_vectors.rs (AesGcm) and gen_chacha20_vectors.rs (ChaCha20), all in
--                   rust_generators/crypto; the ciphers are parameters, ChaCha20
--                   as a stream of bytes that it adds by exclusive or
--   RangeProofs     rust_generators/crypto: gen_rangeproofs_vectors.rs (Vectors), the loop of
--                   verify_rangeproofs.rs (Verify), dump_proof.rs (Dump), `generators_chain` of
--                   check_gens.rs and gen_rangeproofs_table.rs (Chain) and what these two print
--                   (Table). Table.Scan is a reader of the bytes of a C table
--   BlockHash       rust_generators/crypto/gen_block_hash_vectors.rs: the vectors, and the text of
--                   the file (Yaml) with a reader for it (Read), which the code does not have
--   Contract        rust_generators/crypto/gen_contract_vectors.rs: `make_minimal_elf` (Elf), the
--                   vectors, and a reader (Wire) of the formats that its first comment gives
--   Tests           examples over small parameters
--
-- The signer builds a transaction from the outside in: `sign_transfer` encodes the transfers with
-- the writer, puts them in the frame that `build_signing_bytes` also builds, and signs the frame with
-- the key of the seed. The generators use the same curve, and `sign_deterministic` of one
-- of them repeats the steps of `sign` with a given nonce. The range proofs that one program makes are
-- the entries that another one verifies.
--
-- Correspondence. A function of the code has the same name here; a method of the writer takes the
-- writer and returns it. Bytes and machine integers are natural numbers, and a cast or a shift that
-- drops bits is written as a remainder. A `Result` is `PyResult`, a panic is `none`. A hasher that is
-- fed several times is its digest of the bytes joined. What a loop leaves is a function by clauses
-- over what it still has to do.
--
-- Fuel. The inner loop of `convert_bits` runs on fuel, one more than the number of waiting bits; each
-- round takes at least one bit, so it is enough where a digit of the output has one or more. A number
-- is printed with at most 20 decimal digits, which is enough below 2 ^ 64. The reader of the block
-- hashes has as much fuel as there are lines, and each vector takes more than one.
--
-- Not modelled: the crates named above, PyO3's conversions, the writing of YAML files by serde (the
-- file of the block hashes, which the code writes itself, is modelled), messages of progress, the other
-- generators, and the specification in Python.
pub mod Base
pub mod Bech32
pub mod BigInt
pub mod BlockHash
pub mod Ciphers
pub mod Contract
pub mod Crypto
pub mod Discv6
pub mod HashVectors
pub mod Hmac
pub mod RangeProofs
pub mod SchnorrVectors
pub mod Signer
pub mod Tests
