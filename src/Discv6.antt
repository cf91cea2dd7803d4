-- ===== src/Discv6.antt =====
-- rust_generators/crypto/gen_discv6_vectors.rs: identities of peers, the exclusive-or distance of
-- node identifiers and its bucket index, and the test vectors over them.
pub mod Distance
pub mod Identity
pub mod Vectors
pub mod Urls
