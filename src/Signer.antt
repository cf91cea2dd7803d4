-- ===== src/Signer.antt =====
-- rust_py/tos_signer/src/lib.rs: the byte writer, key derivation, signing, the frames and payloads
-- of a transaction, and the commitments and proofs of a shield transfer.
pub mod Result
pub mod Writer
pub mod Schnorr
pub mod Frame
pub mod Transfer
pub mod Transaction
pub mod Shield
