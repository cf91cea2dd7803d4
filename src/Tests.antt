-- ===== src/Tests.antt =====
-- Examples: small instances of the third-party parameters, and the theorems applied to them.
mod Toy
mod WrittenHex
mod Ciphers
mod RangeProofs
mod BlockHash
mod Contract
mod Hmac
mod Signer
mod Discv6
mod Bech32
mod BigInt
mod HashVectors
mod SchnorrVectors
