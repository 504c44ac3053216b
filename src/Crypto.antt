-- ===== src/Crypto.antt =====
-- src/frontend/src/lib/crypto: keys, encryption and key storage of the client.
pub mod Primitives
pub mod Hex
pub mod Ecc
pub mod Encryption
pub mod Storage
pub mod Samples
mod Tests
