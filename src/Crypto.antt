-- ===== src/Crypto.antt =====
-- shared/src/crypto.rs and shared/src/crypto/: keys, signatures, encryption, key derivation and
-- temporal identifiers, over the third-party crates as parameters.
pub mod Crates
pub mod Keys
pub mod Signing
pub mod Encryption
pub mod Temporal
pub mod Kdf
