-- ===== src/Crypto.antt =====
-- packages/crypto/src: signatures, mnemonics, HMAC, and key derivation with its paths.
pub mod Signature
pub mod HdPath
pub mod Slip10
pub mod Bip39
pub mod Hmac
