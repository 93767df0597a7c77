-- ===== src/Amino.antt =====
-- packages/amino/src: public keys, coins, addresses, multisig keys and sign documents.
pub mod Binary
pub mod Coins
pub mod Compare
pub mod Addresses
pub mod Multisig
pub mod SignDoc
